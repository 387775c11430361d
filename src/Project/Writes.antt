-- ===== src/Project/Writes.antt =====
-- A chain of writes, by its result.
use persephone.Base.{String, ◌≡◌, ◌≢◌, refl, Option, none, some}
use persephone.Project.{ProjectError, and_then, project_failed}

pub and_then-none :
    {W : Type 0} (wrapped : String → ProjectError) (r : Option String × W)
    (rest : W → Option ProjectError × W) (w' : W)
    → and_then wrapped r rest ≡ (none, w')
    → (w : W) × (r ≡ (none, w)) × (rest w ≡ (none, w'))
and_then-none wrapped (some e, w) rest w' h = cc
and_then-none wrapped (none, w) rest w' h = (w, refl, h)

-- An error that nothing later returns comes of the write itself.
pub and_then-project_failed :
    {W : Type 0} (r : Option String × W) (rest : W → Option ProjectError × W) (e : String) (w' : W)
    → and_then project_failed r rest ≡ (some (project_failed e), w')
    → ((w : W) → rest w ≢ (some (project_failed e), w'))
    → r ≡ (some e, w')
and_then-project_failed (some x, w) rest e w' h later = cc
and_then-project_failed (none, w) rest e w' h later = absurd (later w h)

-- An error of another kind comes of what follows the write.
pub and_then-other :
    {W : Type 0} (wrapped : String → ProjectError) (r : Option String × W)
    (rest : W → Option ProjectError × W) (e : ProjectError) (w' : W)
    → and_then wrapped r rest ≡ (some e, w')
    → ((x : String) → e ≢ wrapped x)
    → (w : W) × (r ≡ (none, w)) × (rest w ≡ (some e, w'))
and_then-other wrapped (some x, w) rest e w' h other = absurd (other x (cc))
and_then-other wrapped (none, w) rest e w' h other = (w, refl, h)

pub and_then-none_last :
    {W : Type 0} (wrapped : String → ProjectError) (r : Option String × W) (w' : W)
    → and_then wrapped r (λ w. (none, w)) ≡ (none, w')
    → r ≡ (none, w')
and_then-none_last wrapped (some e, w) w' h = cc
and_then-none_last wrapped (none, w) w' h = cc
