-- ===== src/Examples/Moves.antt =====
-- The Shoot "web" is moved from its secret to a newer one, and deleted.
use persephone.Base.{
  ◌≡◌, refl, inl, true, false, none, some, List, [], ◌∷◌, ◌++◌, ok, arith, eq_iff,
}
use persephone.Rotation.{InternalSecret}
use persephone.Rotation.Cleanup.{internal_secret_deletion_allowed}
use persephone.ShootController.{
  ManagedShoot, Env, Call, patch_shoot, finalizer_name, finalized, taken_over, is_forced, reconcile,
  take_over, patch_credentials_binding_name,
}
use persephone.ShootController.Takeover.{IsPrepared, Outcome, reconcile_ok-Outcome}
use persephone.ShootController.Release.{reconcile_moves}
use persephone.Examples.Rotation.{secret, shoot, env_at}

abbrev newer : InternalSecret
newer = record secret { name = "p1--web--shoot-2"; uid = "s2" }

abbrev web : ManagedShoot
web = record {
  shoot = shoot;
  deleting = false;
  generation = 3;
  annotations = ("shoot.persephone.sci.cloud.sap/force-credentials-binding-update", "true") ∷ [];
  labels = [];
  finalizers = finalizer_name ∷ [];
  maintenance = none;
  settings = "";
}

abbrev env : Env
env = record {
  newest = ok (some newer);
  in_window = λ s. false;
  until_window = λ s. 60;
  add_finalizer = none;
  patch = λ s. none;
  delete_all_of = λ namespace name. none;
  remove_finalizer = none;
}

outcome_example :
    (prepared : ManagedShoot) × (first : List Call) × (calls : List Call) × IsPrepared env web
      prepared first
    × ((reconcile env web).1 ≡ first ++ calls)
    × Outcome env prepared 0 calls
unfolding reconcile finalized take_over patch_credentials_binding_name
outcome_example = reconcile_ok-Outcome env web 0 refl

moves_example :
    (reconcile env web
      ≡ (ok 0, (finalized env web).1 ++ patch_shoot (taken_over web newer.name) ∷ []))
    × (is_forced (taken_over web newer.name) ≡ false)
    × (internal_secret_deletion_allowed (env_at 500) secret (taken_over web newer.name).shoot 900
        ≡ true)
    × (internal_secret_deletion_allowed (env_at 500) newer (taken_over web newer.name).shoot 900
        ≡ false)
unfolding finalized
moves_example =
    reconcile_moves env web web newer secret (env_at 500) 900 refl refl
      (λ e. ground (arith, eq_iff "p1--web--shoot-1" "p1--web--shoot-2")) (inl refl) refl
      (λ e. ground (arith, eq_iff "p1--web--shoot-1" "p1--web--shoot-2")) refl (omega arith)
