-- ===== src/Scikube/Twice.antt =====
-- cmd/scikube/cmd/auth.go: two runs of `scikube auth` after each other.
use persephone.Base.{
  String, ◌≡◌, refl, sym, ap, ◌∙◌, ◌⊎◌, inl, inr, true, false, Option, none, some, [], ◌∷◌, arith,
}
use persephone.Base.{Result, ok, err, Bool-cases, Result-cases, eqb}
use persephone.Base.Dict.{lookup}
use persephone.Base.Runs.{◌>>-◌, bind-value}
use persephone.Auth.{
  ExecCredential, CacheError, File, Disk, private_mode, check_credential, decode_checked, read,
  write,
}
use persephone.Auth.Cache.{IsFresh, check_credential_of_IsFresh, read-write, read-IsFresh}
use persephone.Scikube.{
  AuthOptions, get_auth_options, Machine, Moment, printed, cache_key, file_storage, Cached,
  after_read, read_cache, obtain, store, print, log_in, authenticate,
}

after_read-hit :
    (r : Result CacheError ExecCredential) (ec : ExecCredential)
    → (after_read true r).credential ≡ some ec
    → r ≡ ok ec
after_read-hit (ok x) ec h = cc
after_read-hit (err e) ec h = ground arith

module _ (m : Machine) (key : String) where
  -- A cache that is used further, and has a file, has a private one.
  used_cache-private :
      (at : Moment) (disk : Disk)
      → (read_cache m at (ok key) disk).use_cache ≡ true
      → (f : File) → lookup key disk ≡ some f
      → f.mode ≡ private_mode
  unfolding read decode_checked check_credential
  used_cache-private at disk h f e = elim (Bool-cases (eqb f.mode private_mode)) [
    | inl g ↦ ground arith
    | inr g ↦ ground arith
  ]

  store_hit :
      (at : Moment) (cached : Cached) (ec found : ExecCredential) (disk disk' : Disk)
      → cached.credential ≡ some found
      → (store m at (ok key) cached ec disk).0 ≡ ok disk'
      → disk ≡ disk'
  store_hit at cached ec found disk disk' e h = ground arith

  store_miss :
      (at : Moment) (cached : Cached) (ec : ExecCredential) (disk disk' : Disk)
      → cached.credential ≡ none
      → cached.use_cache ≡ true
      → (store m at (ok key) cached ec disk).0 ≡ ok disk'
      → write m.marshal m.decode key ec at.writing disk ≡ ok disk'
  store_miss at cached ec disk disk' e used h =
      elim (Result-cases (write m.marshal m.decode key ec at.writing disk)) [
        | inl (d, f) ↦ ground arith
        | inr (x, f) ↦ ground arith
      ]

  module _ (again : Moment) (ec : ExecCredential)
      (readable : (again.reading.read_error ≡ none) × (again.reading.stat_error ≡ none))
      (fresh : IsFresh again.now ec) where
    reread :
        (f : File) (disk : Disk)
        → lookup key disk ≡ some f
        → f.mode ≡ private_mode
        → m.decode f.contents ≡ ok ec
        → read m.marshal m.decode key again.now again.reading disk ≡ ok ec
    unfolding read decode_checked
    reread f disk e p d =
        ground (arith, readable.0, readable.1, check_credential_of_IsFresh again.now ec fresh)

    stored-read :
        (at : Moment) (disk disk' : Disk)
        → ((e : ExecCredential) (text : String) → m.marshal e ≡ ok text → m.decode text ≡ ok e)
        → (read_cache m at (ok key) disk).use_cache ≡ true
        → ((read_cache m at (ok key) disk).credential ≡ none)
          ⊎ ((read_cache m at (ok key) disk).credential ≡ some ec)
        → (store m at (ok key) (read_cache m at (ok key) disk) ec disk).0 ≡ ok disk'
        → read m.marshal m.decode key again.now again.reading disk' ≡ ok ec
    stored-read at disk disk' codec used (inl e) h =
        read-write m.marshal m.decode key again.now ec at.writing again.reading disk disk' codec
          (used_cache-private at disk used) readable.0 readable.1 fresh
          (store_miss at (read_cache m at (ok key) disk) ec disk disk' e used h)
    stored-read at disk disk' codec used (inr e) h =
        let hit =
          read-IsFresh m.marshal m.decode key at.now ec at.reading disk
            (after_read-hit (read m.marshal m.decode key at.now at.reading disk) ec e) in
        let (f, there, own, decoded) = hit.1 in
        let same : disk ≡ disk' =
          store_hit at (read_cache m at (ok key) disk) ec ec disk disk' e h in
        reread f disk' (ap (lookup key) (sym same) ∙ there) own decoded

module _ (m : Machine) (at : Moment) where
  -- A run that has the credential prints it, and may store it.
  hand_out_ok :
      (key : Result String String) (cached : Cached) (disk disk' : Disk) (ec : ExecCredential)
      → (print m at ec >>- λ _. store m at key cached ec disk).0 ≡ ok disk'
      → (text : String) × (m.marshal_indent ec ≡ ok text)
        × ((store m at key cached ec disk).0 ≡ ok disk')
  hand_out_ok key cached disk disk' ec h = elim (Result-cases (m.marshal_indent ec)) [
    | inl (text, e) ↦ (text, e, ground arith)
    | inr (x, e) ↦ ground arith
  ]

  obtained :
      (o : AuthOptions) (credential : Option ExecCredential) (ec : ExecCredential)
      → (obtain m at o credential).0 ≡ ok ec
      → (credential ≡ none) ⊎ (credential ≡ some ec)
  obtained o none ec h = inl refl
  obtained o (some x) ec h = inr cc

  -- A run that has the credential from the cache makes no call and changes nothing.
  log_in_hit :
      (key : Result String String) (o : AuthOptions) (disk : Disk)
      (r : Result CacheError ExecCredential) (ec : ExecCredential) (text : String)
      → r ≡ ok ec
      → m.marshal_indent ec ≡ ok text
      → log_in m at key o disk (after_read true r) ≡ (ok disk, printed text ∷ [])
  log_in_hit (ok key) o disk r ec text e f = simp (e, f) refl
  log_in_hit (err x) o disk r ec text e f = simp (e, f) refl

-- A run with a cache: the settings are accepted, are not those of an end-to-end test, and have a
-- checksum, so that there is a key.
pub record IsPlain (m : Machine) (o : AuthOptions) (key : String) : Type 0 where
  pub accepted : get_auth_options m.settings ≡ ok o
  pub no_test : m.settings.flag "RUN_E2E_TEST" ≡ false
  pub keyed : cache_key m file_storage o ≡ ok key

authenticate-log_in :
    (m : Machine) (at : Moment) (o : AuthOptions) (key : String) (disk : Disk)
    → IsPlain m o key
    → authenticate m at disk ≡ log_in m at (ok key) o disk (read_cache m at (ok key) disk)
unfolding authenticate
authenticate-log_in m at o key disk p = simp (p.accepted, p.no_test, p.keyed) refl

-- After a run of `scikube auth` that succeeded and could use its cache, whether it found the
-- credential there or had it from Keystone, the next run with the same settings prints the same
-- credential, asks Keystone for nothing and leaves the disk as it is, for as long as the credential
-- is fresh; if the JSON codec of the cache gives back what it encoded and the operating system
-- reports no error in the reading.
pub authenticate_again :
    (m : Machine) (at again : Moment) (o : AuthOptions) (key : String) (disk disk' : Disk)
    (ec : ExecCredential)
    → IsPlain m o key
    → ((e : ExecCredential) (text : String) → m.marshal e ≡ ok text → m.decode text ≡ ok e)
    → again.reading.read_error ≡ none
    → again.reading.stat_error ≡ none
    → (read_cache m at (ok key) disk).use_cache ≡ true
    → (obtain m at o (read_cache m at (ok key) disk).credential).0 ≡ ok ec
    → IsFresh again.now ec
    → (authenticate m at disk).0 ≡ ok disk'
    → (text : String) × (m.marshal_indent ec ≡ ok text)
      × (authenticate m again disk' ≡ (ok disk', printed text ∷ []))
authenticate_again m at again o key disk disk' ec p codec r st used had fresh h =
    let cached : Cached = read_cache m at (ok key) disk in
    let run : (log_in m at (ok key) o disk cached).0 ≡ ok disk' =
      ap (λ x. x.0) (sym (authenticate-log_in m at o key disk p)) ∙ h in
    let rest : (print m at ec >>- λ _. store m at (ok key) cached ec disk).0 ≡ ok disk' =
      sym (
        bind-value (obtain m at o cached.credential)
          (λ x. print m at x >>- λ _. store m at (ok key) cached x disk) ec had)
      ∙ run in
    let (text, printable, stored) = hand_out_ok m at (ok key) cached disk disk' ec rest in
    let found =
      stored-read m key again ec (r, st) fresh at disk disk' codec used
        (obtained m at o cached.credential ec had) stored in
    (
      text,
      printable,
      authenticate-log_in m again o key disk' p
          ∙ log_in_hit m again (ok key) o disk'
              (read m.marshal m.decode key again.now again.reading disk') ec text found printable,
    )
