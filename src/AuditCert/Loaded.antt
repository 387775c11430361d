-- ===== src/AuditCert/Loaded.antt =====
-- internal/controller/auditcert/reloader.go: which certificates are on the disk.
use mathlib.Core.Path.{subst}
use persephone.Base.{
  ℕ, ◌≤◌, ◌<◌, String, ◌≡◌, ◌≢◌, refl, sym, ap, ◌∙◌, ◌⊎◌, inl, inr, ◌==◌, some, List, [], ◌∷◌,
  arith, eq_iff,
}
use persephone.Base.{Result, ok, err, eqb, Bool-cases, Option-cases}
use persephone.Base.Dict.{Dict, get_text, insert, lookup, lookup-insert}
use persephone.Kube.{found}
use persephone.AuditCert.{
  data_key_certificate_ca, data_key_certificate, data_key_private_key, Secret,
}
use persephone.AuditCert.Reloader.{
  Reloader, Io, ReloadError, write_files, write_certificates_to_disk, taken, reload,
  load_and_write_certs,
}

abbrev IsFile : String → Dict String → Dict String → Type 0
IsFile name contents disk =
    (lookup name disk ≡ some (get_text name contents)) × (get_text name contents ≢ "")

-- The three files of a secret are on the disk, and none is empty.
pub record IsWritten (contents disk : Dict String) : Type 0 where
  pub ca : IsFile data_key_certificate_ca contents disk
  pub certificate : IsFile data_key_certificate contents disk
  pub key : IsFile data_key_private_key contents disk

-- One file of the loop.
write_files-ok :
    (io : Io) (contents : Dict String) (name : String) (rest : List String) (disk : Dict String)
    → (write_files io contents (name ∷ rest) disk).0 ≡ ok tt
    → (get_text name contents ≢ "")
      × (write_files io contents (name ∷ rest) disk
          ≡ write_files io contents rest (insert name (get_text name contents) disk))
unfolding write_files
write_files-ok io contents name rest disk h = elim (Bool-cases (get_text name contents == "")) [
  | inl e ↦ ground arith
  | inr e ↦ elim (Option-cases (io.write_error name)) [
    | inr (x, f) ↦ ground arith
    | inl f ↦ (ground (arith, eq_iff (get_text name contents) ""), ground arith)
  ]
]

three_files :
    (ca crt key : String) (disk : Dict String)
    → let after =
        insert data_key_private_key key
          (insert data_key_certificate crt (insert data_key_certificate_ca ca disk)) in
      (lookup data_key_certificate_ca after ≡ some ca)
      × (lookup data_key_certificate after ≡ some crt)
      × (lookup data_key_private_key after ≡ some key)
three_files ca crt key disk = (simp lookup-insert, simp lookup-insert, simp lookup-insert)

write_certificates_to_disk-IsWritten :
    (io : Io) (contents disk : Dict String)
    → (write_certificates_to_disk io contents disk).0 ≡ ok tt
    → IsWritten contents (write_certificates_to_disk io contents disk).1
unfolding write_certificates_to_disk write_files
write_certificates_to_disk-IsWritten io contents disk = elim (Option-cases io.mkdir_error) [
  | inr (x, e) ↦ simp (e, write_certificates_to_disk) λ h. ground arith
  | inl e ↦
      simp (e, write_certificates_to_disk)
        λ h.
          let (n, f) =
            write_files-ok io contents data_key_certificate_ca
              (data_key_certificate ∷ data_key_private_key ∷ []) disk h in
          let disk1 =
            insert data_key_certificate_ca (get_text data_key_certificate_ca contents) disk in
          let h1 = sym (ap (λ x. x.0) f) ∙ h in
          let (n1, f1) =
            write_files-ok io contents data_key_certificate (data_key_private_key ∷ []) disk1 h1 in
          let disk2 = insert data_key_certificate (get_text data_key_certificate contents) disk1 in
          let h2 = sym (ap (λ x. x.0) f1) ∙ h1 in
          let (n2, f2) = write_files-ok io contents data_key_private_key [] disk2 h2 in
          let (a, b, c) = three_files _ _ _ disk in
          subst (λ x. IsWritten contents x.1) (sym (f ∙ f1 ∙ f2))
            (record { ca = (a, n); certificate = (b, n1); key = (c, n2) })
]

-- The runs of one reloader. `content` is what the API server has under each version; a read never
-- goes back to an older version, and `seen` is the version that was read last. A reading that
-- fails leaves the reloader as it is, and is no step.
pub data Reach (content : ℕ → Dict String) : ℕ → Reloader → Type 0 where
  loaded :
      {r : Reloader} (io : Io) (secret : Secret) (fresh : Reloader)
      → secret.contents ≡ content secret.resource_version
      → load_and_write_certs io (found secret) fresh ≡ (ok tt, r)
      → Reach content secret.resource_version r
  reloaded :
      {seen : ℕ} {r next : Reloader} (io : Io) (period : ℕ) (secret : Secret)
      (result : Result ReloadError ℕ)
      → Reach content seen r
      → seen ≤ secret.resource_version
      → secret.contents ≡ content secret.resource_version
      → reload io period (found secret) r ≡ (result, next)
      → Reach content secret.resource_version next

-- The disk has what was read last, or else the reloader knows an older version only, and will write
-- again.
abbrev pub IsUpToDate : (ℕ → Dict String) → ℕ → Reloader → Type 0
IsUpToDate content seen r =
    ((r.last_resource_version ≡ seen) × IsWritten (content seen) r.disk)
    ⊎ (r.last_resource_version < seen)

-- What a write leaves, of which the disk is known where it succeeds.
taken-cases :
    {A : Type 0} (a : A) (secret : Secret) (r : Reloader)
    (w : Result ReloadError (Unit {0}) × Dict String)
    → (w.0 ≡ ok tt → IsWritten secret.contents w.1)
    → (((taken a secret r w).0 ≡ ok a)
        × ((taken a secret r w).1.last_resource_version ≡ secret.resource_version)
        × IsWritten secret.contents (taken a secret r w).1.disk)
      ⊎ (((taken a secret r w).0 ≢ ok a)
          × ((taken a secret r w).1.last_resource_version ≡ r.last_resource_version))
taken-cases a secret r (ok u, disk) f = inl (refl, refl, f refl)
taken-cases a secret r (err e, disk) f = inr (λ h. ground arith, refl)

module _ (content : ℕ → Dict String) where
  load-IsUpToDate :
      (io : Io) (secret : Secret) (fresh : Reloader)
      → secret.contents ≡ content secret.resource_version
      → (load_and_write_certs io (found secret) fresh).0 ≡ ok tt
      → IsUpToDate content secret.resource_version (load_and_write_certs io (found secret) fresh).1
  unfolding load_and_write_certs
  load-IsUpToDate io secret fresh c h =
      elim (taken-cases tt secret fresh (write_certificates_to_disk io secret.contents fresh.disk)
        (write_certificates_to_disk-IsWritten io secret.contents fresh.disk)) [
          | inl (o, v, w) ↦ inl (
            v,
            subst (λ x. IsWritten x (load_and_write_certs io (found secret) fresh).1.disk) c w,
          )
          | inr (n, v) ↦ absurd (n h)
        ]

  -- A step keeps it, and where it gives no error the disk has what was read.
  pub reload-IsUpToDate :
      (io : Io) (period : ℕ) (secret : Secret) (seen : ℕ) (r : Reloader)
      → secret.contents ≡ content secret.resource_version
      → seen ≤ secret.resource_version
      → IsUpToDate content seen r
      → IsUpToDate content secret.resource_version (reload io period (found secret) r).1
        × (((reload io period (found secret) r).0 ≢ ok period)
            ⊎ IsWritten
                (content secret.resource_version)
                (reload io period (found secret) r).1.disk)
  unfolding reload
  reload-IsUpToDate io period secret seen r c later known =
      elim (Bool-cases (eqb secret.resource_version r.last_resource_version)) [
        | inl e ↦
            simp (e, reload)
              (elim known [
                | inl (v, w) ↦
                    let same : seen ≡ secret.resource_version = ground arith in
                    let w' = subst (λ x. IsWritten (content x) r.disk) same w in
                    (inl (ground arith, w'), inr w')
                | inr older ↦ absurd (ground arith)
              ])
        | inr e ↦
            simp (e, reload)
              (elim (taken-cases period secret r
                (write_certificates_to_disk io secret.contents r.disk)
                (write_certificates_to_disk-IsWritten io secret.contents r.disk)) [
                  | inl (o, v, w) ↦
                      let disk =
                        (taken period secret r
                          (write_certificates_to_disk io secret.contents r.disk)).1.disk in
                      let w' = subst (λ x. IsWritten x disk) c w in (inl (v, w'), inr w')
                  | inr (n, v) ↦
                      let older : r.last_resource_version < secret.resource_version = elim known [
                        | inl (k, w) ↦ ground arith
                        | inr k ↦ omega arith
                      ] in
                      (inr (rw v older), inl n)
                ])
      ]

  -- A reloader that has run for any time, with any errors of the file system between, either has
  -- the three files of the secret that it read last on its disk, under the version that it knows, or
  -- knows a version that is older.
  pub Reach-IsUpToDate :
      (seen : ℕ) (r : Reloader) → Reach content seen r → IsUpToDate content seen r
  Reach-IsUpToDate seen r (loaded io secret fresh c h) =
      subst (IsUpToDate content secret.resource_version) (ap (λ x. x.1) h)
        (load-IsUpToDate io secret fresh c (ap (λ x. x.0) h))
  Reach-IsUpToDate seen r
        (reloaded {seen = before} {r = old} io period secret result reached l c h) =
      subst (IsUpToDate content secret.resource_version) (ap (λ x. x.1) h)
        (reload-IsUpToDate io period secret before old c l (Reach-IsUpToDate before old reached)).0
