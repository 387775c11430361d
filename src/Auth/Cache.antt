-- ===== src/Auth/Cache.antt =====
-- The cache: what is written is read back while it is valid, and nothing else is handed out.
use persephone.Base.{ℕ, ◌<◌, String, ◌≡◌, ◌≢◌, ap, ◌∙◌, none, some, arith, eq_iff}
use persephone.Base.{Result, ok, Result-cases, Option-cases, inl, inr, eq_refl}
use mathlib.Core.Path.{subst}
use persephone.Base.Dict.{lookup, lookup-insert}
use persephone.Auth.{
  CredentialStatus, ExecCredential, File, Disk, Io, private_mode, check_credential, read,
  write_file, write,
}

-- A credential that may be handed out at the time: a token, and an expiry still to come.
pub record IsFresh (now : ℕ) (ec : ExecCredential) : Type 0 where
  pub status : CredentialStatus
  pub expiry : ℕ
  pub has_status : ec.status ≡ some status
  pub token : status.token ≢ ""
  pub has_expiry : status.expiration_timestamp ≡ some expiry
  pub later : now < expiry

pub check_credential_of_IsFresh :
    (now : ℕ) (ec : ExecCredential) → IsFresh now ec → check_credential now ec ≡ ok ec
unfolding check_credential
check_credential_of_IsFresh now ec f =
    ground (arith, f.has_status, f.has_expiry, f.token, f.later, eq_iff f.status.token "")

check_credential_sound :
    (now : ℕ) (ec ec' : ExecCredential)
    → check_credential now ec ≡ ok ec'
    → (ec ≡ ec') × IsFresh now ec
unfolding check_credential
check_credential_sound now ec ec' h = elim (Option-cases ec.status) [
  | inl e ↦ ground arith
  | inr (status, e) ↦ elim (Option-cases status.expiration_timestamp) [
    | inl f ↦ ground (arith, eq_iff status.token "")
    | inr (expiry, f) ↦ (
      ground arith,
      record {
        status = status;
        expiry = expiry;
        has_status = e;
        token = ground (arith, eq_iff status.token "");
        has_expiry = f;
        later = ground arith;
      },
    )
  ]
]

abbrev private : String → File
private contents = record { contents = contents; mode = private_mode }

module _ (marshal : ExecCredential → Result String String)
    (decode : String → Result String ExecCredential) where
  -- The file that a write leaves: the encoded credential, with the mode of the file before.
  write_lem :
      (key : String) (ec : ExecCredential) (io : Io) (disk disk' : Disk)
      → write marshal decode key ec io disk ≡ ok disk'
      → (contents : String) × (marshal ec ≡ ok contents)
        × (disk' ≡ write_file marshal decode key contents disk)
  unfolding write
  write_lem key ec io disk disk' h = elim (Result-cases (marshal ec)) [
    | inl (contents, e) ↦ (contents, e, ground arith)
    | inr (x, e) ↦ ground arith
  ]

  lookup-write_file :
      (key contents : String) (disk : Disk)
      → ((f : File) → lookup key disk ≡ some f → f.mode ≡ private_mode)
      → lookup key (write_file marshal decode key contents disk)
        ≡ some (record { contents = contents; mode = private_mode })
  unfolding write_file
  lookup-write_file key contents disk own = elim (Option-cases (lookup key disk)) [
    | inl e ↦ ground (arith, lookup-insert key key (private contents) disk, eq_refl key)
    | inr (f, e) ↦
        ground (
          arith,
          own f e,
          lookup-insert key key (record f { contents = contents }) disk,
          eq_refl key,
        )
  ]

  -- A credential that was written to a place where no file stood, or a private one, is read back
  -- as it was for as long as it is fresh, if the JSON codec gives back what it encoded and the
  -- operating system reports no error in the reading.
  pub read-write :
      (key : String) (now : ℕ) (ec : ExecCredential) (io io' : Io) (disk disk' : Disk)
      → ((e : ExecCredential) (text : String) → marshal e ≡ ok text → decode text ≡ ok e)
      → ((f : File) → lookup key disk ≡ some f → f.mode ≡ private_mode)
      → io'.read_error ≡ none
      → io'.stat_error ≡ none
      → IsFresh now ec
      → write marshal decode key ec io disk ≡ ok disk'
      → read marshal decode key now io' disk' ≡ ok ec
  unfolding read
  read-write key now ec io io' disk disk' codec own r st fresh h =
      let (contents, encoded, same) = write_lem key ec io disk disk' h in
      ground (
        arith,
        same,
        r,
        st,
        lookup-write_file key contents disk own,
        codec ec contents encoded,
        check_credential_of_IsFresh now ec fresh,
      )

  -- Whatever the disk holds, a credential that `Read` hands out is fresh, and stands in a file
  -- that only its owner can read.
  pub read-IsFresh :
      (key : String) (now : ℕ) (ec : ExecCredential) (io : Io) (disk : Disk)
      → read marshal decode key now io disk ≡ ok ec
      → IsFresh now ec
        × ((f : File) × (lookup key disk ≡ some f)
            × (f.mode ≡ private_mode)
            × (decode f.contents ≡ ok ec))
  unfolding read
  read-IsFresh key now ec io disk h = elim (Option-cases (lookup key disk)) [
    | inl e ↦ ground arith
    | inr (file, e) ↦ elim (Result-cases (decode file.contents)) [
      | inr (x, f) ↦ ground arith
      | inl (ec', f) ↦
          let (same, fresh) = check_credential_sound now ec' ec (ground arith) in
          (subst (IsFresh now) same fresh, (file, e, ground arith, f ∙ ap ok same))
    ]
  ]
