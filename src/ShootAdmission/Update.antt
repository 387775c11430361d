-- ===== src/ShootAdmission/Update.antt =====
-- internal/webhook/shootadmission/handler.go: an update of a Shoot that was admitted.
use persephone.ShootAdmission.Completed.{IsPool}
use mathlib.Core.Path.{subst}
use persephone.Base.{
  String, ◌≡◌, refl, sym, ap, ◌∙◌, inl, inr, true, false, ◌&&◌, Option, none, some,
}
use persephone.Base.{ok, Bool-cases}
use persephone.Base.Runs.{◌>>-◌, bind-value}
use persephone.UserInfo.{
  OpenStackUserInfo, has_open_stack_user_info, open_stack_user_info_from_extra,
}
use persephone.Rotation.{CredentialsBinding}
use persephone.ShootAdmission.{
  Env, InfrastructureConfig, Operation, update, Request, ShootSpec, ShootObject, ControlPlaneConfig,
  raw, object, Networking,
}
use persephone.ShootAdmission.Infrastructure.{
  default_networking, complete_config, complete_spec, given_config, detect_floating_pool, networked,
  set_infrastructure,
}
use persephone.ShootAdmission.Kept.{
  kept_extension, kept_twice, untyped, complete_config_twice, detect_again, control_again,
}
use persephone.ShootAdmission.Handler.{
  is_workerless, is_nil, is_responsible, new_cluster_user_client_set, issue_credentials, configure,
  finish, mutate, mutate_for, handle, bind,
}
use persephone.ShootAdmission.Issuance.{has_workers}
use persephone.ShootAdmission.Injected.{IsConfigured, handle-IsInjected}

set_infrastructure_done :
    (env : Env) (o : OpenStackUserInfo) (spec : ShootSpec) (config : InfrastructureConfig)
    (pool : String) (n : Networking)
    → given_config env spec ≡ ok config
    → (detect_floating_pool env o config).0 ≡ ok pool
    → spec.networking ≡ some n
    → is_workerless spec ≡ false
    → (configure env o spec).0 ≡ ok (complete_spec env config pool n spec)
unfolding configure set_infrastructure
set_infrastructure_done env o spec config pool n g d e w =
    let chosen : (configure env o spec).0 ≡ (set_infrastructure env o spec).0 =
      simp (w, configure) in
    let rest : (set_infrastructure env o spec).0
        ≡ (detect_floating_pool env o config >>- networked env config spec spec.networking).0 =
      simp (g, set_infrastructure) in
    chosen
    ∙ rest
    ∙ bind-value (detect_floating_pool env o config) _ pool d
    ∙ ap (λ x. (networked env config spec x pool).0) e

configure_workerless :
    (env : Env) (o : OpenStackUserInfo) (spec : ShootSpec)
    → is_nil spec.workers ≡ true
    → (configure env o spec).0 ≡ ok spec
unfolding configure
configure_workerless env o spec e = simp (e, configure) refl

module _ (encode : InfrastructureConfig → String)
    (encode_control : ControlPlaneConfig → String) where
  abbrev pub kept_shoot : ShootObject → ShootObject
  kept_shoot s = record s {
    spec = record s.spec {
      infrastructure_config = kept_extension encode s.spec.infrastructure_config;
      control_plane_config = kept_extension encode_control s.spec.control_plane_config;
    };
  }

  kept_shoot_twice : (s : ShootObject) → kept_shoot (kept_shoot s) ≡ kept_shoot s
  kept_shoot_twice s =
      rw
        (
          kept_twice encode s.spec.infrastructure_config,
          kept_twice encode_control s.spec.control_plane_config,
        )
        refl

  -- The decoder reads what was encoded, for the configuration that a Shoot has.
  abbrev pub IsDecoded : Env → ShootObject → Type 0
  IsDecoded env s =
      (config : InfrastructureConfig)
      → s.spec.infrastructure_config ≡ some (object config)
      → env.decode (raw (encode config)) ≡ ok (untyped config)

  module _ (env : Env) (operation : Operation) (o : OpenStackUserInfo)
      (binding : Option CredentialsBinding) (s : ShootObject) where
    -- The Shoot as it was admitted, kept, and admitted again with this specification.
    abbrev done : ShootSpec → ShootObject
    done spec = finish env operation o binding s.shoot spec

    abbrev again : ShootSpec → ShootSpec → ShootObject
    again spec spec' = finish env update o none (kept_shoot (done spec)).shoot spec'

    abbrev IsAgain : ShootSpec → Type 0
    IsAgain spec =
        (spec' : ShootSpec) × ((configure env o (kept_shoot (done spec)).spec).0 ≡ ok spec')
        × (kept_shoot (again spec spec') ≡ kept_shoot (done spec))

    workerless-IsAgain : (spec : ShootSpec) → is_nil spec.workers ≡ true → IsAgain spec
    unfolding finish
    workerless-IsAgain spec e = (
      (kept_shoot (done spec)).spec,
      configure_workerless env o (kept_shoot (done spec)).spec e,
      rw
          (
            e,
            kept_twice encode spec.infrastructure_config,
            kept_twice encode_control spec.control_plane_config,
          )
          refl,
    )

    completed-IsAgain :
        (config : InfrastructureConfig) (pool : String) (n : Networking)
        → IsDecoded env (done (complete_spec env config pool n s.spec))
        → IsPool env config pool
        → is_nil s.spec.workers ≡ false
        → IsAgain (complete_spec env config pool n s.spec)
    unfolding finish given_config complete_spec
    completed-IsAgain config pool n law pooled filled =
        let first = complete_config env config pool n in
        let kept = (kept_shoot (done (complete_spec env config pool n s.spec))).spec in
        (
          complete_spec env (untyped first) pool (default_networking n) kept,
          set_infrastructure_done env o kept (untyped first) pool (default_networking n)
              (law first refl) (detect_again env config pool n o pooled) refl filled,
          rw
              (
                complete_config_twice env config pool n,
                control_again encode_control env s.spec.control_plane_config,
                filled,
              )
              refl,
        )

    configured-IsAgain :
        (spec : ShootSpec) → IsDecoded env (done spec) → IsConfigured env s.spec spec → IsAgain spec
    configured-IsAgain spec law (inl (e, f)) =
        let none_left : is_nil spec.workers ≡ true = rw (f, e) refl in
        workerless-IsAgain spec none_left
    configured-IsAgain spec law (inr (w, k)) =
        subst (λ x. IsDecoded env (done x) → IsAgain x) (sym k.completed)
          (λ l.
            completed-IsAgain k.config k.pool k.networking l k.pooled
              (has_workers s.spec.workers w))
          law

    connect_again :
        (new_cluster_user_client_set env o s.shoot).0 ≡ ok tt
        → (b : Option CredentialsBinding)
        → (new_cluster_user_client_set env o (bind b s.shoot)).0 ≡ ok tt
    unfolding new_cluster_user_client_set
    connect_again h none = h
    connect_again h (some b) = h

    mutate-again :
        (spec spec' : ShootSpec)
        → (new_cluster_user_client_set env o s.shoot).0 ≡ ok tt
        → (configure env o (kept_shoot (done spec)).spec).0 ≡ ok spec'
        → (mutate env update o (kept_shoot (done spec))).0 ≡ ok (again spec spec')
    unfolding mutate issue_credentials finish
    mutate-again spec spec' c conf =
        let kept = kept_shoot (done spec) in
        let conn : (new_cluster_user_client_set env o kept.shoot).0 ≡ ok tt =
          connect_again c (elim (is_nil spec.workers) [ true ↦ none | false ↦ binding ]) in
        bind-value (new_cluster_user_client_set env o kept.shoot) _ tt conn
        ∙ bind-value (configure env o kept.spec) _ spec' conf

  -- A Shoot that `handle` admitted, for a user with an OpenStack identity, as the API server keeps
  -- it, is admitted by it again on each update of that user, and kept then as it was, as long as the
  -- other parts answer as before; if the decoder reads what the API server encoded of the
  -- infrastructure that was set, without its type.
  pub handle_idempotent :
      (env : Env) (s admitted : ShootObject) (request later : Request)
      → ((config : InfrastructureConfig)
          → admitted.spec.infrastructure_config ≡ some (object config)
          → env.decode (raw (encode config)) ≡ ok (record config { api_version = ""; kind = "" }))
      → is_responsible request ≡ true
      → has_open_stack_user_info request.extra ≡ true
      → (handle env (some s) (ok request)).0 ≡ ok admitted
      → later.operation ≡ update
      → later.extra ≡ request.extra
      → (again : ShootObject) × ((handle env (some (kept_shoot admitted)) (ok later)).0 ≡ ok again)
        × (kept_shoot again ≡ kept_shoot admitted)
  unfolding handle mutate_for
  handle_idempotent env s admitted request later law r i h u x =
      let (o, e, supported, injected) = handle-IsInjected env s admitted request r i h in
      let law' = subst (IsDecoded env) injected.finished law in
      let (spec', conf, unchanged) =
        configured-IsAgain env request.operation o injected.binding s injected.spec law'
          injected.configured in
      let mutated =
        mutate-again env request.operation o injected.binding s injected.spec spec'
          injected.connected conf in
      let result : ShootObject =
        finish env update o none
          (kept_shoot (finish env request.operation o injected.binding s.shoot injected.spec)).shoot
          spec' in
      let mutated' : (mutate env update o (kept_shoot admitted)).0 ≡ ok result =
        subst (λ d. (mutate env update o (kept_shoot d)).0 ≡ ok result) (sym injected.finished)
          mutated in
      let same : kept_shoot result ≡ kept_shoot admitted =
        unchanged ∙ ap kept_shoot (sym injected.finished) in
      elim (Bool-cases (is_responsible later && has_open_stack_user_info later.extra)) [
        | inr f ↦ (kept_shoot admitted, simp (f, handle) refl, kept_shoot_twice admitted)
        | inl f ↦
            let e' : open_stack_user_info_from_extra later.extra ≡ ok o =
              ap open_stack_user_info_from_extra x ∙ e in
            let again' =
              subst (λ p. (mutate env p o (kept_shoot admitted)).0 ≡ ok result) (sym u) mutated' in
            (result, simp (f, e', supported, again', handle, mutate_for) refl, same)
      ]
