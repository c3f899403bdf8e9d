-- ===== src/Bff/Config/Laws.antt =====
-- What the BFF's settings guarantee once they are loaded.
use agentic_identity_lab.Prelude.{
  ◌≡◌, refl, subst, ◌⊎◌, inl, inr, Bool, true, false, none, some, [], arith, is_blank,
  if◌then◌else◌,
}
use agentic_identity_lab.Result.{Result, ok, ◌>>=◌, >>=-eq-ok, ok_injective}
use agentic_identity_lab.Auth.Settings.{is_strict, load_auth_mode, validate_strict_config}
use agentic_identity_lab.Auth.Settings.Laws.{IsStrictConfig, validate_strict_config_iff}
use agentic_identity_lab.Auth.Obo.{missing_obo_fields, validate_entra_obo_config}
use agentic_identity_lab.Auth.Obo.Laws.{configured_ok}
use agentic_identity_lab.Service.{Env, int_setting, float_setting}
use agentic_identity_lab.Bff.Config.{
  Settings, read_settings, check_chain, check_obo, check_strict, load_settings, obo_config,
}

check_chain_ok :
    (settings : Settings) (u : Unit {0})
    → check_chain settings ≡ ok u
    → settings.chat_session_chain_enabled ≡ true
    → is_blank settings.agent_execution_base_url ≡ false
check_chain_ok settings u h on = ground arith

check_obo_ok :
    (settings : Settings) (u : Unit {0})
    → check_obo settings ≡ ok u
    → settings.chat_session_chain_enabled ≡ true
    → missing_obo_fields (obo_config settings) ≡ []
check_obo_ok settings u h on =
    configured_ok (obo_config settings) "Strict BFF to Agent chain" u
      (by_switch settings.chat_session_chain_enabled on h)
  where
    by_switch :
        (b : Bool)
        → b ≡ true
        → ◌≡◌ {A = Result (Unit {0})}
            (if b
              then validate_entra_obo_config (obo_config settings) "Strict BFF to Agent chain"
              else ok tt)
            (ok u)
        → validate_entra_obo_config (obo_config settings) "Strict BFF to Agent chain" ≡ ok u
    by_switch true same e = e
    by_switch false same e = cc

unless_off : {P : Type 0} (b : Bool) → (b ≡ true → P) → (b ≡ false) ⊎ P
unless_off true f = inr (f refl)
unless_off false f = inl refl

-- Settings with which the BFF may run.
pub record IsLoaded (env : Env) (settings : Settings) : Type 0 where
  pub mode : settings.auth_mode ≡ load_auth_mode none env.environ
  pub strict_config :
      (is_strict settings.auth_mode ≡ false)
      ⊎ IsStrictConfig
          (some settings.auth_issuer)
          (some settings.auth_jwks_url)
          settings.allowed_audiences
          settings.required_scopes
          settings.trusted_tenants
  pub chain_url :
      (settings.chat_session_chain_enabled ≡ false)
      ⊎ (is_blank settings.agent_execution_base_url ≡ false)
  pub chain_obo :
      (is_strict settings.auth_mode ≡ false)
      ⊎ (settings.chat_session_chain_enabled ≡ false)
      ⊎ (missing_obo_fields (obo_config settings) ≡ [])

-- The checks of strict mode.
abbrev strict_checks : Settings → Result (Unit {0})
strict_checks settings = (do
  real ←
      validate_strict_config (some settings.auth_issuer) (some settings.auth_jwks_url)
        settings.allowed_audiences settings.required_scopes settings.trusted_tenants
  check_obo settings)

check_strict_ok :
    (settings : Settings) (u : Unit {0})
    → is_strict settings.auth_mode ≡ true
    → check_strict settings ≡ ok u
    → strict_checks settings ≡ ok u
check_strict_ok settings u on h = by_mode (is_strict settings.auth_mode) on h
  where
    by_mode :
        (b : Bool)
        → b ≡ true
        → ◌≡◌ {A = Result (Unit {0})} (if b then strict_checks settings else ok tt) (ok u)
        → strict_checks settings ≡ ok u
    by_mode true same e = e
    by_mode false same e = cc

strict_checks_ok :
    (settings : Settings) (u : Unit {0})
    → strict_checks settings ≡ ok u
    → IsStrictConfig
        (some settings.auth_issuer)
        (some settings.auth_jwks_url)
        settings.allowed_audiences
        settings.required_scopes
        settings.trusted_tenants
      × (settings.chat_session_chain_enabled ≡ true → missing_obo_fields (obo_config settings) ≡ [])
strict_checks_ok settings u h =
    let (a, real, r) = >>=-eq-ok _ _ h in
    ((validate_strict_config_iff _ _ _ _ _).0 real, λ enabled. check_obo_ok settings u r enabled)

-- Settings load only if the enabled chain has an address, and in strict mode only with a real
-- configuration and, for the enabled chain, a complete one of the exchange.
pub bff_settings-IsLoaded :
    (env : Env) (settings : Settings) → load_settings env ≡ ok settings → IsLoaded env settings
unfolding load_settings read_settings
bff_settings-IsLoaded env settings h =
    let (port, ported, h₁) = >>=-eq-ok (int_setting env.host env.environ "PORT" "8000") _ h in
    let (timeout, timed, h₂) =
      >>=-eq-ok (float_setting env.host env.environ "DOWNSTREAM_TIMEOUT_SECONDS" "10") _ h₁ in
    let read = read_settings env port timeout in
    let (u, chained, h₃) = >>=-eq-ok (check_chain read) _ h₂ in
    let (v, checked, h₄) = >>=-eq-ok (check_strict read) _ h₃ in
    subst (IsLoaded env) (ok_injective h₄) (record {
      mode = refl;
      strict_config =
          unless_off _ (λ on. (strict_checks_ok read v (check_strict_ok read v on checked)).0);
      chain_url = unless_off _ (λ on. check_chain_ok read u chained on);
      chain_obo = unless_off _ (λ on.
          unless_off _
            (λ enabled. (strict_checks_ok read v (check_strict_ok read v on checked)).1 enabled));
    })
