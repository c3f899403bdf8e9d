-- ===== src/Mcp/Config/Laws.antt =====
-- What the MCP service's settings guarantee once they are loaded.
use agentic_identity_lab.Prelude.{
  ◌≡◌, refl, subst, ◌⊎◌, inl, inr, Bool, true, false, none, some, if◌then◌else◌,
}
use agentic_identity_lab.Result.{Result, ok, >>=-eq-ok, ok_injective}
use agentic_identity_lab.Auth.Settings.{is_strict, load_auth_mode, validate_strict_config}
use agentic_identity_lab.Auth.Settings.Laws.{IsStrictConfig, validate_strict_config_iff}
use agentic_identity_lab.Service.{Env, int_setting}
use agentic_identity_lab.Mcp.Config.{Settings, read_settings, check_strict, load_settings}

unless_off : {P : Type 0} (b : Bool) → (b ≡ true → P) → (b ≡ false) ⊎ P
unless_off true f = inr (f refl)
unless_off false f = inl refl

-- Settings with which the MCP service may run.
pub record IsLoaded (env : Env) (settings : Settings) : Type 0 where
  pub mode : settings.auth_mode ≡ load_auth_mode none env.environ
  pub strict_config :
      (is_strict settings.auth_mode ≡ false)
      ⊎ IsStrictConfig
          (some settings.auth_issuer)
          (some settings.auth_jwks_url)
          settings.allowed_audiences
          settings.required_scopes
          settings.trusted_tenants

-- The checks of strict mode.
abbrev strict_checks : Settings → Result (Unit {0})
strict_checks settings =
    validate_strict_config (some settings.auth_issuer) (some settings.auth_jwks_url)
      settings.allowed_audiences settings.required_scopes settings.trusted_tenants

check_strict_ok :
    (settings : Settings) (u : Unit {0})
    → is_strict settings.auth_mode ≡ true
    → check_strict settings ≡ ok u
    → strict_checks settings ≡ ok u
check_strict_ok settings u on h = by_mode (is_strict settings.auth_mode) on h
  where
    by_mode :
        (b : Bool)
        → b ≡ true
        → ◌≡◌ {A = Result (Unit {0})} (if b then strict_checks settings else ok tt) (ok u)
        → strict_checks settings ≡ ok u
    by_mode true same e = e
    by_mode false same e = cc

-- Settings load only if, in strict mode, the issuer, the JWKS address, the audiences, the scopes and
-- the tenants are configured with real values.
pub mcp_settings-IsLoaded :
    (env : Env) (settings : Settings) → load_settings env ≡ ok settings → IsLoaded env settings
unfolding load_settings read_settings
mcp_settings-IsLoaded env settings h =
    let (port, ported, h₁) = >>=-eq-ok (int_setting env.host env.environ "PORT" "8000") _ h in
    let (u, checked, h₂) = >>=-eq-ok (check_strict (read_settings env port)) _ h₁ in
    subst (IsLoaded env) (ok_injective h₂) (record {
      mode = refl;
      strict_config = unless_off _ (λ on.
          (validate_strict_config_iff _ _ _ _ _).0
            (check_strict_ok (read_settings env port) u on checked));
    })
