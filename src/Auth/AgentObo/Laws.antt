-- ===== src/Auth/AgentObo/Laws.antt =====
-- What the offline client accepts, and what its answers hold.
use agentic_identity_lab.Prelude.{
  ℕ, ◌≡◌, refl, sym, ap, ◌∙◌, ◌↔◌, String, Bool, true, false, not, none, some, List, arith, eq_iff,
  contains, if◌then◌else◌, ℤ, pos, ltb_ℤ, ◌<ℤ◌,
}
use Prim.Native.Nat.{◌/◌}
use agentic_identity_lab.Auth.Claims.{is_null}
use agentic_identity_lab.Auth.Guards.{micro}
use agentic_identity_lab.Result.{ok, ◌>>=◌, >>=-eq-ok, ok_injective}
use agentic_identity_lab.Value.{Value, null, str, Dict, get, truthy, lookup}
use agentic_identity_lab.Host.{Host}
use agentic_identity_lab.Auth.Claims.{sanitize_claims}
use agentic_identity_lab.Auth.Claims.Keys.{lookup-sanitize_claims_unlisted}
use agentic_identity_lab.Auth.AgentObo.{
  MockAgentSidecarClient, AgentSidecarClient, equals, is_trusted, is_expired, refuse_unless,
  int_of_value, check_scp, mock_validate, mock_downstream_api, mock_client,
}

equals_sound : (v : Value) (s : String) → equals v s ≡ true → v ≡ str s
equals_sound (str t) s h = ap str ((eq_iff t s).0 h)
equals_sound v s h = cc

is_trusted_sound :
    (v : Value) (trusted : List String)
    → is_trusted v trusted ≡ ok true
    → (s : String) × (v ≡ str s) × (contains s trusted ≡ true)
unfolding is_trusted
is_trusted_sound (str s) trusted h = (s, refl, ok_injective h)
is_trusted_sound v trusted h = cc

refuse_unless_ok :
    (passed : Bool) (message : String) (u : Unit {0})
    → refuse_unless passed message ≡ ok u
    → passed ≡ true
refuse_unless_ok true message u h = refl
refuse_unless_ok false message u h = cc

check_scp_ok :
    (host : Host) (claims answer : Dict)
    → check_scp host claims ≡ ok answer
    → (truthy (get "scp" claims) ≡ true) × (answer ≡ sanitize_claims host (some claims))
check_scp_ok host claims answer h = ground arith

-- exp is a whole number of seconds, and that second is not before the present one.
pub record IsAlive (host : Host) (now : ℕ) (exp : Value) : Type 0 where
  pub seconds : ℤ
  pub read : int_of_value host exp ≡ ok seconds
  pub not_before : ¬ (seconds <ℤ pos (now / micro))

-- A token that the offline client accepts: issued for the blueprint, by a trusted tenant, alive,
-- delegated.
pub record IsBlueprintToken (host : Host) (now : ℕ) (client : MockAgentSidecarClient) : Type 0 where
  pub audience : get "aud" client.fixture_claims ≡ str client.config.blueprint_audience
  pub tid : String
  pub tenant : get "tid" client.fixture_claims ≡ str tid
  pub trusted : contains tid client.trusted_tenants ≡ true
  pub alive : IsAlive host now (get "exp" client.fixture_claims)
  pub scoped : truthy (get "scp" client.fixture_claims) ≡ true

is_expired_sound :
    (host : Host) (now : ℕ) (exp : Value)
    → is_expired host now exp ≡ ok false
    → IsAlive host now exp
unfolding is_expired
is_expired_sound host now exp h = by_null (is_null exp) h
  where
    by_null :
        (b : Bool)
        → (if b
            then ok true
            else (do seconds ← int_of_value host exp; ok (ltb_ℤ seconds (pos (now / micro)))))
          ≡ ok false
        → IsAlive host now exp
    by_null true e = absurd cc
    by_null false e =
        let (seconds, read, e₁) = >>=-eq-ok (int_of_value host exp) _ e in
        let reached = ok_injective e₁ in
        record { seconds = seconds; read = read; not_before = λ before. ground arith }

read_given :
    (host : Host) (exp : Value) (seconds : ℤ)
    → int_of_value host exp ≡ ok seconds
    → is_null exp ≡ false
unfolding int_of_value
read_given host null seconds h = absurd cc
read_given host exp seconds h = refl

is_expired_complete :
    (host : Host) (now : ℕ) (exp : Value)
    → IsAlive host now exp
    → is_expired host now exp ≡ ok false
unfolding is_expired
is_expired_complete host now exp a =
    let reached : ltb_ℤ a.seconds (pos (now / micro)) ≡ false = ground (arith, a.not_before) in
    rw (read_given host exp a.seconds a.read, a.read) (ap ok reached)

not-eq-true : (b : Bool) → not b ≡ true → b ≡ false
not-eq-true true h = cc
not-eq-true false h = refl

module _ (host : Host) (now : ℕ) (client : MockAgentSidecarClient) where
  mock_validate_sound :
      (bearer_token : String) (answer : Dict)
      → mock_validate host now client bearer_token ≡ ok answer
      → IsBlueprintToken host now client
        × (answer ≡ sanitize_claims host (some client.fixture_claims))
  unfolding mock_validate
  mock_validate_sound bearer_token answer h =
      let (u, own, h₁) = >>=-eq-ok _ _ h in
      let (t, read_tid, h₂) = >>=-eq-ok _ _ h₁ in
      let (v, known, h₃) = >>=-eq-ok _ _ h₂ in
      let (e, read_exp, h₄) = >>=-eq-ok _ _ h₃ in
      let (w, live, h₅) = >>=-eq-ok _ _ h₄ in
      let (scp, same) = check_scp_ok host client.fixture_claims answer h₅ in
      let (tid, tenant, trusted) =
        is_trusted_sound _ _ (read_tid ∙ ap ok (refuse_unless_ok t _ v known)) in
      (
        record {
          audience = equals_sound _ _ (refuse_unless_ok _ _ u own);
          tid = tid;
          tenant = tenant;
          trusted = trusted;
          alive =
              is_expired_sound host now _
                (read_exp ∙ ap ok (not-eq-true e (refuse_unless_ok _ _ w live)));
          scoped = scp;
        },
        same,
      )

  mock_validate_complete :
      (bearer_token : String)
      → IsBlueprintToken host now client
      → mock_validate host now client bearer_token
        ≡ ok (sanitize_claims host (some client.fixture_claims))
  unfolding mock_validate is_trusted
  mock_validate_complete bearer_token b = rw (
    b.audience,
    (eq_iff client.config.blueprint_audience _).1 refl,
    b.tenant,
    b.trusted,
    is_expired_complete host now _ b.alive,
    b.scoped,
  )

  -- Whatever the bearer text, the offline client accepts exactly if its fixture claims are issued for
  -- the blueprint, by a trusted tenant, with an `exp` that is not past and a scope, and it answers with
  -- these claims sanitized. Their `nbf` does not matter.
  pub mock_validate_iff :
      (bearer_token : String) (answer : Dict)
      → (mock_validate host now client bearer_token ≡ ok answer) ↔ (
          IsBlueprintToken host now client
          × (answer ≡ sanitize_claims host (some client.fixture_claims)))
  mock_validate_iff bearer_token answer = (
    mock_validate_sound bearer_token answer,
    λ (b, same). mock_validate_complete bearer_token b ∙ ap ok (sym same),
  )

mock_downstream_ok :
    (host : Host) (now : ℕ) (client : MockAgentSidecarClient) (api_name user_assertion : String)
    (scopes : List String) (answer : Dict)
    → mock_downstream_api host now client api_name user_assertion scopes ≡ ok answer
    → answer ≡ sanitize_claims host (some client.obo_fixture_claims)
unfolding mock_downstream_api
mock_downstream_ok host now client api_name user_assertion scopes answer h = ground arith

-- The contract of the boundary: no answer has a key outside the allowlist.
pub record IsSanitizing (host : Host) (client : AgentSidecarClient) : Type 0 where
  pub validate_clean :
      (k bearer_token : String) (answer : Dict)
      → contains k host.safe_claim_keys ≡ false
      → client.validate bearer_token ≡ ok answer
      → lookup k answer ≡ none
  pub downstream_clean :
      (k api_name user_assertion : String) (scopes : List String) (answer : Dict)
      → contains k host.safe_claim_keys ≡ false
      → client.downstream_api api_name user_assertion scopes ≡ ok answer
      → lookup k answer ≡ none

-- The offline client keeps the contract: neither answer has a claim outside the allowlist.
pub mock_client-IsSanitizing :
    (host : Host) (now : ℕ) (client : MockAgentSidecarClient)
    → IsSanitizing host (mock_client host now client)
unfolding mock_client
mock_client-IsSanitizing host now client = record {
  validate_clean = λ k bearer_token answer unlisted h.
      let (b, same) = mock_validate_sound host now client bearer_token answer h in
      rw same (lookup-sanitize_claims_unlisted host k client.fixture_claims unlisted);
  downstream_clean = λ k api_name user_assertion scopes answer unlisted h.
      let same = mock_downstream_ok host now client api_name user_assertion scopes answer h in
      rw same (lookup-sanitize_claims_unlisted host k client.obo_fixture_claims unlisted);
}
