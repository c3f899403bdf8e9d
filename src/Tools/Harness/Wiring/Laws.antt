-- ===== src/Tools/Harness/Wiring/Laws.antt =====
-- What the static check of the wiring holds the repository to.
use agentic_identity_lab.Prelude.{
  ◌≡◌, refl, ◌↔◌, inl, inr, String, Bool, true, false, not, ◌&&◌, List, [], ◌∷◌, arith, All, is_nil,
  is_none, is_in, keep, lower, Bool-cases, ◌<+>◌,
}
use agentic_identity_lab.Tools.Shell.{concat, offender_if}
use agentic_identity_lab.Tools.Shell.Laws.{
  ◌&◌, concat_nil, map_nil, keep_nil, All-map, offender_if_iff,
}
use agentic_identity_lab.Tools.Harness.Wiring.{
  Files, require_tokens, forbid_tokens, spa_client, spa_auth, spa_readme, classic_loader,
  classic_config, classic_readme, spfx_webpart, spfx_solution, spfx_readme, bff_main, bff_readme,
  required_files, read_text, spa_tokens, spa_auth_tokens, spa_forbidden, classic_tokens,
  classic_config_tokens, classic_forbidden, spfx_tokens, spfx_solution_tokens, spfx_forbidden,
  bff_tokens, readme_offender, wiring_offenders, missing_files, validate_browser_smoke_wiring,
}

abbrev pub HasTokens : (source : String) → List String → Type 0
HasTokens source tokens = All (λ token. is_in token source ≡ true) tokens

abbrev pub LacksTokens : (source : String) → List String → Type 0
LacksTokens source tokens = All (λ token. is_in token source ≡ false) tokens

require_tokens_iff :
    (files : Files) (path : String) (tokens : List String)
    → (require_tokens (read_text files path) path tokens ≡ [])
      ↔ HasTokens (read_text files path) tokens
unfolding require_tokens
require_tokens_iff files path tokens =
    let (a, b) =
      map_nil (λ token. path <+> ": missing token '" <+> token <+> "'")
        (keep (λ token. not (is_in token (read_text files path))) tokens) in
    let (c, d) = keep_nil (λ token. not (is_in token (read_text files path))) tokens in
    (
      λ h. All-map tokens (λ t p. ground arith) (c (a h)),
      λ h. b (d (All-map tokens (λ t p. ground arith) h)),
    )

forbid_tokens_iff :
    (files : Files) (path : String) (tokens : List String)
    → (forbid_tokens (read_text files path) path tokens ≡ [])
      ↔ LacksTokens (read_text files path) tokens
unfolding forbid_tokens
forbid_tokens_iff files path tokens =
    let (a, b) =
      map_nil (λ token. path <+> ": forbidden token '" <+> token <+> "' detected")
        (keep (λ token. is_in token (read_text files path)) tokens) in
    let (c, d) = keep_nil (λ token. is_in token (read_text files path)) tokens in
    (λ h. c (a h), λ h. b (d h))

abbrev pub IsExplained : Files → (path : String) → Type 0
IsExplained files path = is_in "m9 protected live smoke setup" (lower (read_text files path)) ≡ true

-- The clients and the BFF as the check wants them.
pub record IsWired (files : Files) (root : String) : Type 0 where
  pub present : All (λ path. is_none (files path) ≡ false) (required_files root)
  pub spa_sends_token : HasTokens (read_text files (spa_client root)) spa_tokens
  pub spa_keeps_session : HasTokens (read_text files (spa_auth root)) spa_auth_tokens
  pub spa_stores_nothing :
      LacksTokens (read_text files (spa_auth root)) ("cacheLocation: 'localStorage'" ∷ [])
  pub spa_claims_no_user : LacksTokens (read_text files (spa_client root)) spa_forbidden
  pub classic_sends_token : HasTokens (read_text files (classic_loader root)) classic_tokens
  pub classic_configured : HasTokens (read_text files (classic_config root)) classic_config_tokens
  pub classic_stores_nothing : LacksTokens (read_text files (classic_loader root)) classic_forbidden
  pub spfx_sends_token : HasTokens (read_text files (spfx_webpart root)) spfx_tokens
  pub spfx_requests_scope : HasTokens (read_text files (spfx_solution root)) spfx_solution_tokens
  pub spfx_stores_nothing : LacksTokens (read_text files (spfx_webpart root)) spfx_forbidden
  pub bff_has_routes : HasTokens (read_text files (bff_main root)) bff_tokens
  pub bff_tells_safe_claims :
      is_in "returns safe claim metadata only" (lower (read_text files (bff_readme root))) ≡ true
  pub spa_logs_no_token :
      is_in "console.log(input.accesstoken)" (lower (read_text files (spa_client root))) ≡ false
  pub bff_allows_header :
      (is_in "authorization" (lower (read_text files (bff_main root)))
        && not (is_in "allow_headers" (read_text files (bff_main root))))
      ≡ false
  pub spa_explained : IsExplained files (spa_readme root)
  pub classic_explained : IsExplained files (classic_readme root)
  pub spfx_explained : IsExplained files (spfx_readme root)

unless_offender : (b : Bool) (s : String) → (offender_if (not b) s ≡ []) ↔ (b ≡ true)
unless_offender true s = (λ h. refl, λ h. refl)
unless_offender false s = (λ h. absurd cc, λ h. absurd cc)

readme_offender_iff :
    (files : Files) (path : String) → (readme_offender files path ≡ []) ↔ IsExplained files path
readme_offender_iff files path =
    unless_offender (is_in "m9 protected live smoke setup" (lower (read_text files path)))
      (path <+> ": missing 'M9 protected live smoke setup' section")

-- The check passes exactly if every file is there and each text has the tokens that it is to have and
-- none of those that it is not to have.
pub validate_browser_smoke_wiring_iff :
    (files : Files) (root : String)
    → (validate_browser_smoke_wiring files root ≡ []) ↔ IsWired files root
unfolding validate_browser_smoke_wiring missing_files wiring_offenders
validate_browser_smoke_wiring_iff files root = (
  λ h. elim (Bool-cases (is_nil (missing_files files root))) [
    | inr lacking ↦
        absurd (ground (arith, (map_nil _ (missing_files files root)).0 (rw lacking at h)))
    | inl all_there ↦ checked all_there (rw all_there at h)
  ],
  λ w.
      let none = (keep_nil (λ path. is_none (files path)) (required_files root)).1 w.present in
      rw none (
        (concat_nil (wiring_offenders files root)).1 (
          (require_tokens_iff files (spa_client root) spa_tokens).1 w.spa_sends_token
          & (require_tokens_iff files (spa_auth root) spa_auth_tokens).1 w.spa_keeps_session
          & (forbid_tokens_iff files (spa_auth root) ("cacheLocation: 'localStorage'" ∷ [])).1
              w.spa_stores_nothing
          & (forbid_tokens_iff files (spa_client root) spa_forbidden).1 w.spa_claims_no_user
          & (require_tokens_iff files (classic_loader root) classic_tokens).1 w.classic_sends_token
          & (require_tokens_iff files (classic_config root) classic_config_tokens).1
              w.classic_configured
          & (forbid_tokens_iff files (classic_loader root) classic_forbidden).1
              w.classic_stores_nothing
          & (require_tokens_iff files (spfx_webpart root) spfx_tokens).1 w.spfx_sends_token
          & (require_tokens_iff files (spfx_solution root) spfx_solution_tokens).1
              w.spfx_requests_scope
          & (forbid_tokens_iff files (spfx_webpart root) spfx_forbidden).1 w.spfx_stores_nothing
          & (require_tokens_iff files (bff_main root) bff_tokens).1 w.bff_has_routes
          & (unless_offender
                (is_in "returns safe claim metadata only"
                  (lower (read_text files (bff_readme root))))
                (bff_readme root <+> ": missing safe claim metadata statement")).1
              w.bff_tells_safe_claims
          & (offender_if_iff
                (is_in "console.log(input.accesstoken)" (lower (read_text files (spa_client root))))
                (spa_client root <+> ": token logging pattern detected")).1
              w.spa_logs_no_token
          & (offender_if_iff
                (is_in "authorization" (lower (read_text files (bff_main root)))
                  && not (is_in "allow_headers" (read_text files (bff_main root))))
                (bff_main root <+> ": unexpected authorization handling pattern")).1
              w.bff_allows_header
          & (readme_offender_iff files (spa_readme root)).1 w.spa_explained
          & (readme_offender_iff files (classic_readme root)).1 w.classic_explained
          & (readme_offender_iff files (spfx_readme root)).1 w.spfx_explained
          & tt)),
)
  where
    checked :
        is_nil (missing_files files root) ≡ true
        → concat (wiring_offenders files root) ≡ []
        → IsWired files root
    checked all_there h =
        let (a, h₁) = (concat_nil (wiring_offenders files root)).0 h in
        let (b, h₂) = h₁ in
        let (c, h₃) = h₂ in
        let (d, h₄) = h₃ in
        let (e, h₅) = h₄ in
        let (f, h₆) = h₅ in
        let (g, h₇) = h₆ in
        let (i, h₈) = h₇ in
        let (j, h₉) = h₈ in
        let (k, h₁₀) = h₉ in
        let (l, h₁₁) = h₁₀ in
        let (m, h₁₂) = h₁₁ in
        let (n, h₁₃) = h₁₂ in
        let (o, h₁₄) = h₁₃ in
        let (p, h₁₅) = h₁₄ in
        let (q, h₁₆) = h₁₅ in
        let (r, h₁₇) = h₁₆ in
        record {
          present =
              (keep_nil (λ path. is_none (files path)) (required_files root)).0 (ground arith);
          spa_sends_token = (require_tokens_iff files (spa_client root) spa_tokens).0 a;
          spa_keeps_session = (require_tokens_iff files (spa_auth root) spa_auth_tokens).0 b;
          spa_stores_nothing =
              (forbid_tokens_iff files (spa_auth root) ("cacheLocation: 'localStorage'" ∷ [])).0 c;
          spa_claims_no_user = (forbid_tokens_iff files (spa_client root) spa_forbidden).0 d;
          classic_sends_token = (require_tokens_iff files (classic_loader root) classic_tokens).0 e;
          classic_configured =
              (require_tokens_iff files (classic_config root) classic_config_tokens).0 f;
          classic_stores_nothing =
              (forbid_tokens_iff files (classic_loader root) classic_forbidden).0 g;
          spfx_sends_token = (require_tokens_iff files (spfx_webpart root) spfx_tokens).0 i;
          spfx_requests_scope =
              (require_tokens_iff files (spfx_solution root) spfx_solution_tokens).0 j;
          spfx_stores_nothing = (forbid_tokens_iff files (spfx_webpart root) spfx_forbidden).0 k;
          bff_has_routes = (require_tokens_iff files (bff_main root) bff_tokens).0 l;
          bff_tells_safe_claims =
              (unless_offender
                  (is_in "returns safe claim metadata only"
                    (lower (read_text files (bff_readme root))))
                  (bff_readme root <+> ": missing safe claim metadata statement")).0
                m;
          spa_logs_no_token =
              (offender_if_iff
                  (is_in "console.log(input.accesstoken)"
                    (lower (read_text files (spa_client root))))
                  (spa_client root <+> ": token logging pattern detected")).0
                n;
          bff_allows_header =
              (offender_if_iff
                  (is_in "authorization" (lower (read_text files (bff_main root)))
                    && not (is_in "allow_headers" (read_text files (bff_main root))))
                  (bff_main root <+> ": unexpected authorization handling pattern")).0
                o;
          spa_explained = (readme_offender_iff files (spa_readme root)).0 p;
          classic_explained = (readme_offender_iff files (classic_readme root)).0 q;
          spfx_explained = (readme_offender_iff files (spfx_readme root)).0 r;
        }
