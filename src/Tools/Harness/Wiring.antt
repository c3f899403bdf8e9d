-- ===== src/Tools/Harness/Wiring.antt =====
-- m8_browser_smoke_harness.py: the static check of the browser clients and the BFF, over their files'
-- texts. The file system is a parameter: a path's text, or `none` where there is no file.
pub mod Laws
use agentic_identity_lab.Prelude.{
  String, Bool, true, false, not, ◌&&◌, ◌||◌, Option, none, some, List, [], ◌∷◌, ◌++◌, is_nil,
  is_none, is_in, keep, map, lower, or_default, ◌<+>◌, if◌then◌else◌,
}
use agentic_identity_lab.Tools.Shell.{concat, offender_if}

abbrev pub Files : Type 0
Files = String → Option String

unfoldable pub require_tokens : (source path : String) → List String → List String
unfolding keep is_in
require_tokens source path tokens =
    map (λ token. path <+> ": missing token '" <+> token <+> "'")
      (keep (λ token. not (is_in token source)) tokens)

unfoldable pub forbid_tokens : (source path : String) → List String → List String
unfolding keep is_in
forbid_tokens source path tokens =
    map (λ token. path <+> ": forbidden token '" <+> token <+> "' detected")
      (keep (λ token. is_in token source) tokens)

abbrev spa : String → String
spa repo_root = repo_root <+> "/apps/spa-public-client/react-vite/"

abbrev classic : String → String
classic repo_root = repo_root <+> "/apps/sharepoint-classic/chat-loader-js/"

abbrev spfx : String → String
spfx repo_root = repo_root <+> "/apps/spfx-webpart/identity-chat-webpart/"

abbrev bff : String → String
bff repo_root = repo_root <+> "/apps/bff/python-fastapi/"

abbrev pub spa_client : String → String
spa_client repo_root = spa repo_root <+> "src/bffClient.ts"

abbrev pub spa_auth : String → String
spa_auth repo_root = spa repo_root <+> "src/authConfig.ts"

abbrev pub spa_readme : String → String
spa_readme repo_root = spa repo_root <+> "README.md"

abbrev pub classic_loader : String → String
classic_loader repo_root = classic repo_root <+> "chat-loader.js"

abbrev pub classic_config : String → String
classic_config repo_root = classic repo_root <+> "config.example.json"

abbrev pub classic_readme : String → String
classic_readme repo_root = classic repo_root <+> "README.md"

abbrev pub spfx_webpart : String → String
spfx_webpart repo_root = spfx repo_root <+> "src/webparts/identityChat/IdentityChatWebPart.ts"

abbrev pub spfx_solution : String → String
spfx_solution repo_root = spfx repo_root <+> "config/package-solution.json"

abbrev pub spfx_readme : String → String
spfx_readme repo_root = spfx repo_root <+> "README.md"

abbrev pub bff_main : String → String
bff_main repo_root = bff repo_root <+> "app/main.py"

abbrev pub bff_readme : String → String
bff_readme repo_root = bff repo_root <+> "README.md"

abbrev pub required_files : (repo_root : String) → List String
required_files root =
    spa_client root
    ∷ spa_auth root
    ∷ spa_readme root
    ∷ classic_loader root
    ∷ classic_config root
    ∷ classic_readme root
    ∷ spfx_webpart root
    ∷ spfx_solution root
    ∷ spfx_readme root
    ∷ bff_main root
    ∷ bff_readme root
    ∷ []

abbrev pub read_text : Files → String → String
read_text files path = or_default (files path) ""

abbrev pub spa_tokens : List String
spa_tokens =
    "VITE_BFF_BASE_URL" ∷ "Authorization: `Bearer ${input.accessToken}`"
    ∷ "traceparent: createTraceparent()" ∷ "/chat/session" ∷ "display_name" ∷ []

abbrev pub spa_auth_tokens : List String
spa_auth_tokens =
    "cacheLocation: 'sessionStorage'" ∷ "VITE_BFF_API_SCOPE" ∷ "PublicClientApplication" ∷ []

abbrev pub spa_forbidden : List String
spa_forbidden = "\"userId\"" ∷ "userId:" ∷ "console.log(input.accessToken)" ∷ []

abbrev pub classic_tokens : List String
classic_tokens =
    "Authorization: `Bearer ${config.accessToken}`" ∷ "traceparent: config.traceparent"
    ∷ "display_name" ∷ "bffBaseUrl is required." ∷ "bffResourceUri is required." ∷ []

abbrev pub classic_config_tokens : List String
classic_config_tokens = "\"bffBaseUrl\"" ∷ "\"bffResourceUri\"" ∷ []

abbrev pub classic_forbidden : List String
classic_forbidden = "userId" ∷ "localStorage.setItem" ∷ "sessionStorage.setItem" ∷ "indexedDB" ∷ []

abbrev pub spfx_tokens : List String
spfx_tokens =
    "AadHttpClient" ∷ ".aadHttpClientFactory.getClient(" ∷ "/chat/session" ∷ "display_name"
    ∷ "traceparent" ∷ []

abbrev pub spfx_solution_tokens : List String
spfx_solution_tokens = "\"resource\": \"api://{client-id}\"" ∷ "\"scope\": \"access_as_user\"" ∷ []

abbrev pub spfx_forbidden : List String
spfx_forbidden =
    "AadTokenProvider" ∷ "SPHttpClient" ∷ "userId" ∷ "localStorage.setItem"
    ∷ "sessionStorage.setItem" ∷ []

abbrev pub bff_tokens : List String
bff_tokens =
    "@app.get(\"/whoami\")" ∷ "@app.get(\"/debug/claims\")" ∷ "@app.post(\"/chat/session\")" ∷ []

abbrev pub readme_offender : Files → String → List String
readme_offender files path =
    offender_if (not (is_in "m9 protected live smoke setup" (lower (read_text files path))))
      (path <+> ": missing 'M9 protected live smoke setup' section")

-- The offenders of the files' texts, check by check.
unfoldable pub wiring_offenders : Files → (repo_root : String) → List (List String)
unfolding require_tokens forbid_tokens is_in lower
wiring_offenders files root =
    let spa_text = read_text files (spa_client root) in
    let bff_text = read_text files (bff_main root) in
    require_tokens spa_text (spa_client root) spa_tokens
    ∷ require_tokens (read_text files (spa_auth root)) (spa_auth root) spa_auth_tokens
    ∷ forbid_tokens (read_text files (spa_auth root)) (spa_auth root)
        ("cacheLocation: 'localStorage'" ∷ [])
    ∷ forbid_tokens spa_text (spa_client root) spa_forbidden
    ∷ require_tokens (read_text files (classic_loader root)) (classic_loader root) classic_tokens
    ∷ require_tokens (read_text files (classic_config root)) (classic_config root)
        classic_config_tokens
    ∷ forbid_tokens (read_text files (classic_loader root)) (classic_loader root) classic_forbidden
    ∷ require_tokens (read_text files (spfx_webpart root)) (spfx_webpart root) spfx_tokens
    ∷ require_tokens (read_text files (spfx_solution root)) (spfx_solution root)
        spfx_solution_tokens
    ∷ forbid_tokens (read_text files (spfx_webpart root)) (spfx_webpart root) spfx_forbidden
    ∷ require_tokens bff_text (bff_main root) bff_tokens
    ∷ offender_if
        (not (is_in "returns safe claim metadata only" (lower (read_text files (bff_readme root)))))
        (bff_readme root <+> ": missing safe claim metadata statement")
    ∷ offender_if (is_in "console.log(input.accesstoken)" (lower spa_text))
        (spa_client root <+> ": token logging pattern detected")
    ∷ offender_if (is_in "authorization" (lower bff_text) && not (is_in "allow_headers" bff_text))
        (bff_main root <+> ": unexpected authorization handling pattern")
    ∷ readme_offender files (spa_readme root)
    ∷ readme_offender files (classic_readme root)
    ∷ readme_offender files (spfx_readme root)
    ∷ []

unfoldable pub missing_files : Files → (repo_root : String) → List String
unfolding keep
missing_files files root = keep (λ path. is_none (files path)) (required_files root)

unfoldable pub validate_browser_smoke_wiring : Files → (repo_root : String) → List String
unfolding missing_files wiring_offenders
validate_browser_smoke_wiring files root =
    let missing = missing_files files root in
    if is_nil missing
    then concat (wiring_offenders files root)
    else map (λ path. "missing required wiring file: " <+> path) missing
