-- ===== src/Tests/PublicSafe.antt =====
-- The policies of the workflows at concrete files.
use agentic_identity_lab.Prelude.{
  ◌≡◌, refl, String, ◌==◌, none, some, [], ◌∷◌, is_in, strip, is_space, ◌&&◌, if◌then◌else◌,
}
use agentic_identity_lab.Tools.Harness.Wiring.{Files}
use agentic_identity_lab.Tools.PublicSafe.{
  Regex, is_upload, indent, is_named, starts_step, ends_block, block_lines, blocks_from,
}
use agentic_identity_lab.Tests.Unary

-- Finds uploads, and nothing else.
abbrev regex : Regex
regex = record {
  search = λ pattern text.
      pattern == "uses:\\s*actions/upload-artifact@" && is_in "uses: actions/upload-artifact@" text;
  first_group = λ pattern text. none;
  find_all = λ pattern text. [];
}

abbrev upload : String
upload = "      - uses: actions/upload-artifact@v4"

-- An upload that is not named belongs to the block of the upload before it.
two_uploads :
    blocks_from regex none (upload ∷ upload ∷ "          retention-days: 1" ∷ [])
    ≡ (upload ∷ upload ∷ "          retention-days: 1" ∷ []) ∷ []
unfolding blocks_from block_lines ends_block starts_step is_upload indent is_space strip is_in
    is_named
two_uploads = refl

abbrev deploy_text : String
deploy_text =
    "environment: lab-live-azure-deploy id-token: write azure/login@v2 secrets.AZURE_CLIENT_ID_DEPLOY ./.github/workflows/m8-smoke-trace.yml m9_live_preflight.py"

abbrev lifecycle_text : String
lifecycle_text =
    "environment: lab-live-azure-ops id-token: write azure/login@v2 secrets.AZURE_CLIENT_ID_SHUTDOWN lab-live-azure-deploy lab-live-azure-smoke m9_live_preflight.py"

abbrev smoke_text : String
smoke_text =
    "secrets.AZURE_CLIENT_ID_SMOKE LIVE_SMOKE_SCOPES: ${{ secrets.LIVE_SMOKE_SCOPES }} live_azure_tests workflow_call m8_browser_smoke_harness.py validate_m8_kql_contract.py m8_smoke_trace_contract.py evaluate m9_live_preflight.py\n    - uses: actions/upload-artifact@v4\n      retention-days: 1"

abbrev files : Files
files path = some (
    if path == "m8-deploy-live.yml"
    then deploy_text
    else if path == "m8-smoke-trace.yml"
    then smoke_text
    else lifecycle_text)
