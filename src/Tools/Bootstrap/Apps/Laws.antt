-- ===== src/Tools/Bootstrap/Apps/Laws.antt =====
-- An app that exists is found and not created again.
use agentic_identity_lab.Prelude.{◌≡◌, refl, false, [], ◌∷◌, is_blank}
use agentic_identity_lab.Result.{ok}
use agentic_identity_lab.Value.{Value, Dict, dict}
use agentic_identity_lab.Tools.Bootstrap.Merge.{stripped_text}
use agentic_identity_lab.Tools.Bootstrap.Apps.{
  AppSpec, Cli, matches, run_az_json, find_application, ensure_application,
}

module _ {World : Type 0} (cli : Cli World) where
  -- Where the directory lists just one app of the name, which has an id, the app is used: what
  -- comes out is what the CLI shows of that id, after the listing and the showing, and no app is
  -- created.
  pub ensure_application_existing :
      (spec : AppSpec) (world listed shown : World) (payload : Value) (app details : Dict)
      → run_az_json cli ("ad" ∷ "app" ∷ "list" ∷ "--display-name" ∷ spec.display_name ∷ []) world
        ≡ (ok payload, listed)
      → matches spec.display_name payload ≡ app ∷ []
      → is_blank (stripped_text cli.host "appId" app) ≡ false
      → run_az_json cli
          ("ad" ∷ "app" ∷ "show" ∷ "--id" ∷ stripped_text cli.host "appId" app ∷ [])
          listed
        ≡ (ok (dict details), shown)
      → ensure_application cli spec world ≡ (ok details, shown)
  unfolding ensure_application find_application
  ensure_application_existing spec world listed shown payload app details list_call one given
        show_call =
      rw (list_call, one, given, show_call) refl
