-- ===== src/Tools/Bootstrap/Apps.antt =====
-- m9_entra_app_bootstrap.py: the apps and their identifiers. The Azure CLI answers by the state of
-- the directory, which its calls change: `World` is that state.
pub mod Laws
use agentic_identity_lab.Prelude.{
  String, Bool, true, false, not, Option, none, some, List, [], ◌∷◌, ◌++◌, is_blank, keep, strip,
  or_default, ◌==◌, ◌<+>◌, if◌then◌else◌, pos,
}
use agentic_identity_lab.Result.{Result, ok, raise, runtime_error}
use agentic_identity_lab.Value.{
  Value, null, bool, int, float, str, list, dict, Items, nil, cons, Dict, lookup, to_list, get,
}
use agentic_identity_lab.Host.{Host, to_text}
use agentic_identity_lab.Tools.Shell.{Completed}
use agentic_identity_lab.Tools.Harness.Artifact.{eqb_ℤ}
use agentic_identity_lab.Tools.Harness.Inputs.{text_or}
use agentic_identity_lab.Tools.Bootstrap.Merge.{dicts_of, stripped_text}

pub record AppSpec : Type 0 where
  pub key : String
  pub display_name : String
  pub scopes : List String
  pub public_client : Bool

pub record Specs : Type 0 where
  pub bff : AppSpec
  pub agent : AppSpec
  pub mcp : AppSpec
  pub smoke : AppSpec

unfoldable pub load_specs : (environment : String) → Specs
load_specs environment =
    let prefix : String = "agent-identity-lab-" <+> environment in
    record {
      bff = record {
        key = "bff";
        display_name = prefix <+> "-bff";
        scopes = "mcp.access" ∷ "access_as_user" ∷ [];
        public_client = false;
      };
      agent = record {
        key = "agent";
        display_name = prefix <+> "-agent-execution";
        scopes = "mcp.access" ∷ "mcp.write" ∷ [];
        public_client = false;
      };
      mcp = record {
        key = "mcp";
        display_name = prefix <+> "-mcp";
        scopes = "mcp.access" ∷ "mcp.write" ∷ [];
        public_client = false;
      };
      smoke = record {
        key = "smoke";
        display_name = prefix <+> "-smoke-client";
        scopes = [];
        public_client = true;
      };
    }

-- Whether an entry of the list has the display name.
abbrev pub is_named : (display_name : String) → Dict → Bool
is_named display_name app = elim (get "displayName" app) [
  | str name ↦ name == display_name
  | _ ↦ false
]

abbrev pub matches : (display_name : String) → Value → List Dict
matches display_name (list items) = keep (is_named display_name) (dicts_of (to_list items))
matches display_name payload = []

abbrev pub only_one : (display_name : String) → List Dict → Result (Option Dict)
only_one display_name [] = ok none
only_one display_name (app ∷ []) = ok (some app)
only_one display_name (app ∷ other ∷ rest) = raise (
    runtime_error ("Multiple app registrations found for display name '" <+> display_name <+> "'."))

-- A call and what follows; an exception passes through, and keeps what was changed.
abbrev pub and_then :
    {World A B : Type 0} → Result A × World → (A → World → Result B × World) → Result B × World
and_then (raise exception, world) next = (raise exception, world)
and_then (ok value, world) next = next value world

abbrev pub dict_or_raise : (message : String) → Value → Result Dict
dict_or_raise message (dict d) = ok d
dict_or_raise message v = raise (runtime_error message)

abbrev pub parsed_or_raise : Option Value → Result Value
parsed_or_raise none = raise (runtime_error "Azure CLI returned invalid JSON payload.")
parsed_or_raise (some v) = ok v

-- subprocess.run of the Azure CLI, and json.loads
pub record Cli (World : Type 0) : Type 0 where
  pub host : Host
  pub loads : String → Option Value
  pub call : List String → World → Completed × World

-- what a call without a result gives
abbrev pub Done : Type 0
Done = Unit

module _ {World : Type 0} (cli : Cli World) where
  abbrev pub parsed : Completed → Result Value
  parsed done =
      if eqb_ℤ done.returncode (pos 0)
      then parsed_or_raise (cli.loads (text_or done.stdout "null"))
      else raise
          (runtime_error "Azure CLI call failed while bootstrapping Entra app registrations.")

  unfoldable pub run_az_json : (args : List String) → World → Result Value × World
  run_az_json args world =
      let (done, after) =
        cli.call (("az" ∷ args) ++ ("--output" ∷ "json" ∷ "--only-show-errors" ∷ [])) world in
      (parsed done, after)

  unfoldable pub run_az : (args : List String) → World → Result Done × World
  run_az args world =
      let (done, after) = cli.call (("az" ∷ args) ++ ("--only-show-errors" ∷ [])) world in
      (
        if eqb_ℤ done.returncode (pos 0)
            then ok tt
            else raise
                (runtime_error "Azure CLI call failed while applying Entra app configuration."),
        after,
      )

  unfoldable pub find_application : (display_name : String) → World → Result (Option Dict) × World
  unfolding run_az_json dicts_of to_list keep
  find_application display_name world =
      and_then (run_az_json ("ad" ∷ "app" ∷ "list" ∷ "--display-name" ∷ display_name ∷ []) world)
        λ payload after. (only_one display_name (matches display_name payload), after)

  abbrev pub found_or_created : AppSpec → Option Dict → World → Result Dict × World
  found_or_created spec (some app) world = (ok app, world)
  found_or_created spec none world =
      and_then
        (run_az_json
          ("ad" ∷ "app" ∷ "create" ∷ "--display-name" ∷ spec.display_name ∷ "--sign-in-audience"
            ∷ "AzureADMyOrg" ∷ [])
          world)
        λ payload after. (
          dict_or_raise ("Unable to create app registration for '" <+> spec.display_name <+> "'.")
              payload,
          after,
        )

  abbrev pub show_application : AppSpec → (app_id : String) → World → Result Dict × World
  show_application spec app_id world =
      if is_blank app_id
      then (
        raise (
            runtime_error
              ("App registration '" <+> spec.display_name <+> "' does not contain an appId.")),
        world,
      )
      else and_then (run_az_json ("ad" ∷ "app" ∷ "show" ∷ "--id" ∷ app_id ∷ []) world)
          λ details after. (
            dict_or_raise ("Unable to query details for app '" <+> spec.display_name <+> "'.")
                details,
            after,
          )

  unfoldable pub ensure_application : AppSpec → World → Result Dict × World
  unfolding find_application run_az_json stripped_text
  ensure_application spec world =
      and_then (find_application spec.display_name world) λ existing found.
        and_then (found_or_created spec existing found)
          λ app made. show_application spec (stripped_text cli.host "appId" app) made

  unfoldable pub ensure_service_principal : (app_id : String) → World → Result Done × World
  unfolding run_az
  ensure_service_principal app_id world =
      let (check, after) =
        cli.call
          ("az" ∷ "ad" ∷ "sp" ∷ "show" ∷ "--id" ∷ app_id ∷ "--output" ∷ "none"
            ∷ "--only-show-errors" ∷ [])
          world in
      let created = run_az ("ad" ∷ "sp" ∷ "create" ∷ "--id" ∷ app_id ∷ []) after in
      if eqb_ℤ check.returncode (pos 0) then (ok tt, after) else created

  -- `body` is the payload as JSON
  unfoldable pub patch_application : (app_object_id body : String) → World → Result Done × World
  unfolding run_az
  patch_application app_object_id body = run_az (
      "rest"
      ∷ "--method"
      ∷ "PATCH"
      ∷ "--url"
      ∷ ("https://graph.microsoft.com/v1.0/applications/" <+> app_object_id)
      ∷ "--headers"
      ∷ "Content-Type=application/json"
      ∷ "--body"
      ∷ body
      ∷ [])

-- Both branches of the function give the preferred one.
unfoldable pub ensure_identifier_uri : (app_id : String) (current_uris : List Value) → String
ensure_identifier_uri app_id current_uris = "api://" <+> app_id
