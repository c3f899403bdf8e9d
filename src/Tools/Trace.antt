-- ===== src/Tools/Trace.antt =====
-- tools/ci/m8_smoke_trace_contract.py: the traces of a smoke run, as the rows of two queries, and the
-- tokens that the workflow and the queries are to have; and tools/telemetry/validate_m8_kql_contract.py,
-- which looks at the same queries.
pub mod Laws
use agentic_identity_lab.Prelude.{
  ℕ, String, Bool, true, false, not, ◌&&◌, ◌||◌, Option, none, some, List, [], ◌∷◌, ◌++◌, is_nil,
  is_none, is_in, contains, join, keep, length, lower, map, or_default, ◌<+>◌, if◌then◌else◌, pos,
}
use agentic_identity_lab.Result.{Result, ok, raise, type_error, ◌>>=◌}
use agentic_identity_lab.Value.{
  Value, null, bool, int, float, str, list, dict, Dict, Items, nil, empty, lookup, get, or_value,
  set_item, to_list,
}
use agentic_identity_lab.Host.{Host, to_text}
use agentic_identity_lab.Tools.Shell.{offender_if}
use agentic_identity_lab.Tools.Bootstrap.Merge.{dicts_of, iterate, list_field}
use agentic_identity_lab.Tools.Harness.Wiring.{Files, read_text, require_tokens}

abbrev pub required_workflow_tokens : List String
required_workflow_tokens =
    "workflow_dispatch" ∷ "workflow_call" ∷ "lab-live-azure-smoke" ∷ "live_azure_tests"
    ∷ "LIVE_AZURE_TESTS" ∷ "m8_browser_smoke_harness.py" ∷ "M9_PLAYWRIGHT_CHAT_URL"
    ∷ "M9_PLAYWRIGHT_ACCESS_TOKEN" ∷ "browser_transport" ∷ "M9_BROWSER_TRANSPORT"
    ∷ "M9_AGENT_BROWSER_COMMAND" ∷ "M9_BROWSER_EVIDENCE_JSON"
    ∷ "python -m playwright install chromium" ∷ "m8_smoke_trace_contract.py evaluate" ∷ []

abbrev pub required_positive_kql_tokens : List String
required_positive_kql_tokens =
    "requests" ∷ "AppRequests" ∷ "dependencies" ∷ "AppDependencies" ∷ "traces" ∷ "AppTraces"
    ∷ "operation_Id" ∷ "cloud_RoleName" ∷ "mcp-protected-api" ∷ []

abbrev personal_tokens : List String
personal_tokens =
    "\"oid\"" ∷ "\"sub\"" ∷ "\"email\"" ∷ "\"upn\"" ∷ "\"preferred_username\"" ∷ "\"name\""
    ∷ "\"given_name\"" ∷ "\"family_name\"" ∷ "tracestate" ∷ []

abbrev pub required_negative_kql_tokens : List String
required_negative_kql_tokens =
    "requests" ∷ "dependencies" ∷ "traces" ∷ "ContainerAppConsoleLogs_CL" ∷ "authorization"
    ∷ "bearer " ∷ "eyj" ∷ "cookie" ∷ "access_token" ∷ "refresh_token" ∷ "id_token" ∷ personal_tokens

abbrev pub default_required_roles : List String
default_required_roles = "apim" ∷ "bff" ∷ "agent-execution" ∷ "mcp-protected-api" ∷ []

-- {column_names[index]: value for index, value in enumerate(row) if index < len(column_names)}
-- A column whose name is no text is never looked up; a list or a dict is no key.
unfoldable pub row_of : (done : Dict) (column_names row : List Value) → Result Dict
unfolding set_item
row_of done [] row = ok done
row_of done column_names [] = ok done
row_of done (str name ∷ names) (v ∷ row) = row_of (set_item name v done) names row
row_of done (list items ∷ names) (v ∷ row) = raise type_error
row_of done (dict d ∷ names) (v ∷ row) = raise type_error
row_of done (name ∷ names) (v ∷ row) = row_of done names row

-- [col["name"] for col in columns if isinstance(col, dict) and "name" in col]
unfoldable pub names_of_columns : List Dict → List Value
unfolding lookup
names_of_columns [] = []
names_of_columns (column ∷ rest) =
    let later = names_of_columns rest in
    if is_none (lookup "name" column) then later else get "name" column ∷ later

unfoldable pub rows_of_table : (column_names : List Value) → List Value → Result (List Dict)
unfolding row_of to_list
rows_of_table column_names [] = ok []
rows_of_table column_names (list items ∷ rest) = do
  row ← row_of empty column_names (to_list items)
  later ← rows_of_table column_names rest
  ok (row ∷ later)
rows_of_table column_names (v ∷ rest) = rows_of_table column_names rest

unfoldable pub rows_of_tables : List Dict → Result (List Dict)
unfolding rows_of_table names_of_columns list_field iterate dicts_of
rows_of_tables [] = ok []
rows_of_tables (table ∷ rest) = do
  columns ← iterate (list_field "columns" table)
  values ← iterate (list_field "rows" table)
  rows ← rows_of_table (names_of_columns (dicts_of columns)) values
  later ← rows_of_tables rest
  ok (rows ++ later)

abbrev pub tables_of : Value → List Dict
tables_of (list tables) = dicts_of (to_list tables)
tables_of v = []

-- The rows of a parsed file.
unfoldable pub read_json_rows : (content : Value) → Result (List Dict)
unfolding rows_of_tables dicts_of to_list lookup
read_json_rows (list rows) = ok (dicts_of (to_list rows))
read_json_rows (dict d) = rows_of_tables (tables_of (get "tables" d))
read_json_rows v = ok []

-- [message of token for token in tokens if token.lower() not in lowered]
unfoldable pub missing_tokens : (message : String) (lowered : String) → List String → List String
unfolding keep is_in lower
missing_tokens message lowered tokens =
    map (λ token. message <+> token <+> "'")
      (keep (λ token. not (is_in (lower token) lowered)) tokens)

unfoldable pub validate_smoke_trace_scaffold :
    (workflow_text positive_kql_text negative_kql_text : String) → List String
unfolding missing_tokens
validate_smoke_trace_scaffold workflow_text positive_kql_text negative_kql_text =
    missing_tokens "workflow missing required token '" (lower workflow_text)
      required_workflow_tokens
    ++ (missing_tokens "positive kql missing required token '" (lower positive_kql_text)
          required_positive_kql_tokens
        ++ missing_tokens "negative kql missing required token '" (lower negative_kql_text)
            required_negative_kql_tokens)

unfoldable pub role_of : Host → Dict → String
unfolding or_value lookup to_text lower
role_of host row = lower (
    to_text host (
      or_value
        (or_value (or_value (get "cloud_RoleName" row) (get "AppRoleName" row))
          (get "roleName" row))
        (str "")))

abbrev pub operation_keys : List String
operation_keys =
    "name" ∷ "Name" ∷ "url" ∷ "Url" ∷ "target" ∷ "Target" ∷ "message" ∷ "Message" ∷ "data" ∷ "Data"
    ∷ []

unfoldable pub line_of : Host → Dict → String
unfolding lookup to_text lower join
line_of host row =
    lower
      (join " " (map (λ key. to_text host (or_default (lookup key row) (str ""))) operation_keys))

unfoldable pub haystack_of : Host → List Dict → String
unfolding line_of join
haystack_of host rows = join "\n" (map (line_of host) rows)

abbrev pub report_missing : (message : String) → List String → List String
report_missing message [] = []
report_missing message (x ∷ xs) = (message <+> join ", " (x ∷ xs)) ∷ []

unfoldable pub evaluate_trace_results :
    Host
    → (positive_rows negative_rows : List Dict) → (required_roles required_operations : List String)
    → List String
unfolding role_of haystack_of keep contains is_in lower
evaluate_trace_results host positive negative roles operations =
    report_missing "positive trace results missing required roles: "
      (keep (λ role. not (contains role (map (role_of host) positive))) roles)
    ++ (offender_if (is_nil positive) "positive trace results are empty"
        ++ (report_missing "positive trace results missing required operations: " (
              keep (λ operation. not (is_in (lower operation) (haystack_of host positive)))
                operations)
            ++ offender_if (not (is_nil negative)) (
                "negative leakage query returned "
                <+> host.repr (int (pos (length negative)))
                <+> " rows")))

abbrev pub exit_code : (offenders : List String) → ℕ
exit_code offenders = if is_nil offenders then 0 else 1

-- The contents are the parsed files.
unfoldable pub evaluate_command :
    Host
    → (positive_content negative_content : Value) → (required_role required_operation : List String)
    → Result ℕ
unfolding read_json_rows evaluate_trace_results
evaluate_command host positive_content negative_content required_role required_operation = do
  positive ← read_json_rows positive_content
  negative ← read_json_rows negative_content
  ok (
      exit_code (
        evaluate_trace_results host positive negative
          (if is_nil required_role then default_required_roles else required_role)
          required_operation))

unfoldable pub validate_command : Files → (workflow_file positive_kql negative_kql : String) → ℕ
unfolding validate_smoke_trace_scaffold keep
validate_command files workflow_file positive_kql negative_kql =
    let missing =
      keep (λ path. is_none (files path)) (workflow_file ∷ positive_kql ∷ negative_kql ∷ []) in
    if is_nil missing
    then exit_code (
        validate_smoke_trace_scaffold (read_text files workflow_file) (read_text files positive_kql)
          (read_text files negative_kql))
    else 1

abbrev pub positive_required : List String
positive_required =
    "requests" ∷ "apprequests" ∷ "dependencies" ∷ "appdependencies" ∷ "traces" ∷ "apptraces"
    ∷ "operation_id" ∷ []

abbrev pub negative_required : List String
negative_required =
    "requests" ∷ "dependencies" ∷ "traces" ∷ "apptraces" ∷ "containerappconsolelogs_cl"
    ∷ "authorization" ∷ "bearer " ∷ "eyj" ∷ "access_token" ∷ "refresh_token" ∷ "id_token"
    ∷ personal_tokens

abbrev pub missing_query : Files → (path : String) → List String
missing_query files path = offender_if (is_none (files path)) (path <+> ": missing required file")

-- The two paths are those of the queries in the repository.
unfoldable pub run_kql_checks : Files → (positive_query negative_query : String) → List String
unfolding require_tokens lower
run_kql_checks files positive negative =
    let missing = missing_query files positive ++ missing_query files negative in
    if is_nil missing
    then require_tokens (lower (read_text files positive)) positive positive_required
      ++ require_tokens (lower (read_text files negative)) negative negative_required
    else missing
