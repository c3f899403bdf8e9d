-- ===== src/Host.antt =====
-- What the shared library takes from its surroundings: the allowlist that it loads once, when it is
-- imported, and the conversions of the Python runtime that are not modelled.
use agentic_identity_lab.Prelude.{String, Option, List, ℤ}
use agentic_identity_lab.Value.{Float, Value, str, Dict}

pub record Host : Type 0 where
  -- SAFE_CLAIM_KEYS
  pub safe_claim_keys : List String
  -- float(text) and int(text), `none` for a ValueError
  pub float_of : String → Option Float
  pub int_of : String → Option ℤ
  -- str(v) of a value that is no text
  pub repr : Value → String
  -- json.dumps(d, separators=(",", ":"))
  pub dumps : Dict → String

-- str(v)
unfoldable pub to_text : Host → Value → String
to_text host (str s) = s
to_text host v = host.repr v
