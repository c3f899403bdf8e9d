-- ===== src/Http.antt =====
-- What a call of httpx comes back with.
use agentic_identity_lab.Prelude.{ℕ, Option}
use agentic_identity_lab.Value.{Value}

pub data HttpReply : Type 0 where
  -- httpx.HTTPError
  http_error : HttpReply
  -- the status code, and response.json(), `none` for a body that is no JSON
  reply : (status_code : ℕ) (body : Option Value) → HttpReply
