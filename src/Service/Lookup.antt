-- ===== src/Service/Lookup.antt =====
-- How the headers of an outgoing request read, after each of the ways to set one.
use agentic_identity_lab.Prelude.{
  ◌≡◌, refl, String, false, Option, none, some, List, [], ◌∷◌, arith, eq_iff, ◌==◌, if◌then◌else◌,
}
use agentic_identity_lab.Service.{put_header, put_given}

-- The value that stands under a name.
unfoldable pub find_header : String → List (String × String) → Option String
find_header name [] = none
find_header name ((k, v) ∷ rest) = if k == name then some v else find_header name rest

pub find_header-put_header :
    (name k v : String) (headers : List (String × String))
    → find_header name (put_header k v headers)
      ≡ (if k == name then some v else find_header name headers)
unfolding find_header put_header
find_header-put_header name k v [] = refl
find_header-put_header name k v ((j, w) ∷ rest) =
    ground (arith, eq_iff j k, eq_iff j name, eq_iff k name, find_header-put_header name k v rest)

pub find_header-put_given :
    (name k : String) (value : Option String) (headers : List (String × String))
    → (k == name) ≡ false
    → find_header name (put_given k value headers) ≡ find_header name headers
find_header-put_given name k none headers other = refl
find_header-put_given name k (some v) headers other =
    let put = find_header-put_header name k v headers in ground arith
