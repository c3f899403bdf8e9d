-- ===== src/Auth/Jwks/Algorithm.antt =====
-- `_validate_algorithm` of jwks.py
use agentic_identity_lab.Prelude.{
  String, ◌≡◌, refl, sym, ◌↔◌, ◌⊎◌, inl, inr, subst, Bool, true, false, Option, none, some, List,
  [], ◌∷◌, arith, eq_iff, contains, strip, lower, is_blank, ◌==◌, if◌then◌else◌,
}
use agentic_identity_lab.Result.{Result, ok, raise, value_error, attribute_error}
use agentic_identity_lab.Value.{Value, str, truthy}

abbrev pub rejected_algorithms : List String
rejected_algorithms = "none" ∷ "hs256" ∷ "hs384" ∷ "hs512" ∷ []

abbrev pub allowed_algorithms : List String
allowed_algorithms = "RS256" ∷ "RS384" ∷ "RS512" ∷ "ES256" ∷ "ES384" ∷ []

-- the loop over ALLOWED_ALGORITHMS
canonical : List String → String → Option String
canonical [] alg = none
canonical (allowed ∷ rest) alg = if lower allowed == alg then some allowed else canonical rest alg

abbrev accept : Option String → Result String
accept none = raise (value_error "Rejected algorithm")
accept (some alg) = ok alg

lower_all : List String → List String
lower_all [] = []
lower_all (s ∷ rest) = lower s ∷ lower_all rest

abbrev validate_text : String → Result String
validate_text alg_raw =
    let alg = lower (strip alg_raw) in
    if is_blank alg_raw
    then raise (value_error "Rejected algorithm: '' (empty)")
    else if contains alg rejected_algorithms
    then raise (value_error "Rejected algorithm")
    else if contains alg (lower_all allowed_algorithms)
    then accept (canonical allowed_algorithms alg)
    else raise (value_error "Rejected algorithm")

-- `strip` of a header value that is neither false nor a text raises AttributeError.
unfoldable pub validate_algorithm : Value → Result String
unfolding canonical lower_all contains
validate_algorithm (str s) = validate_text s
validate_algorithm v =
    if truthy v then raise attribute_error else raise (value_error "Rejected algorithm: '' (empty)")

canonical_sound :
    (xs : List String) (alg a : String)
    → canonical xs alg ≡ some a
    → (contains a xs ≡ true) × (alg ≡ lower a)
unfolding canonical contains
canonical_sound [] alg a h = cc
canonical_sound (x ∷ xs) alg a h =
    ground (arith, eq_iff (lower x) alg, eq_iff x a, canonical_sound xs alg a)

accept_inversion :
    (blank rejected listed : Bool) (o : Option String) (m n : String) (a : String)
    → (if blank
        then raise (value_error m)
        else if rejected
        then raise (value_error n)
        else if listed
        then accept o
        else raise (value_error n))
      ≡ ok a
    → o ≡ some a
accept_inversion blank rejected listed o m n a h = ground arith

accepted-canonical :
    (s a : String)
    → validate_algorithm (str s) ≡ ok a
    → canonical allowed_algorithms (lower (strip s)) ≡ some a
unfolding validate_algorithm
accepted-canonical s a h =
    let alg = lower (strip s) in
    accept_inversion (is_blank s) (contains alg rejected_algorithms)
      (contains alg (lower_all allowed_algorithms)) (canonical allowed_algorithms alg)
      "Rejected algorithm: '' (empty)" "Rejected algorithm" a h

-- The allowed names, as alternatives.
abbrev IsAllowed : String → Type 0
IsAllowed a = (a ≡ "RS256") ⊎ (a ≡ "RS384") ⊎ (a ≡ "RS512") ⊎ (a ≡ "ES256") ⊎ (a ≡ "ES384")

IsAllowed-cases : (a : String) → contains a allowed_algorithms ≡ true → IsAllowed a
unfolding contains
IsAllowed-cases a h = ground (
  arith,
  eq_iff "RS256" a,
  eq_iff "RS384" a,
  eq_iff "RS512" a,
  eq_iff "ES256" a,
  eq_iff "ES384" a,
)

-- At an allowed name the tests come out by evaluation.
abbrev Accepts : String → Type 0
Accepts a =
    (s : String)
    → is_blank s ≡ false
    → lower (strip s) ≡ lower a
    → validate_algorithm (str s) ≡ ok a

Accepts-each :
    Accepts "RS256" × Accepts "RS384" × Accepts "RS512" × Accepts "ES256" × Accepts "ES384"
unfolding validate_algorithm lower
Accepts-each = (
  λ s b e. rw (b, e),
  λ s b e. rw (b, e),
  λ s b e. rw (b, e),
  λ s b e. rw (b, e),
  λ s b e. rw (b, e),
)

Accepts-allowed : (a : String) → contains a allowed_algorithms ≡ true → Accepts a
Accepts-allowed a h =
    let (rs256, rs384, rs512, es256, es384) = Accepts-each in
    elim (IsAllowed-cases a h) [
      | inl e ↦ subst Accepts (sym e) rs256
      | inr (inl e) ↦ subst Accepts (sym e) rs384
      | inr (inr (inl e)) ↦ subst Accepts (sym e) rs512
      | inr (inr (inr (inl e))) ↦ subst Accepts (sym e) es256
      | inr (inr (inr (inr e))) ↦ subst Accepts (sym e) es384
    ]

accepted_text :
    (v : Value) (a : String)
    → validate_algorithm v ≡ ok a
    → (s : String) × (v ≡ str s) × (is_blank s ≡ false)
unfolding validate_algorithm
accepted_text (str s) a h = (s, refl, ground arith)
accepted_text v a h = ground arith

-- Exactly the headers that spell an allowed algorithm, in any case and with spaces around, are
-- accepted, and the result is the algorithm's canonical spelling. So no spelling of `none` or of a
-- symmetric algorithm passes.
pub validate_algorithm_iff :
    (v : Value) (a : String)
    → (validate_algorithm v ≡ ok a) ↔ (
        (contains a allowed_algorithms ≡ true)
        × ((s : String) × (v ≡ str s) × (is_blank s ≡ false) × (lower (strip s) ≡ lower a)))
validate_algorithm_iff v a = (
  λ h.
      let (s, e, b) = accepted_text v a h in
      let (listed, same) =
        canonical_sound allowed_algorithms _ a
          (accepted-canonical s a (subst (λ w. validate_algorithm w ≡ ok a) e h)) in
      (listed, (s, e, b, same)),
  λ (listed, (s, e, b, same)). rw e (Accepts-allowed a listed s b same),
)
