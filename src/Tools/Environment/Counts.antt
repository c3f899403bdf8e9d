-- ===== src/Tools/Environment/Counts.antt =====
-- The counts of the report.
use agentic_identity_lab.Prelude.{
  ◌≡◌, refl, ◌∙◌, ap, inl, inr, suc, ◌+◌, ◌≤◌, String, Bool, true, false, not, List, [], ◌∷◌, ◌++◌,
  arith, contains, keep, length, dedupe, sorted, insert_text, leb_text, Bool-cases, ◌==◌,
  contains-keep, eq_iff,
}
use agentic_identity_lab.Tools.Environment.{
  NamesByEnvironment, profile_of, Args, requested_profile, missing_of, evaluate_contract,
  existing_required_count,
}

length-insert_text : (x : String) (xs : List String) → length (insert_text x xs) ≡ suc (length xs)
unfolding insert_text
length-insert_text x [] = refl
length-insert_text x (y ∷ rest) = elim (Bool-cases (leb_text x y)) [
  | inl below ↦ rw below refl
  | inr above ↦ rw above (ap suc (length-insert_text x rest))
]

length-sorted : (xs : List String) → length (sorted xs) ≡ length xs
unfolding sorted
length-sorted [] = refl
length-sorted (x ∷ xs) = length-insert_text x (sorted xs) ∙ ap suc (length-sorted xs)

length-keep :
    (p : String → Bool) (xs : List String)
    → length (keep p xs) + length (keep (λ x. not (p x)) xs) ≡ length xs
unfolding keep
length-keep p [] = refl
length-keep p (x ∷ xs) = elim (Bool-cases (p x)) [
  | inl held ↦ rw held (omega (arith, length-keep p xs))
  | inr fails ↦ rw fails (omega (arith, length-keep p xs))
]

-- No text occurs twice.
abbrev pub IsDistinct : List String → Type 0
IsDistinct [] = Unit
IsDistinct (x ∷ xs) = (contains x xs ≡ false) × IsDistinct xs

keep-IsDistinct : (p : String → Bool) (xs : List String) → IsDistinct xs → IsDistinct (keep p xs)
unfolding keep
keep-IsDistinct p [] h = tt
keep-IsDistinct p (x ∷ xs) (fresh, h) = elim (Bool-cases (p x)) [
  | inl held ↦ rw held (ground (arith, contains-keep p x xs, fresh), keep-IsDistinct p xs h)
  | inr fails ↦ rw fails (keep-IsDistinct p xs h)
]

pub dedupe-IsDistinct : (xs : List String) → IsDistinct (dedupe xs)
unfolding dedupe
dedupe-IsDistinct [] = tt
dedupe-IsDistinct (x ∷ xs) = (
  ground (arith, contains-keep (λ y. not (x == y)) x (dedupe xs), eq_iff x x),
  keep-IsDistinct (λ y. not (x == y)) (dedupe xs) (dedupe-IsDistinct xs),
)

keep_all :
    (p : String → Bool) (xs : List String)
    → ((a : String) → contains a xs ≡ true → p a ≡ true)
    → keep p xs ≡ xs
unfolding keep contains
keep_all p [] h = refl
keep_all p (x ∷ xs) h =
    let held : p x ≡ true = h x (ground (arith, eq_iff x x)) in
    rw held (ap (◌∷◌ x) (keep_all p xs λ a inside. h a (ground arith)))

-- A list without repetitions is left as it is.
pub dedupe_distinct : (xs : List String) → IsDistinct xs → dedupe xs ≡ xs
unfolding dedupe
dedupe_distinct [] h = refl
dedupe_distinct (x ∷ xs) (fresh, h) = ap (◌∷◌ x) (
    ap (keep (λ y. not (x == y))) (dedupe_distinct xs h)
    ∙ keep_all (λ y. not (x == y)) xs λ a inside. ground (arith, eq_iff x a, fresh, inside))

length-missing_of :
    (required available : List String)
    → IsDistinct required
    → length (keep (λ name. contains name available) required)
        + length (missing_of required available)
      ≡ length required
unfolding missing_of
length-missing_of required available h =
    rw
      (
        length-sorted (keep (λ name. not (contains name available)) (dedupe required)),
        dedupe_distinct required h,
      )
      (length-keep (λ name. contains name available) required)

-- The reported count is that of the required environments that exist, and the subtraction behind it
-- never passes 0: no environment is counted twice, even if --required repeats one.
pub existing_required_count_lem :
    (args : Args) (existing : List String) (secrets variables : NamesByEnvironment)
    → let e = evaluate_contract (requested_profile args) existing secrets variables in
      (length e.missing_environments ≤ length e.required_environments)
      × (existing_required_count e
          ≡ length (keep (λ name. contains name existing) e.required_environments))
unfolding evaluate_contract existing_required_count requested_profile
existing_required_count_lem args existing secrets variables =
    let required = dedupe ((profile_of args.mode).required_environments ++ args.required) in
    let sum =
      length-missing_of required existing
        (dedupe-IsDistinct ((profile_of args.mode).required_environments ++ args.required)) in
    (omega (arith, sum), omega (arith, sum))
