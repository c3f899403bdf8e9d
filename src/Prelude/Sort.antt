-- ===== src/Prelude/Sort.antt =====
-- sorted() and dict.fromkeys of texts, and the membership that they keep.
use Prim.Native.String.{String}
use mathlib.Core.Path.{◌≡◌, refl, ap}
use mathlib.Core.Bool.{Bool, not, ◌&&◌, ◌||◌}
use mathlib.Core.Logic.{inl, inr}
use mathlib.Core.List.{List, [], ◌∷◌}
use native.Mathlib.Omega.{arith}
use text.Mathlib.Text.{◌==◌}
use text.Mathlib.TextEquality.{eq_iff}
use agentic_identity_lab.Prelude.Tests.{if◌then◌else◌, Bool-cases}
use agentic_identity_lab.Prelude.Lists.{contains, keep}
use agentic_identity_lab.Prelude.Text.{leb_text}

-- one step of sorting by insertion
unfoldable pub insert_text : String → List String → List String
insert_text x [] = x ∷ []
insert_text x (y ∷ rest) =
    let later = insert_text x rest in if leb_text x y then x ∷ y ∷ rest else y ∷ later

-- sorted(xs)
unfoldable pub sorted : List String → List String
unfolding insert_text
sorted [] = []
sorted (x ∷ xs) = insert_text x (sorted xs)

-- list(dict.fromkeys(xs))
unfoldable pub dedupe : List String → List String
dedupe [] = []
dedupe (x ∷ xs) = x ∷ keep (λ y. not (x == y)) (dedupe xs)

contains-insert_text :
    (a x : String) (xs : List String) → contains a (insert_text x xs) ≡ (x == a || contains a xs)
unfolding contains insert_text
contains-insert_text a x [] = refl
contains-insert_text a x (y ∷ rest) = elim (Bool-cases (leb_text x y)) [
  | inl below ↦ rw below
  | inr above ↦ rw above (ground (arith, contains-insert_text a x rest))
]

pub contains-sorted : (a : String) (xs : List String) → contains a (sorted xs) ≡ contains a xs
unfolding sorted contains
contains-sorted a [] = refl
contains-sorted a (x ∷ xs) =
    ground (arith, contains-insert_text a x (sorted xs), contains-sorted a xs)

-- What a list that is cut down by a test still holds.
pub contains-keep :
    (p : String → Bool) (a : String) (xs : List String)
    → contains a (keep p xs) ≡ (p a && contains a xs)
unfolding contains keep
contains-keep p a [] = ground arith
contains-keep p a (x ∷ xs) = elim (Bool-cases (p x)) [
  | inl held ↦ rw held (elim (Bool-cases (x == a)) [
    | inl same ↦
        let agree : p x ≡ p a = ap p ((eq_iff x a).0 same) in ground (arith, agree, held, same)
    | inr other ↦ ground (arith, other, contains-keep p a xs)
  ])
  | inr fails ↦ rw fails (elim (Bool-cases (x == a)) [
    | inl same ↦
        let agree : p x ≡ p a = ap p ((eq_iff x a).0 same) in
        ground (arith, agree, fails, contains-keep p a xs)
    | inr other ↦ ground (arith, other, contains-keep p a xs)
  ])
]

pub contains-dedupe : (a : String) (xs : List String) → contains a (dedupe xs) ≡ contains a xs
unfolding dedupe contains
contains-dedupe a [] = refl
contains-dedupe a (x ∷ xs) =
    ground (arith, contains-keep (λ y. not (x == y)) a (dedupe xs), contains-dedupe a xs)
