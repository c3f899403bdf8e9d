-- ===== src/Prelude/Lists.antt =====
-- Lists, and sets of texts as lists.
use Prim.Native.Nat.{ℕ, zero, suc}
use Prim.Native.String.{String}
use mathlib.Core.Path.{◌≡◌, refl}
use mathlib.Core.Bool.{Bool, true, false, ◌||◌}
use mathlib.Core.Option.{Option, none, some}
use mathlib.Core.List.{List, [], ◌∷◌, ◌++◌}
use native.Mathlib.Omega.{arith}
use text.Mathlib.Text.{◌==◌}
use text.Mathlib.TextEquality.{eq_iff}
use agentic_identity_lab.Prelude.Tests.{if◌then◌else◌}

module _ {ℓ} {A : Type ℓ} where
  abbrev pub is_nil : List A → Bool
  is_nil [] = true
  is_nil (x ∷ xs) = false

  abbrev pub length : List A → ℕ
  length [] = 0
  length (x ∷ xs) = suc (length xs)

  abbrev pub take : ℕ → List A → List A
  take zero xs = []
  take (suc n) [] = []
  take (suc n) (x ∷ xs) = x ∷ take n xs

  abbrev pub head? : List A → Option A
  head? [] = none
  head? (x ∷ xs) = some x

  -- [x for x in xs if p(x)]
  unfoldable pub keep : (A → Bool) → List A → List A
  keep p [] = []
  keep p (x ∷ xs) = let rest = keep p xs in if p x then x ∷ rest else rest

  -- any(p(x) for x in xs)
  unfoldable pub any : (A → Bool) → List A → Bool
  any p [] = false
  any p (x ∷ xs) = p x || any p xs

  abbrev pub All {κ} : (A → Type κ) → List A → Type κ
  All P [] = Unit
  All P (x ∷ xs) = P x × All P xs

-- x in xs
unfoldable pub contains : String → List String → Bool
contains a [] = false
contains a (x ∷ xs) = x == a || contains a xs

-- bool(set(xs) & set(ys))
unfoldable pub intersects : List String → List String → Bool
intersects [] ys = false
intersects (x ∷ xs) ys = contains x ys || intersects xs ys

pub contains-append :
    (a : String) (xs ys : List String) → contains a (xs ++ ys) ≡ (contains a xs || contains a ys)
unfolding contains
contains-append a [] ys = refl
contains-append a (x ∷ xs) ys = ground (arith, contains-append a xs ys)

-- Two lists meet exactly when some text is in both.
pub intersects_sound :
    (xs ys : List String)
    → intersects xs ys ≡ true
    → (a : String) × (contains a xs ≡ true) × (contains a ys ≡ true)
unfolding intersects contains
intersects_sound [] ys h = cc
intersects_sound (x ∷ xs) ys h = found (contains x ys) refl h (intersects_sound xs ys)
  where
    found :
        (b : Bool)
        → contains x ys ≡ b
        → (b || intersects xs ys) ≡ true
        → (intersects xs ys ≡ true → (a : String) × (contains a xs ≡ true) × (contains a ys ≡ true))
        → (a : String) × (contains a (x ∷ xs) ≡ true) × (contains a ys ≡ true)
    found true e h later = (x, ground (arith, eq_iff x x), e)
    found false e h later = let (a, p, q) = later h in (a, ground (arith, p), q)

-- A text in both lists makes them meet.
pub intersects_complete :
    (xs ys : List String) (a : String)
    → contains a xs ≡ true
    → contains a ys ≡ true
    → intersects xs ys ≡ true
unfolding intersects contains
intersects_complete [] ys a p q = cc
intersects_complete (x ∷ xs) ys a p q = ground (arith, eq_iff x a, intersects_complete xs ys a)
