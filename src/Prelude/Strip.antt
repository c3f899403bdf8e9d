-- ===== src/Prelude/Strip.antt =====
-- `strip` cleans both ends, and a second time changes nothing.
use Prim.Native.Char.{Char}
use Prim.Native.String.{String}
use mathlib.Core.Path.{◌≡◌, refl, ap, ◌∙◌}
use mathlib.Core.Logic.{inl, inr}
use mathlib.Core.Bool.{Bool, true, false, ◌&&◌}
use agentic_identity_lab.Prelude.Tests.{Bool-cases, if◌then◌else◌}
use agentic_identity_lab.Prelude.Text.{
  is_blank, is_space, lstrip, rstrip_of, rstrip_step, rstrip, strip,
}

-- The text does not begin with a space.
abbrev StartsClean : String → Type 0
StartsClean String.[] = Unit
StartsClean (String.◌∷◌ c s) = is_space c ≡ false

lstrip-StartsClean : (s : String) → StartsClean (lstrip s)
unfolding lstrip
lstrip-StartsClean String.[] = tt
lstrip-StartsClean (String.◌∷◌ c s) = elim (Bool-cases (is_space c)) [
  | inl space ↦ rw space (lstrip-StartsClean s)
  | inr text ↦ rw text text
]

lstrip_clean : (s : String) → StartsClean s → lstrip s ≡ s
unfolding lstrip
lstrip_clean String.[] h = refl
lstrip_clean (String.◌∷◌ c s) h = rw h

rstrip_step-StartsClean :
    (c : Char) (rest : String) → is_space c ≡ false → StartsClean (rstrip_step is_space c rest)
rstrip_step-StartsClean c rest h = by_rest (is_blank rest) (is_space c) h
  where
    by_rest : (b p : Bool) → p ≡ false → StartsClean (if b && p then "" else String.◌∷◌ c rest)
    by_rest true true e = tt
    by_rest true false e = h
    by_rest false p e = h

rstrip-StartsClean : (s : String) → StartsClean s → StartsClean (rstrip s)
unfolding rstrip
rstrip-StartsClean String.[] h = tt
rstrip-StartsClean (String.◌∷◌ c s) h = rstrip_step-StartsClean c (rstrip_of is_space s) h

rstrip_of_step :
    (p : Char → Bool) (c : Char) (rest : String)
    → rstrip_of p rest ≡ rest
    → rstrip_of p (rstrip_step p c rest) ≡ rstrip_step p c rest
unfolding rstrip_of
rstrip_of_step p c rest h = elim (Bool-cases (is_blank rest && p c)) [
  | inl gone ↦ rw gone
  | inr stays ↦ rw stays (rw h (rw stays))
]

rstrip_of_idem : (p : Char → Bool) (s : String) → rstrip_of p (rstrip_of p s) ≡ rstrip_of p s
unfolding rstrip_of
rstrip_of_idem p String.[] = refl
rstrip_of_idem p (String.◌∷◌ c s) = rstrip_of_step p c (rstrip_of p s) (rstrip_of_idem p s)

pub strip_idem : (s : String) → strip (strip s) ≡ strip s
unfolding strip rstrip
strip_idem s =
    ap rstrip
      (lstrip_clean (rstrip (lstrip s)) (rstrip-StartsClean (lstrip s) (lstrip-StartsClean s)))
    ∙ rstrip_of_idem is_space (lstrip s)
