-- ===== src/Tests/Unary.antt =====
-- A host that writes integers in unary digits and reads them back, and the defaults of the harness.
use agentic_identity_lab.Prelude.{
  ◌≡◌, refl, ◌∙◌, ap, ℕ, suc, zero, String, false, Option, none, some, [], eqb, is_blank, is_space,
  lstrip, rstrip_of, strip, ℤ, pos, negsuc, ◌==◌, if◌then◌else◌,
}
use Prim.Native.Char.{code}
use agentic_identity_lab.Value.{Value, int}
use agentic_identity_lab.Host.{Host}
use agentic_identity_lab.Tools.Harness.Artifact.Laws.{ReadsBack}
use agentic_identity_lab.Tools.Harness.Inputs.Laws.{ReadsDefaults}

-- `n` ones and an end
unfoldable pub unary : (end : String) → ℕ → String
unary end zero = end
unary end (suc n) = String.◌∷◌ "1" (unary end n)

abbrev pub write : Value → String
unfolding unary
write (int (pos n)) = unary "+" n
write (int (negsuc n)) = unary "-" n
write v = "value"

abbrev one_more : Option ℤ → Option ℤ
one_more none = none
one_more (some (pos n)) = some (pos (suc n))
one_more (some (negsuc n)) = some (negsuc (suc n))

read_unary : String → Option ℤ
read_unary String.[] = none
read_unary (String.◌∷◌ c s) =
    let rest = read_unary s in
    if eqb (code c) b'+'
    then some (pos 0)
    else if eqb (code c) b'-'
    then some (negsuc 0)
    else if eqb (code c) b'1'
    then one_more rest
    else none

abbrev default_number : String → Option ℤ
default_number s =
    if s == "200"
    then some (pos 200)
    else if s == "30"
    then some (pos 30)
    else if s == "120"
    then some (pos 120)
    else none

abbrev or_number : Option ℤ → Option ℤ → Option ℤ
or_number none o = o
or_number (some n) o = some n

unfoldable pub read : String → Option ℤ
unfolding read_unary
read s = or_number (read_unary s) (default_number s)

abbrev pub host : Host
host = record {
  safe_claim_keys = [];
  float_of = λ s. none;
  int_of = read;
  repr = write;
  dumps = λ d. "{}";
}

read_positive : (n : ℕ) → read_unary (unary "+" n) ≡ some (pos n)
unfolding read_unary unary
read_positive zero = refl
read_positive (suc n) = ap one_more (read_positive n)

read_negative : (n : ℕ) → read_unary (unary "-" n) ≡ some (negsuc n)
unfolding read_unary unary
read_negative zero = refl
read_negative (suc n) = ap one_more (read_negative n)

rstrip_of-unary :
    (end : String)
    → is_blank end ≡ false
    → rstrip_of is_space end ≡ end
    → (n : ℕ) → (rstrip_of is_space (unary end n) ≡ unary end n) × (is_blank (unary end n) ≡ false)
unfolding rstrip_of unary is_space
rstrip_of-unary end given clean zero = (clean, given)
rstrip_of-unary end given clean (suc n) =
    let (same, more) = rstrip_of-unary end given clean n in (rw same (rw more refl), refl)

strip-unary :
    (end : String)
    → is_blank end ≡ false
    → rstrip_of is_space end ≡ end
    → lstrip end ≡ end
    → (n : ℕ) → strip (unary end n) ≡ unary end n
unfolding strip lstrip unary is_space
strip-unary end given clean first zero = ap (rstrip_of is_space) first ∙ clean
strip-unary end given clean first (suc n) = (rstrip_of-unary end given clean (suc n)).0

plus_rstrip : rstrip_of is_space "+" ≡ "+"
unfolding rstrip_of is_space
plus_rstrip = refl

minus_rstrip : rstrip_of is_space "-" ≡ "-"
unfolding rstrip_of is_space
minus_rstrip = refl

plus_lstrip : lstrip "+" ≡ "+"
unfolding lstrip
plus_lstrip = refl

minus_lstrip : lstrip "-" ≡ "-"
unfolding lstrip
minus_lstrip = refl

read_lem : (s : String) (n : ℤ) → read_unary s ≡ some n → read s ≡ some n
unfolding read
read_lem s n h = rw h

pub reads : ReadsBack host
unfolding unary
reads (pos n) =
    ap read (strip-unary "+" refl plus_rstrip plus_lstrip n)
    ∙ read_lem (unary "+" n) (pos n) (read_positive n)
reads (negsuc n) =
    ap read (strip-unary "-" refl minus_rstrip minus_lstrip n)
    ∙ read_lem (unary "-" n) (negsuc n) (read_negative n)

pub defaults : ReadsDefaults host
unfolding read
defaults = record { status = refl; timeout = refl; command_timeout = refl }
