-- ===== src/Prelude/Text.antt =====
-- Python's methods on texts. Case folding is that of the letters whose lower case is ASCII: A to Z
-- and the Kelvin sign. So a lower-cased text compares with an ASCII text as in Python.
use Prim.Native.Nat.{ℕ, zero, suc, Ordering}
use Prim.Native.Char.{Char, code}
use Prim.Native.String.{String, compare, ◌++◌ as ◌<>◌}
use mathlib.Core.Bool.{Bool, true, false, ◌&&◌, ◌||◌}
use mathlib.Core.List.{List, [], ◌∷◌}
use text.Mathlib.Text.{starts_with}
use agentic_identity_lab.Prelude.Tests.{leb, eqb, if◌then◌else◌}

infixr 65 ◌<+>◌
abbrev pub ◌<+>◌ : String → String → String
s <+> t = s <> t

abbrev pub is_blank : String → Bool
is_blank String.[] = true
is_blank (String.◌∷◌ c s) = false

-- str.isspace of one character
unfoldable pub is_space : Char → Bool
is_space ch =
    let c = code ch in
    leb 9 c && leb c 13
    || leb 28 c && leb c 32
    || eqb c 133
    || eqb c 160
    || eqb c 5760
    || leb 8192 c && leb c 8202
    || eqb c 8232
    || eqb c 8233
    || eqb c 8239
    || eqb c 8287
    || eqb c 12288

lower_codes : List (ℕ × Char)
lower_codes =
    (65, "a")
    ∷ (66, "b")
    ∷ (67, "c")
    ∷ (68, "d")
    ∷ (69, "e")
    ∷ (70, "f")
    ∷ (71, "g")
    ∷ (72, "h")
    ∷ (73, "i")
    ∷ (74, "j")
    ∷ (75, "k")
    ∷ (76, "l")
    ∷ (77, "m")
    ∷ (78, "n")
    ∷ (79, "o")
    ∷ (80, "p")
    ∷ (81, "q")
    ∷ (82, "r")
    ∷ (83, "s")
    ∷ (84, "t")
    ∷ (85, "u")
    ∷ (86, "v")
    ∷ (87, "w")
    ∷ (88, "x")
    ∷ (89, "y")
    ∷ (90, "z")
    ∷ (8490, "k")
    ∷ []

replace_code : List (ℕ × Char) → Char → Char
replace_code [] ch = ch
replace_code ((n, low) ∷ rest) ch = if eqb (code ch) n then low else replace_code rest ch

unfoldable pub lower_char : Char → Char
unfolding lower_codes replace_code
lower_char ch = replace_code lower_codes ch

unfoldable pub lower : String → String
unfolding lower_char
lower String.[] = ""
lower (String.◌∷◌ c s) = String.◌∷◌ (lower_char c) (lower s)

upper_codes : List (ℕ × Char)
upper_codes =
    (97, "A")
    ∷ (98, "B")
    ∷ (99, "C")
    ∷ (100, "D")
    ∷ (101, "E")
    ∷ (102, "F")
    ∷ (103, "G")
    ∷ (104, "H")
    ∷ (105, "I")
    ∷ (106, "J")
    ∷ (107, "K")
    ∷ (108, "L")
    ∷ (109, "M")
    ∷ (110, "N")
    ∷ (111, "O")
    ∷ (112, "P")
    ∷ (113, "Q")
    ∷ (114, "R")
    ∷ (115, "S")
    ∷ (116, "T")
    ∷ (117, "U")
    ∷ (118, "V")
    ∷ (119, "W")
    ∷ (120, "X")
    ∷ (121, "Y")
    ∷ (122, "Z")
    ∷ []

-- str.upper of an ASCII text
unfoldable pub upper : String → String
unfolding upper_codes replace_code
upper String.[] = ""
upper (String.◌∷◌ c s) = String.◌∷◌ (replace_code upper_codes c) (upper s)

unfoldable pub lstrip : String → String
unfolding is_space
lstrip String.[] = ""
lstrip (String.◌∷◌ c s) = let rest = lstrip s in if is_space c then rest else String.◌∷◌ c s

abbrev pub rstrip_step : (Char → Bool) → Char → String → String
rstrip_step p c rest = if is_blank rest && p c then "" else String.◌∷◌ c rest

-- str.rstrip of the characters that pass a test
unfoldable pub rstrip_of : (Char → Bool) → String → String
rstrip_of p String.[] = ""
rstrip_of p (String.◌∷◌ c s) = rstrip_step p c (rstrip_of p s)

unfoldable pub rstrip : String → String
unfolding rstrip_of is_space
rstrip = rstrip_of is_space

unfoldable pub strip : String → String
unfolding lstrip rstrip
strip s = rstrip (lstrip s)

-- str.rstrip("/")
unfoldable pub rstrip_slash : String → String
unfolding rstrip_of
rstrip_slash = rstrip_of (λ c. eqb (code c) b'/')

abbrev emit : String → List String → List String
emit cur words = if is_blank cur then words else cur ∷ words

-- the loop of str.split(): `cur` is the word so far
split_from : String → String → List String
split_from cur String.[] = emit cur []
split_from cur (String.◌∷◌ c s) =
    let closed = emit cur (split_from "" s) in
    let longer = split_from (cur <> String.◌∷◌ c "") s in if is_space c then closed else longer

unfoldable pub split : String → List String
unfolding split_from is_space
split s = split_from "" s

-- the loop of str.split(sep) at one character
split_on_from : ℕ → String → String → List String
split_on_from sep cur String.[] = cur ∷ []
split_on_from sep cur (String.◌∷◌ c s) =
    let closed = cur ∷ split_on_from sep "" s in
    let longer = split_on_from sep (cur <> String.◌∷◌ c "") s in
    if eqb (code c) sep then closed else longer

unfoldable pub split_on : ℕ → String → List String
unfolding split_on_from
split_on sep s = split_on_from sep "" s

-- str.partition at one character: what stands before it, whether it is there, what stands after
unfoldable pub partition : ℕ → String → String × Bool × String
partition sep String.[] = ("", false, "")
partition sep (String.◌∷◌ c s) =
    let (before, found, after) = partition sep s in
    if eqb (code c) sep then ("", true, s) else (String.◌∷◌ c before, found, after)

-- needle in haystack
unfoldable pub is_in : String → String → Bool
is_in needle String.[] = is_blank needle
is_in needle (String.◌∷◌ c s) = starts_with (String.◌∷◌ c s) needle || is_in needle s

-- s[:n]
unfoldable pub take_chars : ℕ → String → String
take_chars zero s = ""
take_chars (suc n) String.[] = ""
take_chars (suc n) (String.◌∷◌ c s) = String.◌∷◌ c (take_chars n s)

-- s[n:]
unfoldable pub drop_chars : ℕ → String → String
drop_chars zero s = s
drop_chars (suc n) String.[] = ""
drop_chars (suc n) (String.◌∷◌ c s) = drop_chars n s

-- sep.join(texts)
unfoldable pub join : String → List String → String
join sep [] = ""
join sep (x ∷ []) = x
join sep (x ∷ y ∷ rest) = x <> (sep <> join sep (y ∷ rest))

-- s.replace(old, new) at single characters
unfoldable pub replace_char : ℕ → Char → String → String
replace_char old new String.[] = ""
replace_char old new (String.◌∷◌ c s) =
    String.◌∷◌ (if eqb (code c) old then new else c) (replace_char old new s)

-- s <= t, by code points
abbrev pub leb_text : String → String → Bool
leb_text s t = elim (compare s t) [ Ordering.gt ↦ false | _ ↦ true ]
