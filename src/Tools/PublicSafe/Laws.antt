-- ===== src/Tools/PublicSafe/Laws.antt =====
-- The upload blocks of a workflow: what they are, and that no upload is left out of the scan.
use agentic_identity_lab.Prelude.{
  ◌≡◌, refl, ap, ℕ, ◌++◌, All, inl, inr, Bool-cases, String, true, false, ◌||◌, Option, none, some,
  List, [], ◌∷◌, arith, any, contains, eq_iff,
}
use agentic_identity_lab.Tools.PublicSafe.{
  Regex, is_upload, step_indent, ends_block, stays, block_lines, blocks_from,
}
use agentic_identity_lab.Tools.Shell.Laws.{All-map}

-- The first line after a block ends it.
abbrev pub IsAfter : (step_indent : ℕ) → List String → Type 0
IsAfter n [] = Unit
IsAfter n (line ∷ rest) = ends_block n line ≡ true

-- A block of the lines: it begins with an upload, and goes on as far as no line ends it.
pub record IsBlock (regex : Regex) (lines block : List String) : Type 0 where
  pub before : List String
  pub upload : String
  pub body : List String
  pub after : List String
  pub split : lines ≡ before ++ ((upload ∷ body) ++ after)
  pub same : block ≡ upload ∷ body
  pub uploads : is_upload regex upload ≡ true
  pub inside : All (λ line. ends_block (step_indent upload) line ≡ false) body
  pub ended : IsAfter (step_indent upload) after

block_lines-split :
    (n : ℕ) (lines : List String)
    → (after : List String) × (lines ≡ block_lines n lines ++ after)
      × All (λ line. ends_block n line ≡ false) (block_lines n lines)
      × IsAfter n after
unfolding block_lines
block_lines-split n [] = ([], refl, tt, tt)
block_lines-split n (line ∷ rest) =
    let (after, split, inside, ended) = block_lines-split n rest in
    elim (Bool-cases (ends_block n line)) [
      | inl ends ↦ (line ∷ rest, rw ends refl, rw ends tt, ends)
      | inr stays ↦ (after, rw stays (ap (λ l. line ∷ l) split), rw stays (stays, inside), ended)
    ]

IsBlock-later :
    (regex : Regex) (line : String) (lines block : List String)
    → IsBlock regex lines block
    → IsBlock regex (line ∷ lines) block
IsBlock-later regex line lines block b = record {
  before = line ∷ b.before;
  upload = b.upload;
  body = b.body;
  after = b.after;
  split = ap (λ l. line ∷ l) b.split;
  same = b.same;
  uploads = b.uploads;
  inside = b.inside;
  ended = b.ended;
}

-- The scan gives blocks of the lines.
pub blocks_from-IsBlock :
    (regex : Regex) (inside : Option ℕ) (lines : List String)
    → All (IsBlock regex lines) (blocks_from regex inside lines)
unfolding blocks_from
blocks_from-IsBlock regex inside [] = tt
blocks_from-IsBlock regex inside (line ∷ rest) =
    let later = λ (o : Option ℕ).
      All-map (blocks_from regex o rest) (IsBlock-later regex line rest)
        (blocks_from-IsBlock regex o rest) in
    elim (Bool-cases (stays inside line)) [
      | inl staying ↦ rw staying (later inside)
      | inr leaving ↦ elim (Bool-cases (is_upload regex line)) [
        | inl uploads ↦
            let (after, split, body, ended) = block_lines-split (step_indent line) rest in
            rw (leaving, uploads)
              (
                record {
                  before = [];
                  upload = line;
                  body = block_lines (step_indent line) rest;
                  after = after;
                  split = ap (λ l. line ∷ l) split;
                  same = refl;
                  uploads = uploads;
                  inside = body;
                  ended = ended;
                },
                later (some (step_indent line)),
              )
        | inr other ↦ rw (leaving, other) (later none)
      ]
    ]

-- The rest of the block that is being read.
abbrev open_lines : (inside : Option ℕ) → List String → List String
open_lines none lines = []
open_lines (some n) lines = block_lines n lines

module _ (regex : Regex) (l : String) (uploads : is_upload regex l ≡ true) where
  covered :
      (inside : Option ℕ) (lines : List String)
      → contains l lines ≡ true
      → (contains l (open_lines inside lines) || any (contains l) (blocks_from regex inside lines))
        ≡ true
  unfolding contains any block_lines blocks_from
  covered inside [] h = cc
  covered none (line ∷ rest) h =
      ground
        (arith, eq_iff line l, covered (some (step_indent line)) rest, covered none rest, uploads)
  covered (some n) (line ∷ rest) h = ground (
    arith,
    eq_iff line l,
    covered (some n) rest,
    covered (some (step_indent line)) rest,
    covered none rest,
    uploads,
  )

-- Every line of a workflow that uploads an artifact stands in one of the blocks that are scanned.
pub blocks_from-covers :
    (regex : Regex) (lines : List String) (line : String)
    → contains line lines ≡ true
    → is_upload regex line ≡ true
    → any (contains line) (blocks_from regex none lines) ≡ true
unfolding contains any
blocks_from-covers regex lines line h uploads = covered regex line uploads none lines h
