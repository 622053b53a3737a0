-- ===== src/Rrc/Chunk.antt =====
-- rrc/chunk: splitting a text for the scorer. A text is its list of bytes, and an offset a number of
-- bytes. The loop of `Split` takes fuel: one round for each byte of the text, and one more.
pub mod Text
pub mod Windows
pub mod Pieces
use grudge_ai.Prelude.{
  ℕ, zero, suc, ◌+◌, ◌-◌, ◌/◌, Bool, true, false, Option, none, some, List, [], ◌∷◌, length, ltb,
  leb, ℤ, pos, negsuc, pos_part, is_positive, if◌then◌else◌,
}
use grudge_ai.Rrc.Chunk.Text.{slice, trim_space, last_index, last_index_any}

-- `Estimator` is the tokenizer that the host installs; `NewEngine` refuses a nil one.
pub record Config : Type 0 where
  pub max_chars : ℤ
  pub overlap_chars : ℤ
  pub estimator : List ℕ → ℕ

pub record Chunk : Type 0 where
  pub index : ℕ
  pub text : List ℕ
  pub byte_start : ℕ
  pub byte_end : ℕ
  pub token_est : ℕ

unfoldable pub estimate : Config → List ℕ → ℕ
estimate cfg s = cfg.estimator s

-- The sentence ends that `findBoundary` tries, in its order.
abbrev pub terminators : List (List ℕ)
terminators =
    (46 ∷ 32 ∷ [])
    ∷ (33 ∷ 32 ∷ [])
    ∷ (63 ∷ 32 ∷ [])
    ∷ (46 ∷ 9 ∷ [])
    ∷ (33 ∷ 9 ∷ [])
    ∷ (63 ∷ 9 ∷ [])
    ∷ []

-- The break after the last place of the first terminator that is found.
unfoldable pub after_terminator : List ℕ → List (List ℕ) → Option ℕ
after_terminator s [] = none
after_terminator s (term ∷ terms) = elim (last_index s term) [
  | some i ↦ some (i + length term)
  | none ↦ after_terminator s terms
]

-- The break inside the slice that `findBoundary` searches: after a paragraph, a line, a sentence,
-- a space.
unfoldable pub break_in : List ℕ → Option ℕ
break_in s = elim (last_index s (10 ∷ 10 ∷ [])) [
  | some i ↦ some (i + 2)
  | none ↦ elim (last_index s (10 ∷ [])) [
    | some i ↦ some (i + 1)
    | none ↦ elim (after_terminator s terminators) [
      | some i ↦ some i
      | none ↦ elim (last_index_any s (32 ∷ 9 ∷ [])) [ some i ↦ some (i + 1) | none ↦ none ]
    ]
  ]
]

abbrev pub min_end : ℕ → ℕ → ℕ → ℕ
min_end start max_end window = if ltb (max_end - window) start then start else max_end - window

unfoldable pub find_boundary : List ℕ → ℕ → ℕ → ℕ → ℕ
find_boundary text start max_end window =
    let lo = min_end start max_end window in
    if leb max_end lo
    then max_end
    else elim (break_in (slice text lo max_end)) [ some i ↦ lo + i | none ↦ max_end ]

-- The end of the window that starts at `i`.
unfoldable pub window_end : List ℕ → ℕ → ℕ → ℕ
window_end text max_chars i =
    if leb (length text) (i + max_chars)
    then length text
    else find_boundary text i (i + max_chars) (max_chars / 2)

-- `next := end - OverlapChars; if next <= i { next = i + 1 }`
unfoldable pub next_start : ℕ → ℕ → ℕ → ℕ
next_start overlap i end = if leb (end - overlap) i then i + 1 else end - overlap

abbrev pub is_empty : List ℕ → Bool
is_empty [] = true
is_empty (x ∷ xs) = false

-- The sizes after the checks at the head of `Split`.
unfoldable pub effective_max : Config → ℕ
effective_max cfg = if is_positive cfg.max_chars then pos_part cfg.max_chars else 2000

unfoldable pub effective_overlap : Config → ℕ
effective_overlap cfg =
    if leb (effective_max cfg) (pos_part cfg.overlap_chars)
    then effective_max cfg / 4
    else pos_part cfg.overlap_chars

-- The windows that the loop visits, as pairs of start and end.
unfoldable pub windows : ℕ → List ℕ → ℕ → ℕ → ℕ → List (ℕ × ℕ)
windows zero text max_chars overlap i = []
windows (suc fuel) text max_chars overlap i =
    let end = window_end text max_chars i in
    let rest = windows fuel text max_chars overlap (next_start overlap i end) in
    if ltb i (length text)
    then (if leb (length text) end then (i, end) ∷ [] else (i, end) ∷ rest)
    else []

-- The chunks of the windows, without those that hold only spaces; `n` is `len(chunks)`.
unfoldable pub chunks_of : Config → List ℕ → ℕ → List (ℕ × ℕ) → List Chunk
chunks_of cfg text n [] = []
chunks_of cfg text n ((i, end) ∷ rest) =
    let piece = trim_space (slice text i end) in
    let kept = chunks_of cfg text (n + 1) rest in
    let dropped = chunks_of cfg text n rest in
    if is_empty piece
    then dropped
    else record {
      index = n;
      text = piece;
      byte_start = i;
      byte_end = end;
      token_est = estimate cfg piece;
    }
      ∷ kept

unfoldable pub split_trimmed : Config → List ℕ → List Chunk
split_trimmed cfg [] = []
split_trimmed cfg (b ∷ bs) =
    let text = b ∷ bs in
    if leb (length text) (effective_max cfg)
    then record {
      index = 0;
      text = text;
      byte_start = 0;
      byte_end = length text;
      token_est = estimate cfg text;
    }
      ∷ []
    else chunks_of cfg text 0
        (windows (suc (length text)) text (effective_max cfg) (effective_overlap cfg) 0)

unfoldable pub split : List ℕ → Config → List Chunk
split text cfg = split_trimmed cfg (trim_space text)
