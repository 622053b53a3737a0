-- ===== src/Rrc/Chunk/Text.antt =====
-- The functions of package strings that rrc/chunk calls, on texts as lists of bytes.
use grudge_ai.Prelude.{
  ℕ, zero, suc, ◌+◌, ◌-◌, ◌≤◌, ◌≡◌, Bool, true, false, ◌&&◌, ◌||◌, Option, none, some, List, [],
  ◌∷◌, length, length-append, drop, ◌==◌, leb, if◌then◌else◌, arith, Option-cases, inl, inr,
}
use mathlib.Core.List.{reverse, reverse-append}
use mathlib.Core.Path.{ap, ◌∙◌}

-- s[:n], and s[i:j] for i ≤ j ≤ len(s).
abbrev pub take : ℕ → List ℕ → List ℕ
take zero xs = []
take (suc n) [] = []
take (suc n) (x ∷ xs) = x ∷ take n xs

abbrev pub slice : List ℕ → ℕ → ℕ → List ℕ
slice s i j = drop i (take j s)

-- The bytes of the spaces of `unicode.IsSpace`: those of ASCII alone, and then in two and three bytes.
abbrev is_space1 : ℕ → Bool
is_space1 a = (leb 9 a && leb a 13) || a == 32

abbrev is_space2 : ℕ → ℕ → Bool
is_space2 a b = a == 194 && (b == 133 || b == 160)

abbrev is_space3 : ℕ → ℕ → ℕ → Bool
is_space3 a b c =
    (a == 225 && b == 154 && c == 128)
    || (a == 226 && b == 128 && (leb c 138 || c == 168 || c == 169 || c == 175) && leb 128 c)
    || (a == 226 && b == 129 && c == 159)
    || (a == 227 && b == 128 && c == 128)

unfoldable pub trim_left : List ℕ → List ℕ
trim_left [] = []
trim_left (a ∷ []) = if is_space1 a then [] else a ∷ []
trim_left (a ∷ b ∷ []) =
    let rest = trim_left (b ∷ []) in
    if is_space1 a then rest else if is_space2 a b then [] else a ∷ b ∷ []
trim_left (a ∷ b ∷ c ∷ s) =
    let one = trim_left (b ∷ c ∷ s) in
    let two = trim_left (c ∷ s) in
    let three = trim_left s in
    if is_space1 a
    then one
    else if is_space2 a b
    then two
    else if is_space3 a b c
    then three
    else a ∷ b ∷ c ∷ s

-- On the reversed text, the bytes of a space come last first.
unfoldable pub trim_right_reversed : List ℕ → List ℕ
trim_right_reversed [] = []
trim_right_reversed (a ∷ []) = if is_space1 a then [] else a ∷ []
trim_right_reversed (b ∷ a ∷ []) =
    let rest = trim_right_reversed (a ∷ []) in
    if is_space1 b then rest else if is_space2 a b then [] else b ∷ a ∷ []
trim_right_reversed (c ∷ b ∷ a ∷ s) =
    let one = trim_right_reversed (b ∷ a ∷ s) in
    let two = trim_right_reversed (a ∷ s) in
    let three = trim_right_reversed s in
    if is_space1 c
    then one
    else if is_space2 b c
    then two
    else if is_space3 a b c
    then three
    else c ∷ b ∷ a ∷ s

-- strings.TrimSpace
unfoldable pub trim_space : List ℕ → List ℕ
unfolding trim_left trim_right_reversed
trim_space s = reverse (trim_right_reversed (reverse (trim_left s)))

abbrev starts_with : List ℕ → List ℕ → Bool
starts_with s [] = true
starts_with [] (y ∷ ys) = false
starts_with (x ∷ s) (y ∷ ys) = x == y && starts_with s ys

-- strings.LastIndex: the last place at which `sub` stands, or nothing for -1.
unfoldable pub last_index : List ℕ → List ℕ → Option ℕ
last_index [] sub = if starts_with [] sub then some 0 else none
last_index (x ∷ s) sub = elim (last_index s sub) [
  | some i ↦ some (suc i)
  | none ↦ if starts_with (x ∷ s) sub then some 0 else none
]

abbrev is_among : ℕ → List ℕ → Bool
is_among x [] = false
is_among x (y ∷ ys) = x == y || is_among x ys

-- strings.LastIndexAny for a set of ASCII bytes.
unfoldable pub last_index_any : List ℕ → List ℕ → Option ℕ
last_index_any [] set = none
last_index_any (x ∷ s) set = elim (last_index_any s set) [
  | some i ↦ some (suc i)
  | none ↦ if is_among x set then some 0 else none
]

starts_with-length : (s sub : List ℕ) → starts_with s sub ≡ true → length sub ≤ length s
starts_with-length s [] h = omega arith
starts_with-length [] (y ∷ ys) h = absurd (ground arith)
starts_with-length (x ∷ s) (y ∷ ys) h = ground (arith, starts_with-length s ys)

-- What is found stands inside the text.
pub last_index_bound :
    (s sub : List ℕ) (i : ℕ) → last_index s sub ≡ some i → i + length sub ≤ length s
unfolding last_index
last_index_bound [] sub i h = ground (arith, starts_with-length [] sub)
last_index_bound (x ∷ s) sub i h = elim (Option-cases (last_index s sub)) [
  | inl missing ↦ ground (arith, starts_with-length (x ∷ s) sub)
  | inr (j, found) ↦ ground (arith, last_index_bound s sub j found)
]

pub last_index_any_bound :
    (s set : List ℕ) (i : ℕ) → last_index_any s set ≡ some i → suc i ≤ length s
unfolding last_index_any
last_index_any_bound [] set i h = absurd (cc)
last_index_any_bound (x ∷ s) set i h = elim (Option-cases (last_index_any s set)) [
  | inl missing ↦ ground arith
  | inr (j, found) ↦ ground (arith, last_index_any_bound s set j found)
]

length-take-le : (n : ℕ) (s : List ℕ) → length (take n s) ≤ n
length-take-le zero s = omega arith
length-take-le (suc n) [] = omega arith
length-take-le (suc n) (x ∷ s) = omega (arith, length-take-le n s)

length-drop : (n : ℕ) (s : List ℕ) → length (drop n s) ≡ length s - n
length-drop zero s = omega arith
length-drop (suc n) [] = omega arith
length-drop (suc n) (x ∷ s) = omega (arith, length-drop n s)

-- A slice is no longer than its bounds are apart.
pub length-slice-le : (s : List ℕ) (i j : ℕ) → length (slice s i j) ≤ j - i
length-slice-le s i j = omega (arith, length-drop i (take j s), length-take-le j s)

trim_left-length : (n : ℕ) (s : List ℕ) → length s ≤ n → length (trim_left s) ≤ length s
unfolding trim_left
trim_left-length n [] f = omega arith
trim_left-length n (a ∷ []) f = ground arith
trim_left-length (suc n) (a ∷ b ∷ []) f = ground arith
trim_left-length (suc n) (a ∷ b ∷ c ∷ s) f =
    ground (arith, trim_left-length n (b ∷ c ∷ s), trim_left-length n (c ∷ s), trim_left-length n s)
trim_left-length zero (a ∷ b ∷ s) f = absurd (omega arith)

trim_right_reversed-length :
    (n : ℕ) (s : List ℕ) → length s ≤ n → length (trim_right_reversed s) ≤ length s
unfolding trim_right_reversed
trim_right_reversed-length n [] f = omega arith
trim_right_reversed-length n (a ∷ []) f = ground arith
trim_right_reversed-length (suc n) (a ∷ b ∷ []) f = ground arith
trim_right_reversed-length (suc n) (a ∷ b ∷ c ∷ s) f = ground (
  arith,
  trim_right_reversed-length n (b ∷ c ∷ s),
  trim_right_reversed-length n (c ∷ s),
  trim_right_reversed-length n s,
)
trim_right_reversed-length zero (a ∷ b ∷ s) f = absurd (omega arith)

length-reverse : (s : List ℕ) → length (reverse s) ≡ length s
length-reverse [] = omega arith
length-reverse (x ∷ s) =
    ap length (reverse-append (x ∷ []) s)
    ∙ length-append (reverse s) (x ∷ [])
    ∙ omega (arith, length-reverse s)

-- Trimming lengthens no text.
pub length-trim_space-le : (s : List ℕ) → length (trim_space s) ≤ length s
unfolding trim_space
length-trim_space-le s =
    let left = trim_left s in
    omega (
      arith,
      length-reverse (trim_right_reversed (reverse left)),
      trim_right_reversed-length (length (reverse left)) (reverse left),
      length-reverse left,
      trim_left-length (length s) s,
    )

pub take-length : (s : List ℕ) → take (length s) s ≡ s
take-length [] = λ i. []
take-length (x ∷ s) = ap (◌∷◌ x) (take-length s)
