-- ===== src/Rrc/Chunk/Windows.antt =====
-- The windows of `Split` advance, stay within the size, and cover the text.
use grudge_ai.Prelude.{
  ℕ, zero, suc, ◌+◌, ◌/◌, ◌≤◌, ◌<◌, ◌≡◌, refl, some, List, [], ◌∷◌, length, leb, arith, lt→ltb,
  Bool-cases, Option-cases, inl, inr, All,
}
use grudge_ai.Rrc.Chunk.Text.{
  slice, last_index, last_index_any, last_index_bound, last_index_any_bound, length-slice-le,
}
use grudge_ai.Rrc.Chunk.{
  terminators, after_terminator, break_in, min_end, find_boundary, window_end, next_start, windows,
}

after_terminator_bound :
    (s : List ℕ) (terms : List (List ℕ)) (i : ℕ)
    → All (λ t. 0 < length t) terms
    → after_terminator s terms ≡ some i
    → (0 < i) × (i ≤ length s)
unfolding after_terminator
after_terminator_bound s [] i a h = absurd (cc)
after_terminator_bound s (term ∷ terms) i a h = elim (Option-cases (last_index s term)) [
  | inl missing ↦ ground (arith, after_terminator_bound s terms i a.1)
  | inr (j, found) ↦ ground (arith, last_index_bound s term j found, a.0)
]

break_in_bound : (s : List ℕ) (i : ℕ) → break_in s ≡ some i → (0 < i) × (i ≤ length s)
unfolding break_in
break_in_bound s i h = elim (Option-cases (last_index s (10 ∷ 10 ∷ []))) [
  | inr (j, found) ↦ ground (arith, last_index_bound s (10 ∷ 10 ∷ []) j found)
  | inl paragraph ↦ elim (Option-cases (last_index s (10 ∷ []))) [
    | inr (j, found) ↦ ground (arith, last_index_bound s (10 ∷ []) j found)
    | inl line ↦ elim (Option-cases (after_terminator s terminators)) [
      | inr (j, found) ↦ ground (arith, after_terminator_bound s terminators j (omega arith) found)
      | inl sentence ↦ elim (Option-cases (last_index_any s (32 ∷ 9 ∷ []))) [
        | inr (j, found) ↦ ground (arith, last_index_any_bound s (32 ∷ 9 ∷ []) j found)
        | inl space ↦ ground arith
      ]
    ]
  ]
]

-- The boundary lies in the window, after its start.
pub find_boundary_bound :
    (text : List ℕ) (start max_end window : ℕ)
    → start < max_end
    → (start < find_boundary text start max_end window)
      × (find_boundary text start max_end window ≤ max_end)
unfolding find_boundary
find_boundary_bound text start max_end window h =
    let lo = min_end start max_end window in
    elim (Option-cases (break_in (slice text lo max_end))) [
      | inl missing ↦ ground arith
      | inr (i, found) ↦
          ground
            (arith, break_in_bound (slice text lo max_end) i found, length-slice-le text lo max_end)
    ]

pub window_end_bound :
    (text : List ℕ) (max_chars i : ℕ)
    → 0 < max_chars
    → i < length text
    → (i < window_end text max_chars i)
      × (window_end text max_chars i ≤ length text)
      × (window_end text max_chars i ≤ i + max_chars)
unfolding window_end
window_end_bound text max_chars i p h =
    ground (arith, find_boundary_bound text i (i + max_chars) (max_chars / 2))

-- The windows start at `i`, each advances and stays within the size, the next one starts inside it
-- or where it ends, and the last ends where the text does.
abbrev pub Tiles : ℕ → ℕ → ℕ → List (ℕ × ℕ) → Type 0
Tiles n size i [] = ⊥
Tiles n size i ((s, e) ∷ []) = (s ≡ i) × (s < e) × (e ≤ s + size) × (e ≡ n)
Tiles n size i ((s, e) ∷ (s', e') ∷ ws) =
    (s ≡ i)
    × (s < e)
    × (e ≤ s + size)
    × (e ≤ n)
    × (s < s')
    × (s' ≤ e)
    × Tiles n size s' ((s', e') ∷ ws)

Tiles-cons :
    (n size i e j : ℕ) (ws : List (ℕ × ℕ))
    → i < e
    → e ≤ i + size
    → e ≤ n
    → i < j
    → j ≤ e
    → Tiles n size j ws
    → Tiles n size i ((i, e) ∷ ws)
Tiles-cons n size i e j [] a b c d f t = absurd t
Tiles-cons n size i e j ((s', e') ∷ []) a b c d f t =
    (refl, a, b, c, omega arith, omega arith, (refl, t.1, t.2, t.3))
Tiles-cons n size i e j ((s', e') ∷ (s'', e'') ∷ ws) a b c d f t =
    (refl, a, b, c, omega arith, omega arith, (refl, t.1, t.2, t.3, t.4, t.5, t.6))

-- With fuel for the bytes that are left the windows tile them: the loop ends, and no byte of the
-- text lies outside every window.
pub windows-Tiles :
    (fuel : ℕ) (text : List ℕ) (max_chars overlap i : ℕ)
    → 0 < max_chars
    → i < length text
    → length text < i + fuel
    → Tiles (length text) max_chars i (windows fuel text max_chars overlap i)
unfolding windows next_start
windows-Tiles zero text max_chars overlap i p h f = absurd (omega arith)
windows-Tiles (suc fuel) text max_chars overlap i p h f =
    let end = window_end text max_chars i in
    let (lo, hi, room) = window_end_bound text max_chars i p h in
    let next = next_start overlap i end in
    elim (Bool-cases (leb (length text) end)) [
      | inl last ↦ rw (lt→ltb i (length text) h, last) (refl, lo, room, ground arith)
      | inr more ↦
          rw (lt→ltb i (length text) h, more)
            (Tiles-cons (length text) max_chars i end next
              (windows fuel text max_chars overlap next) lo room hi (ground arith) (ground arith)
              (windows-Tiles fuel text max_chars overlap next p (ground arith) (ground arith)))
    ]
