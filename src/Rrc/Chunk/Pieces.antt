-- ===== src/Rrc/Chunk/Pieces.antt =====
-- The chunks that `Split` returns.
use grudge_ai.Prelude.{
  ℕ, zero, suc, ◌+◌, ◌≤◌, ◌<◌, ◌≡◌, refl, List, [], ◌∷◌, length, leb, if◌then◌else◌, arith,
  Bool-cases, inl, inr, All, sym, ◌⊎◌, ℤ, pos, negsuc, pos_part, is_positive,
}
use grudge_ai.Rrc.Chunk.Text.{slice, trim_space, length-slice-le, length-trim_space-le, take-length}
use grudge_ai.Rrc.Chunk.{
  Config, Chunk, estimate, windows, effective_max, effective_overlap, chunks_of, split_trimmed,
  split, is_empty,
}
use grudge_ai.Rrc.Chunk.Windows.{Tiles, windows-Tiles}

-- A chunk of the trimmed text: it holds something, within the size, and is what stands between its
-- offsets, trimmed.
pub record IsPiece (cfg : Config) (trimmed : List ℕ) (c : Chunk) : Type 0 where
  pub advances : c.byte_start < c.byte_end
  pub inside : c.byte_end ≤ length trimmed
  pub bounded : c.byte_end ≤ c.byte_start + effective_max cfg
  pub short : length c.text ≤ effective_max cfg
  pub cut :
      (c.text ≡ slice trimmed c.byte_start c.byte_end)
      ⊎ (c.text ≡ trim_space (slice trimmed c.byte_start c.byte_end))
  pub counted : c.token_est ≡ estimate cfg c.text

abbrev pub IsNumbered : ℕ → List Chunk → Type 0
IsNumbered n [] = Unit
IsNumbered n (c ∷ cs) = (c.index ≡ n) × IsNumbered (suc n) cs

positive : (z : ℤ) → 0 < (if is_positive z then pos_part z else 2000)
positive (pos zero) = omega arith
positive (pos (suc n)) = omega arith
positive (negsuc n) = omega arith

effective_max-pos : (cfg : Config) → 0 < effective_max cfg
unfolding effective_max
effective_max-pos cfg = positive cfg.max_chars

abbrev InBounds : ℕ → ℕ → ℕ × ℕ → Type 0
InBounds n size w = (w.0 < w.1) × (w.1 ≤ n) × (w.1 ≤ w.0 + size)

Tiles-InBounds : (n size i : ℕ) (ws : List (ℕ × ℕ)) → Tiles n size i ws → All (InBounds n size) ws
Tiles-InBounds n size i [] t = tt
Tiles-InBounds n size i ((s, e) ∷ []) t = ((t.1, omega arith, t.2), tt)
Tiles-InBounds n size i ((s, e) ∷ (s', e') ∷ ws) t =
    ((t.1, t.3, t.2), Tiles-InBounds n size s' ((s', e') ∷ ws) t.6)

chunks_of-IsPiece :
    (cfg : Config) (text : List ℕ) (n : ℕ) (ws : List (ℕ × ℕ))
    → All (InBounds (length text) (effective_max cfg)) ws
    → All (IsPiece cfg text) (chunks_of cfg text n ws) × IsNumbered n (chunks_of cfg text n ws)
unfolding chunks_of
chunks_of-IsPiece cfg text n [] h = (tt, tt)
chunks_of-IsPiece cfg text n ((i, end) ∷ ws) h =
    let piece = trim_space (slice text i end) in
    elim (Bool-cases (is_empty piece)) [
      | inl blank ↦ rw blank (chunks_of-IsPiece cfg text n ws h.1)
      | inr held ↦
          let (pieces, numbers) = chunks_of-IsPiece cfg text (suc n) ws h.1 in
          let e : n + 1 ≡ suc n = omega arith in
          rw (held, e)
            (
              (
                record {
                  advances = h.0.0;
                  inside = h.0.1;
                  bounded = h.0.2;
                  short = omega (
                    arith,
                    h.0,
                    length-trim_space-le (slice text i end),
                    length-slice-le text i end,
                  );
                  cut = inr refl;
                  counted = refl;
                },
                pieces,
              ),
              (refl, numbers),
            )
    ]

split_trimmed-IsPiece :
    (cfg : Config) (text : List ℕ)
    → All (IsPiece cfg text) (split_trimmed cfg text) × IsNumbered 0 (split_trimmed cfg text)
unfolding split_trimmed
split_trimmed-IsPiece cfg [] = (tt, tt)
split_trimmed-IsPiece cfg (b ∷ bs) =
    let text = b ∷ bs in
    elim (Bool-cases (leb (length text) (effective_max cfg))) [
      | inl small ↦ rw small (
        (
          record {
            advances = omega arith;
            inside = omega arith;
            bounded = ground arith;
            short = ground arith;
            cut = inl (sym (take-length text));
            counted = refl;
          },
          tt,
        ),
        (refl, tt),
      )
      | inr large ↦ rw large (
          chunks_of-IsPiece cfg text 0
            (windows (suc (length text)) text (effective_max cfg) (effective_overlap cfg) 0)
            (Tiles-InBounds (length text) (effective_max cfg) 0 _ (
              windows-Tiles (suc (length text)) text (effective_max cfg) (effective_overlap cfg) 0
                (effective_max-pos cfg) (omega arith) (omega arith))))
    ]

-- Every chunk that `split` returns is a piece of the trimmed text: its offsets, which count from the
-- start of the trimmed text, advance, lie inside it and are at most the effective size apart, its
-- text is what stands there, trimmed at most, and no longer than that size, and its estimate is that
-- of its text. The chunks are numbered from 0 in their order.
pub split-IsPiece :
    (text : List ℕ) (cfg : Config)
    → All (IsPiece cfg (trim_space text)) (split text cfg) × IsNumbered 0 (split text cfg)
unfolding split
split-IsPiece text cfg = split_trimmed-IsPiece cfg (trim_space text)

-- The windows of a text that does not fit one chunk tile the trimmed text: the first starts at 0,
-- each advances by at most the effective size, the next starts inside it or where it ends, and the
-- last ends where the text does. So `Split` ends and passes over no byte, whatever the sizes in the
-- configuration.
pub split_windows-Tiles :
    (text : List ℕ) (cfg : Config)
    → effective_max cfg < length (trim_space text)
    → Tiles (length (trim_space text)) (effective_max cfg) 0 (
        windows
          (suc (length (trim_space text)))
          (trim_space text)
          (effective_max cfg)
          (effective_overlap cfg)
          0)
split_windows-Tiles text cfg h =
    windows-Tiles (suc (length (trim_space text))) (trim_space text) (effective_max cfg)
      (effective_overlap cfg) 0 (effective_max-pos cfg) (omega arith) (omega arith)
