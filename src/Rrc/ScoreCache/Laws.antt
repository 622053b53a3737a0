-- ===== src/Rrc/ScoreCache/Laws.antt =====
-- What the score cache answers after it is written, loaded or merged.
use grudge_ai.Prelude.{
  Bool, ◌≡◌, refl, true, Option, none, some, List, [], ◌∷◌, text_eq, eq_iff, arith, if◌then◌else◌,
  Bool-cases, inl, inr, ◌↔◌,
}
use grudge_ai.Rrc.ScoreCache.{
  ScoreKey, key_eq, score_at, drop_score, put_score, ScoreCache, set_local_context,
  get_local_context, load_silent, load_all, set_persister, new_score_cache, merge_scores,
}

pub key_eq_iff : (a b : ScoreKey) → (key_eq a b ≡ true) ↔ (a ≡ b)
unfolding key_eq
key_eq_iff a b = ground (
  arith,
  eq_iff a.local_context_fingerprint b.local_context_fingerprint,
  eq_iff a.candidate_msg_id b.candidate_msg_id,
)

module _ {F : Type 0} where
  score_at-drop_score :
      (k j : ScoreKey) (m : List (ScoreKey × F))
      → score_at j (drop_score k m) ≡ (if key_eq k j then none else score_at j m)
  unfolding score_at drop_score
  score_at-drop_score k j [] = ground arith
  score_at-drop_score k j ((i, v) ∷ m) =
      ground (arith, score_at-drop_score k j m, key_eq_iff i k, key_eq_iff i j, key_eq_iff k j)

  score_at-put_score :
      (k j : ScoreKey) (v : F) (m : List (ScoreKey × F))
      → score_at j (put_score k v m) ≡ (if key_eq k j then some v else score_at j m)
  unfolding score_at
  score_at-put_score k j v m = ground (arith, score_at-drop_score k j m)

  -- Every key stands once.
  unfoldable pub IsKeyed : List (ScoreKey × F) → Type 0
  IsKeyed [] = Unit
  IsKeyed ((k, v) ∷ m) = (score_at k m ≡ none) × IsKeyed m

  drop_score-IsKeyed :
      (k : ScoreKey) (m : List (ScoreKey × F)) → IsKeyed m → IsKeyed (drop_score k m)
  unfolding drop_score IsKeyed
  drop_score-IsKeyed k [] h = tt
  drop_score-IsKeyed k ((j, v) ∷ m) h = elim (Bool-cases (key_eq j k)) [
    | inl same ↦ rw same (drop_score-IsKeyed k m h.1)
    | inr other ↦
        rw other (ground (arith, score_at-drop_score k j m, h.0), drop_score-IsKeyed k m h.1)
  ]

  pub put_score-IsKeyed :
      (k : ScoreKey) (v : F) (m : List (ScoreKey × F)) → IsKeyed m → IsKeyed (put_score k v m)
  unfolding IsKeyed
  put_score-IsKeyed k v m h =
      (ground (arith, score_at-drop_score k k m, key_eq_iff k k), drop_score-IsKeyed k m h)

  -- Loading adds every entry, and an entry that is loaded wins over one that stands already.
  pub score_at-load_all :
      (es : List (ScoreKey × F)) (sc : ScoreCache F) (j : ScoreKey)
      → IsKeyed es
      → get_local_context j (load_all es sc)
        ≡ elim (score_at j es) [ some v ↦ some v | none ↦ get_local_context j sc ]
  unfolding load_all get_local_context load_silent score_at IsKeyed
  score_at-load_all [] sc j h = refl
  score_at-load_all ((k, v) ∷ es) sc j h = ground (
    arith,
    score_at-load_all es (load_silent k v sc) j h.1,
    score_at-put_score k j v sc.scores,
    key_eq_iff k j,
    h.0,
  )

  abbrev usable : ScoreKey → Option F → Option F
  usable k o = if text_eq k.local_context_fingerprint "" then none else o

  -- Merging keeps every score that the cache has, and takes the other's score for any further key
  -- that has a fingerprint.
  pub get_local_context-merge_scores :
      (es : List (ScoreKey × F)) (sc : ScoreCache F) (j : ScoreKey)
      → IsKeyed es
      → get_local_context j (merge_scores es sc) ≡ elim (get_local_context j sc) [
        | some v ↦ some v
        | none ↦ if text_eq j.local_context_fingerprint "" then none else score_at j es
      ]
  unfolding merge_scores get_local_context set_local_context score_at IsKeyed
  get_local_context-merge_scores [] sc j h = ground arith
  get_local_context-merge_scores ((k, v) ∷ es) sc j h = ground (
    arith,
    get_local_context-merge_scores es sc j h.1,
    get_local_context-merge_scores es (set_local_context k v sc) j h.1,
    score_at-put_score k j v sc.scores,
    key_eq_iff k j,
    h.0,
  )

  pub load_all-IsKeyed :
      (es : List (ScoreKey × F)) (sc : ScoreCache F)
      → IsKeyed sc.scores
      → IsKeyed (load_all es sc).scores
  unfolding load_all load_silent
  load_all-IsKeyed [] sc h = h
  load_all-IsKeyed ((k, v) ∷ es) sc h =
      load_all-IsKeyed es (load_silent k v sc) (put_score-IsKeyed k v sc.scores h)

  -- Loading into a fresh cache gives the loaded scores, keyed.
  pub load_all_fresh :
      (es : List (ScoreKey × F)) (persist : Bool)
      → IsKeyed es
      → IsKeyed (load_all es (set_persister persist new_score_cache)).scores
        × ((k : ScoreKey)
            → get_local_context k (load_all es (set_persister persist new_score_cache))
              ≡ score_at k es)
  unfolding set_persister new_score_cache get_local_context score_at IsKeyed
  load_all_fresh es persist h = (
    load_all-IsKeyed es (set_persister persist new_score_cache) tt,
    λ k. ground (arith, score_at-load_all es (set_persister persist new_score_cache) k h),
  )
