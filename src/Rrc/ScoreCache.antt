-- ===== src/Rrc/ScoreCache.antt =====
-- rrc/score_cache.go. The persister is a callback of the host: the model keeps the calls made to it.
pub mod Laws
use grudge_ai.Prelude.{
  ℕ, String, Bool, true, false, ◌&&◌, Option, none, some, List, [], ◌∷◌, ◌++◌, ◌==◌, text_eq,
  if◌then◌else◌,
}

pub record ScoreKey : Type 0 where
  pub local_context_fingerprint : String
  pub local_context_chunk_index : ℕ
  pub candidate_msg_id : String
  pub candidate_chunk_idx : ℕ

unfoldable pub key_eq : ScoreKey → ScoreKey → Bool
key_eq a b =
    text_eq a.local_context_fingerprint b.local_context_fingerprint
    && a.local_context_chunk_index == b.local_context_chunk_index
    && text_eq a.candidate_msg_id b.candidate_msg_id
    && a.candidate_chunk_idx == b.candidate_chunk_idx

module _ {F : Type 0} where
  -- The map `scores`: reading, deleting and writing a key.
  unfoldable pub score_at : ScoreKey → List (ScoreKey × F) → Option F
  score_at k [] = none
  score_at k ((j, v) ∷ m) = if key_eq j k then some v else score_at k m

  unfoldable pub drop_score : ScoreKey → List (ScoreKey × F) → List (ScoreKey × F)
  drop_score k [] = []
  drop_score k ((j, v) ∷ m) =
      let rest = drop_score k m in if key_eq j k then rest else (j, v) ∷ rest

  abbrev pub put_score : ScoreKey → F → List (ScoreKey × F) → List (ScoreKey × F)
  put_score k v m = (k, v) ∷ drop_score k m

-- `persist` says whether a persister is installed, `persisted` what it was called with.
pub record ScoreCache (F : Type 0) : Type 0 where
  pub scores : List (ScoreKey × F)
  pub persist : Bool
  pub persisted : List (ScoreKey × F)

module _ {F : Type 0} where
  unfoldable pub new_score_cache : ScoreCache F
  new_score_cache = record { scores = []; persist = false; persisted = [] }

  unfoldable pub set_persister : Bool → ScoreCache F → ScoreCache F
  set_persister p sc = record sc { persist = p }

  unfoldable pub set_local_context : ScoreKey → F → ScoreCache F → ScoreCache F
  set_local_context k score sc = record sc {
    scores = put_score k score sc.scores;
    persisted = if sc.persist then sc.persisted ++ (k, score) ∷ [] else sc.persisted;
  }

  unfoldable pub get_local_context : ScoreKey → ScoreCache F → Option F
  get_local_context k sc = score_at k sc.scores

  unfoldable pub load_silent : ScoreKey → F → ScoreCache F → ScoreCache F
  load_silent k score sc = record sc { scores = put_score k score sc.scores }

  -- `for key, score := range ... { loadSilent(key, score) }`
  unfoldable pub load_all : List (ScoreKey × F) → ScoreCache F → ScoreCache F
  load_all [] sc = sc
  load_all ((k, score) ∷ rest) sc = load_all rest (load_silent k score sc)

  -- the loop of `Merge`: a key with no fingerprint is passed over, a known key keeps its score
  unfoldable pub merge_scores : List (ScoreKey × F) → ScoreCache F → ScoreCache F
  merge_scores [] sc = sc
  merge_scores ((k, score) ∷ rest) sc = merge_scores rest (
      if text_eq k.local_context_fingerprint ""
      then sc
      else elim (get_local_context k sc) [ some _ ↦ sc | none ↦ set_local_context k score sc ])
