-- ===== src/Rrc/Engine/Forks.antt =====
-- What a fork of an engine knows, and what merging it back adds.
use grudge_ai.Prelude.{
  String, ◌≡◌, refl, ap, ap₂, ◌∙◌, none, some, ◌++◌, Dict, insert, lookup-insert, text_eq,
  if◌then◌else◌, arith,
}
use grudge_ai.Rrc.Dag.{prerequisites, new_dag, all_edges}
use grudge_ai.Rrc.Dag.Laws.{
  IsIndexed, into-all_edges, prerequisites-add_edges, prerequisites-new_dag, add_edges-IsIndexed,
  new_dag-IsIndexed,
}
use grudge_ai.Rrc.ScoreCache.{ScoreKey, get_local_context}
use grudge_ai.Rrc.ScoreCache.Laws.{IsKeyed, get_local_context-merge_scores, load_all_fresh}
use grudge_ai.Rrc.Engine.{Engine, fork, merge, set_price, last_price}

-- What the engine's own operations keep true of its maps.
pub record IsValid {F : Type 0} (e : Engine F) : Type 0 where
  pub indexed : IsIndexed e.dag.backward
  pub keyed : IsKeyed e.scores.scores

module _ {F : Type 0} (e : Engine F) where
  -- A fork of a valid engine is valid, has the prerequisites of every message in the same order,
  -- and has every score.
  pub fork-reads :
      IsValid e
      → IsValid (fork e)
        × ((id : String) → prerequisites (fork e).dag id ≡ prerequisites e.dag id)
        × ((k : ScoreKey) → get_local_context k (fork e).scores ≡ get_local_context k e.scores)
  unfolding fork get_local_context
  fork-reads v = (
    record {
      indexed = add_edges-IsIndexed new_dag (all_edges e.dag) (new_dag-IsIndexed F);
      keyed = (load_all_fresh e.scores.scores e.scores.persist v.keyed).0;
    },
    λ id.
        prerequisites-add_edges new_dag (all_edges e.dag) id
        ∙ ap₂ ◌++◌ (prerequisites-new_dag F id) (into-all_edges e.dag id v.indexed),
    λ k. (load_all_fresh e.scores.scores e.scores.persist v.keyed).1 k,
  )

  -- Merging a fork that is valid appends its prerequisites to those of the engine; of the fork's
  -- scores it takes those with a fingerprint whose key the engine has no score for.
  pub merge-reads :
      (forked : Engine F)
      → IsValid forked
      → ((id : String)
          → prerequisites (merge e forked).dag id
            ≡ prerequisites e.dag id ++ prerequisites forked.dag id)
        × ((k : ScoreKey)
            → get_local_context k (merge e forked).scores ≡ elim (get_local_context k e.scores) [
              | some v ↦ some v
              | none ↦
                  if text_eq k.local_context_fingerprint ""
                  then none
                  else get_local_context k forked.scores
            ])
  unfolding merge get_local_context
  merge-reads forked v = (
    λ id.
        prerequisites-add_edges e.dag (all_edges forked.dag) id
        ∙ ap (λ l. prerequisites e.dag id ++ l) (into-all_edges forked.dag id v.indexed),
    λ k. get_local_context-merge_scores forked.scores.scores e.scores k v.keyed,
  )

  -- Merging back a fork that added nothing doubles the prerequisites of every message: `Merge` adds
  -- the edges that the fork was given by `Fork` once more.
  pub merge-fork_doubles :
      IsValid e
      → (id : String)
      → prerequisites (merge e (fork e)).dag id ≡ prerequisites e.dag id ++ prerequisites e.dag id
  merge-fork_doubles v id =
      let (valid, edges, scores) = fork-reads v in
      (merge-reads (fork e) valid).0 id ∙ ap (λ l. prerequisites e.dag id ++ l) (edges id)

  -- On an engine whose price map is made, a published price is what the thread's next read gives,
  -- and other threads keep theirs. On a fork of any engine publishing a price writes to a nil map,
  -- which panics.
  pub set_price_made_or_forked :
      (zero : F) (prices : Dict F) (thread_id : String) (mu : F)
      → ((e' : Engine F) × (set_price (record e { price = some prices }) thread_id mu ≡ some e')
          × ((t : String)
              → last_price zero e' t ≡ (
                  if text_eq thread_id t
                  then mu
                  else last_price zero (record e { price = some prices }) t)))
        × (set_price (fork e) thread_id mu ≡ none)
  unfolding set_price last_price fork
  set_price_made_or_forked zero prices thread_id mu = (
    (
      record e { price = some (insert thread_id mu prices) },
      refl,
      λ t. ground (arith, lookup-insert thread_id t mu prices),
    ),
    refl,
  )
