-- ===== src/Rrc/Provenance/Growth.antt =====
-- rrc/provenance.go: what pushing changes, and how far the heap grows.
use grudge_ai.Prelude.{
  ℕ, ◌+◌, ◌≤◌, String, ◌≡◌, refl, ◌∙◌, not, ◌&&◌, List, [], ◌∷◌, length, length-filter-le,
  length-map, filter, elem, Dict, lookup, arith, Bool-cases, inl, inr,
}
use grudge_ai.Prelude.Heap.Sizes.{length-push}
use grudge_ai.Rrc.Floats.{Floats}
use grudge_ai.Rrc.Edge.{Edge, SelectionScope, is_provenance, scope_allows}
use grudge_ai.Rrc.Dag.{Dag, prerequisites, slice_at}
use grudge_ai.Rrc.Selection.Visited.{remaining}
use grudge_ai.Rrc.Provenance.{
  ProvIn, ReachState, bound_less, clamp01, improves, push_bound, contributing, contributors_of,
  prov_in_of, noted, push_anchored, push_anchors, push_onward, anchored,
}

pub remaining_subset :
    {F : Type 0} (set : List String) (m : Dict (List (Edge F))) → remaining set m ≤ remaining [] m
unfolding remaining
remaining_subset set [] = omega arith
remaining_subset set ((k, es) ∷ m) = ground (arith, remaining_subset set m)

-- What pushing leaves alone, and how far the heap grows.
pub record IsPushed {F : Type 0} (n : ℕ) (s t : ReachState F) : Type 0 where
  pub grows : length t.heap ≤ length s.heap + n
  pub settled : t.settled ≡ s.settled
  pub in_reach : t.in_reach ≡ s.in_reach
  pub truncated : t.truncated ≡ s.truncated

IsPushed-trans :
    {F : Type 0} (n m : ℕ) (s t u : ReachState F)
    → IsPushed n s t
    → IsPushed m t u
    → IsPushed (n + m) s u
IsPushed-trans n m s t u h k = record {
  grows = omega (arith, h.grows, k.grows);
  settled = k.settled ∙ h.settled;
  in_reach = k.in_reach ∙ h.in_reach;
  truncated = k.truncated ∙ h.truncated;
}

module _ (fl : Floats) where
  open fl use {F}

  push_bound-IsPushed :
      (id : String) (bound : F) (s : ReachState F) → IsPushed 1 s (push_bound fl id bound s)
  unfolding push_bound
  push_bound-IsPushed id bound s =
      elim (Bool-cases (not (elem id s.settled) && improves fl (lookup id s.best) bound)) [
        | inl take ↦ rw take (record {
          grows =
              omega (arith, length-push (bound_less fl) (record { id = id; bound = bound }) s.heap);
          settled = refl;
          in_reach = refl;
          truncated = refl;
        })
        | inr skip ↦
            rw skip
              (record { grows = omega arith; settled = refl; in_reach = refl; truncated = refl })
      ]

  module _ (d : Dag F) (cone_thread_id : String) (scope : SelectionScope) where
    abbrev contributors : String → List (ProvIn F)
    contributors = contributors_of fl d cone_thread_id scope

    push_anchored-IsPushed :
        (is : List (ProvIn F)) (s : ReachState F)
        → IsPushed (length is) s (push_anchored fl d cone_thread_id scope is s)
    unfolding push_anchored
    push_anchored-IsPushed [] s = record {
      grows = omega arith;
      settled = refl;
      in_reach = refl;
      truncated = refl;
    }
    push_anchored-IsPushed (i ∷ is) s =
        let t = push_bound fl i.from (clamp01 fl i.weight) s in
        let whole =
          IsPushed-trans 1 (length is) s t (push_anchored fl d cone_thread_id scope is t)
            (push_bound-IsPushed i.from (clamp01 fl i.weight) s) (push_anchored-IsPushed is t) in
        record {
          grows = omega (arith, whole.grows);
          settled = whole.settled;
          in_reach = whole.in_reach;
          truncated = whole.truncated;
        }

    pub push_onward-IsPushed :
        (bound : F) (is : List (ProvIn F)) (s : ReachState F)
        → IsPushed (length is) s (push_onward fl d cone_thread_id scope bound is s)
    unfolding push_onward
    push_onward-IsPushed bound [] s = record {
      grows = omega arith;
      settled = refl;
      in_reach = refl;
      truncated = refl;
    }
    push_onward-IsPushed bound (i ∷ is) s =
        let b = fl.mul bound (clamp01 fl i.weight) in
        let t = push_bound fl i.from b s in
        let whole =
          IsPushed-trans 1 (length is) s t (push_onward fl d cone_thread_id scope bound is t)
            (push_bound-IsPushed i.from b s) (push_onward-IsPushed bound is t) in
        record {
          grows = omega (arith, whole.grows);
          settled = whole.settled;
          in_reach = whole.in_reach;
          truncated = whole.truncated;
        }

    pub push_anchors-IsPushed :
        (anchors : List String) (s : ReachState F)
        → IsPushed
            (anchored fl d cone_thread_id scope anchors)
            s
            (push_anchors fl d cone_thread_id scope anchors s)
    unfolding push_anchors anchored
    push_anchors-IsPushed [] s = record {
      grows = omega arith;
      settled = refl;
      in_reach = refl;
      truncated = refl;
    }
    push_anchors-IsPushed (a ∷ anchors) s =
        let start = noted fl d cone_thread_id scope a s in
        let t = push_anchored fl d cone_thread_id scope (contributors a) start in
        let first = push_anchored-IsPushed (contributors a) start in
        let rest = push_anchors-IsPushed anchors t in
        record {
          grows = omega (arith, first.grows, rest.grows);
          settled = rest.settled ∙ first.settled;
          in_reach = rest.in_reach ∙ first.in_reach;
          truncated = rest.truncated ∙ first.truncated;
        }

    pub length-contributors-le :
        (id : String) → length (contributors id) ≤ length (slice_at id d.backward)
    unfolding contributors_of contributing prerequisites
    length-contributors-le id =
        let passes =
          λ (e : Edge F). is_provenance e.source && scope_allows e cone_thread_id scope in
        omega (
          arith,
          length-map (prov_in_of fl d cone_thread_id scope)
              (filter passes (slice_at id d.backward)),
          length-filter-le passes (slice_at id d.backward),
        )
