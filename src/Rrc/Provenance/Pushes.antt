-- ===== src/Rrc/Provenance/Pushes.antt =====
-- rrc/provenance.go: what is pushed is known from then on, and has an entry that is not stale.
use grudge_ai.Prelude.{
  String, ◌≡◌, sym, ◌∙◌, ap, Bool, true, false, not, ◌&&◌, ◌||◌, Option, some, List, [], ◌∷◌, map,
  any, elem, lookup, insert, lookup-insert, text_eq, eq_iff, All, All-map, arith, Bool-cases,
  Option-cases, inl, inr,
}
use grudge_ai.Prelude.Heap.Members.{any-push}
use grudge_ai.Rrc.Floats.{Floats}
use grudge_ai.Rrc.Edge.{SelectionScope}
use grudge_ai.Rrc.Dag.{Dag, is_some}
use grudge_ai.Rrc.Provenance.{
  ProvIn, BoundEntry, ReachState, bound_less, clamp01, bound_or_zero, improves, push_bound,
  contributing, contributors_of, prov_in_of, noted, push_anchored, push_anchors, push_onward,
}

All-of-map {ℓ κ μ} :
    {A : Type ℓ} {B : Type κ} (P : B → Type μ) (f : A → B) (xs : List A)
    → All P (map f xs)
    → All (λ x. P (f x)) xs
All-of-map P f [] h = tt
All-of-map P f (x ∷ xs) h = (h.0, All-of-map P f xs h.1)

-- No number is below itself: the one law of the order that lazy deletion needs.
module _ (fl : Floats) (irreflexive : (x : fl.F) → fl.lt x x ≡ false) where
  open fl use {F}

  -- The entry is for this message, and not stale.
  abbrev pub is_live : Option F → String → BoundEntry F → Bool
  is_live best x i = text_eq i.id x && not (fl.lt i.bound (bound_or_zero fl best))

  -- The message is settled, or has a bound.
  abbrev pub Known : ReachState F → String → Type 0
  Known s x = (elem x s.settled || is_some (lookup x s.best)) ≡ true

  -- Every message that has a bound is settled, or has an entry that is not stale.
  abbrev pub IsLive : ReachState F → Type 0
  IsLive s =
      (x : String)
      → s.truncated ≡ false
      → is_some (lookup x s.best) ≡ true
      → (elem x s.settled || any (is_live (lookup x s.best) x) s.heap) ≡ true

  pub record IsPut (s t : ReachState F) : Type 0 where
    pub knows : (x : String) → Known s x → Known t x
    pub live : IsLive s → IsLive t

  IsPut-trans : (s t u : ReachState F) → IsPut s t → IsPut t u → IsPut s u
  IsPut-trans s t u h k = record {
    knows = λ x e. k.knows x (h.knows x e);
    live = λ l. k.live (h.live l);
  }

  push_bound-IsPut :
      (id : String) (bound : F) (s : ReachState F)
      → IsPut s (push_bound fl id bound s) × Known (push_bound fl id bound s) id
  unfolding push_bound
  push_bound-IsPut id bound s =
      let item : BoundEntry F = record { id = id; bound = bound } in
      elim (Bool-cases (not (elem id s.settled) && improves fl (lookup id s.best) bound)) [
        | inl take ↦ rw take (
          record {
            knows = λ x e. ground (arith, e, lookup-insert id x bound s.best);
            live = λ l x whole some_bound. elim (Bool-cases (text_eq id x)) [
              | inl same ↦
                  let best : lookup x (insert id bound s.best) ≡ some bound =
                    ground (arith, lookup-insert id x bound s.best, same) in
                  rw best (
                    ground (
                      arith,
                      any-push (is_live (some bound) x) (bound_less fl) item s.heap,
                      irreflexive bound,
                      same,
                    ))
              | inr other ↦
                  let best : lookup x (insert id bound s.best) ≡ lookup x s.best =
                    ground (arith, lookup-insert id x bound s.best, other) in
                  let before = l x whole (ap is_some (sym best) ∙ some_bound) in
                  rw best (
                    ground (
                      arith,
                      before,
                      any-push (is_live (lookup x s.best) x) (bound_less fl) item s.heap,
                    ))
            ];
          },
          ground (arith, lookup-insert id id bound s.best, eq_iff id id),
        )
        | inr skip ↦
            rw skip (record { knows = λ x e. e; live = λ l. l }, known_or_worse s id bound skip)
      ]
    where
      known_or_worse :
          (s : ReachState F) (id : String) (bound : F)
          → (not (elem id s.settled) && improves fl (lookup id s.best) bound) ≡ false
          → Known s id
      known_or_worse s id bound skip = elim (Option-cases (lookup id s.best)) [
        | inl nothing ↦ ground (arith, skip, nothing)
        | inr (cur, found) ↦ ground (arith, found)
      ]

  IsPut-refl : (s : ReachState F) → IsPut s s
  IsPut-refl s = record { knows = λ x e. e; live = λ l. l }

  module _ (d : Dag F) (cone_thread_id : String) (scope : SelectionScope) where
    -- After the pushes of a list, all of it is known.
    abbrev PutAll : List (ProvIn F) → ReachState F → ReachState F → Type 0
    PutAll is s t = IsPut s t × All (λ i. Known t i.from) is

    put_one :
        (i : ProvIn F) (is : List (ProvIn F)) (bound : F) (s u : ReachState F)
        → PutAll is (push_bound fl i.from bound s) u
        → PutAll (i ∷ is) s u
    put_one i is bound s u rest =
        let first = push_bound-IsPut i.from bound s in
        (
          IsPut-trans s (push_bound fl i.from bound s) u first.0 rest.0,
          (rest.0.knows i.from first.1, rest.1),
        )

    push_anchored-IsPut :
        (is : List (ProvIn F)) (s : ReachState F)
        → PutAll is s (push_anchored fl d cone_thread_id scope is s)
    unfolding push_anchored
    push_anchored-IsPut [] s = (IsPut-refl s, tt)
    push_anchored-IsPut (i ∷ is) s =
        let t = push_bound fl i.from (clamp01 fl i.weight) s in
        put_one i is (clamp01 fl i.weight) s (push_anchored fl d cone_thread_id scope is t)
          (push_anchored-IsPut is t)

    pub push_onward-IsPut :
        (bound : F) (is : List (ProvIn F)) (s : ReachState F)
        → PutAll is s (push_onward fl d cone_thread_id scope bound is s)
    unfolding push_onward
    push_onward-IsPut bound [] s = (IsPut-refl s, tt)
    push_onward-IsPut bound (i ∷ is) s =
        let b = fl.mul bound (clamp01 fl i.weight) in
        let t = push_bound fl i.from b s in
        put_one i is b s (push_onward fl d cone_thread_id scope bound is t)
          (push_onward-IsPut bound is t)

    -- The contributors of a message are known.
    abbrev pub Follows : ReachState F → String → Type 0
    Follows s id = All (λ e. Known s e.from_message_id) (contributing fl d cone_thread_id scope id)

    follow_more : (s t : ReachState F) (id : String) → IsPut s t → Follows s id → Follows t id
    follow_more s t id p =
        All-map (λ e. p.knows e.from_message_id) (contributing fl d cone_thread_id scope id)

    pub follow_put :
        (s t : ReachState F) (id : String)
        → PutAll (contributors_of fl d cone_thread_id scope id) s t
        → Follows t id
    unfolding contributors_of
    follow_put s t id p =
        All-of-map (λ i. Known t i.from) (prov_in_of fl d cone_thread_id scope)
          (contributing fl d cone_thread_id scope id) p.1

    pub push_anchors-IsPut :
        (anchors : List String) (s : ReachState F)
        → IsPut s (push_anchors fl d cone_thread_id scope anchors s)
          × All (Follows (push_anchors fl d cone_thread_id scope anchors s)) anchors
    unfolding push_anchors
    push_anchors-IsPut [] s = (IsPut-refl s, tt)
    push_anchors-IsPut (a ∷ anchors) s =
        let start = noted fl d cone_thread_id scope a s in
        let is = contributors_of fl d cone_thread_id scope a in
        let t = push_anchored fl d cone_thread_id scope is start in
        let u = push_anchors fl d cone_thread_id scope anchors t in
        let first = push_anchored-IsPut is start in
        let rest = push_anchors-IsPut anchors t in
        (
          IsPut-trans s t u (record { knows = first.0.knows; live = first.0.live }) rest.0,
          (follow_more t u a rest.0 (follow_put start t a first), rest.1),
        )
