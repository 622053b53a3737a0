-- ===== src/Rrc/Assembly/Merging.antt =====
-- Merging delivery groups that have one closure.
use grudge_ai.Prelude.{
  String, ◌≡◌, refl, sym, ◌∙◌, subst, Bool, false, ◌||◌, List, [], ◌∷◌, ◌++◌, map, any, elem,
  elem-append, All, any-sort_stable, sort_stable, text_ltb, text_eq, eq_iff, Bool-cases, inl, inr,
  arith,
}
use grudge_ai.Rrc.Floats.{Floats}
use grudge_ai.Rrc.Protocol.{DeliveryGroup}
use grudge_ai.Rrc.Assembly.{
  absorb, merge_into, merge_loop, sort_root_ids, merge_delivery_groups, closure_key,
}

elem-eq-any : (x : String) (xs : List String) → elem x xs ≡ any (λ y. text_eq y x) xs
elem-eq-any x [] = refl
elem-eq-any x (y ∷ ys) = ground (arith, elem-eq-any x ys)

pub elem-sort_stable :
    (x : String) (xs : List String) → elem x (sort_stable text_ltb xs) ≡ elem x xs
elem-sort_stable x xs =
    elem-eq-any x (sort_stable text_ltb xs)
    ∙ any-sort_stable text_ltb (λ y. text_eq y x) xs
    ∙ sym (elem-eq-any x xs)

-- Some group of the list stands for the message.
unfoldable pub stands_for {ℓ} : {F : Type ℓ} → String → List (DeliveryGroup F) → Bool
stands_for x [] = false
stands_for x (g ∷ gs) = elem x g.root_ids || stands_for x gs

-- Some group of the list has the closure of the key.
unfoldable pub has_key {ℓ} : {F : Type ℓ} → String → List (DeliveryGroup F) → Bool
has_key k [] = false
has_key k (g ∷ gs) = text_eq (closure_key g.messages) k || has_key k gs

-- No two groups of the list have one closure.
pub HaveDistinctKeys {ℓ} : {F : Type ℓ} → List (DeliveryGroup F) → Type 0
HaveDistinctKeys [] = Unit
HaveDistinctKeys (g ∷ gs) = (has_key (closure_key g.messages) gs ≡ false) × HaveDistinctKeys gs

module _ (fl : Floats) where
  open fl use {F}

  stands_for-merge_into :
      (x : String) (g : DeliveryGroup F) (out : List (DeliveryGroup F))
      → stands_for x (merge_into fl g out) ≡ (elem x g.root_ids || stands_for x out)
  unfolding stands_for merge_into absorb
  stands_for-merge_into x g [] = refl
  stands_for-merge_into x g (old ∷ out) =
      ground (arith, elem-append x old.root_ids g.root_ids, stands_for-merge_into x g out)

  stands_for-merge_loop :
      (x : String) (out gs : List (DeliveryGroup F))
      → stands_for x (merge_loop fl out gs) ≡ (stands_for x out || stands_for x gs)
  unfolding stands_for merge_loop
  stands_for-merge_loop x out [] = ground arith
  stands_for-merge_loop x out (g ∷ gs) =
      ground
        (arith, stands_for-merge_loop x (merge_into fl g out) gs, stands_for-merge_into x g out)

  stands_for-map :
      (x : String) (gs : List (DeliveryGroup F))
      → stands_for x (map (sort_root_ids fl) gs) ≡ stands_for x gs
  unfolding stands_for
  stands_for-map x [] = refl
  stands_for-map x (g ∷ gs) = ground (arith, elem-sort_stable x g.root_ids, stands_for-map x gs)

  -- The merged groups stand for exactly the messages that the groups stand for.
  pub stands_for-merge_delivery_groups :
      (x : String) (gs : List (DeliveryGroup F))
      → stands_for x (merge_delivery_groups fl gs) ≡ stands_for x gs
  unfolding merge_delivery_groups stands_for
  stands_for-merge_delivery_groups x gs =
      stands_for-map x (merge_loop fl [] gs) ∙ stands_for-merge_loop x [] gs

  has_key-merge_into :
      (k : String) (g : DeliveryGroup F) (out : List (DeliveryGroup F))
      → has_key k (merge_into fl g out) ≡ (text_eq (closure_key g.messages) k || has_key k out)
  unfolding has_key merge_into absorb
  has_key-merge_into k g [] = refl
  has_key-merge_into k g (old ∷ out) = ground (
    arith,
    eq_iff (closure_key old.messages) (closure_key g.messages),
    eq_iff (closure_key old.messages) k,
    eq_iff (closure_key g.messages) k,
    has_key-merge_into k g out,
  )

  pub absorb_messages : (old g : DeliveryGroup F) → (absorb fl old g).messages ≡ old.messages
  unfolding absorb
  absorb_messages old g = elim (Bool-cases (fl.lt old.score g.score)) [
    | inl above ↦ rw above refl
    | inr other ↦ rw other refl
  ]

  pub absorb_root_ids :
      (old g : DeliveryGroup F) → (absorb fl old g).root_ids ≡ old.root_ids ++ g.root_ids
  unfolding absorb
  absorb_root_ids old g = elim (Bool-cases (fl.lt old.score g.score)) [
    | inl above ↦ rw above refl
    | inr other ↦ rw other refl
  ]

  merge_into-HaveDistinctKeys :
      (g : DeliveryGroup F) (out : List (DeliveryGroup F))
      → HaveDistinctKeys out
      → HaveDistinctKeys (merge_into fl g out)
  unfolding HaveDistinctKeys merge_into absorb has_key
  merge_into-HaveDistinctKeys g [] h = (refl, tt)
  merge_into-HaveDistinctKeys g (old ∷ out) h =
      elim (Bool-cases (text_eq (closure_key old.messages) (closure_key g.messages))) [
        | inl same ↦ rw same (
          subst (λ ms. has_key (closure_key ms) out ≡ false) (sym (absorb_messages old g)) h.0,
          h.1,
        )
        | inr other ↦ rw other (
          ground (
            arith,
            h.0,
            other,
            has_key-merge_into (closure_key old.messages) g out,
            eq_iff (closure_key old.messages) (closure_key g.messages),
            eq_iff (closure_key g.messages) (closure_key old.messages),
          ),
          merge_into-HaveDistinctKeys g out h.1,
        )
      ]

  merge_loop-HaveDistinctKeys :
      (out gs : List (DeliveryGroup F))
      → HaveDistinctKeys out
      → HaveDistinctKeys (merge_loop fl out gs)
  unfolding merge_loop
  merge_loop-HaveDistinctKeys out [] h = h
  merge_loop-HaveDistinctKeys out (g ∷ gs) h =
      merge_loop-HaveDistinctKeys (merge_into fl g out) gs (merge_into-HaveDistinctKeys g out h)

  has_key-map :
      (k : String) (gs : List (DeliveryGroup F))
      → has_key k (map (sort_root_ids fl) gs) ≡ has_key k gs
  unfolding has_key
  has_key-map k [] = refl
  has_key-map k (g ∷ gs) = ground (arith, has_key-map k gs)

  map-HaveDistinctKeys :
      (gs : List (DeliveryGroup F))
      → HaveDistinctKeys gs
      → HaveDistinctKeys (map (sort_root_ids fl) gs)
  unfolding HaveDistinctKeys
  map-HaveDistinctKeys [] h = tt
  map-HaveDistinctKeys (g ∷ gs) h =
      (has_key-map (closure_key g.messages) gs ∙ h.0, map-HaveDistinctKeys gs h.1)

  -- No two of the merged groups have one closure, so that no message is delivered by two groups
  -- with the same messages.
  pub merge_delivery_groups-HaveDistinctKeys :
      (gs : List (DeliveryGroup F)) → HaveDistinctKeys (merge_delivery_groups fl gs)
  unfolding merge_delivery_groups HaveDistinctKeys
  merge_delivery_groups-HaveDistinctKeys gs =
      map-HaveDistinctKeys (merge_loop fl [] gs) (merge_loop-HaveDistinctKeys [] gs tt)

  module _ {κ} (P : DeliveryGroup F → Type κ)
      (absorbs : (old g : DeliveryGroup F) → P old → P g → P (absorb fl old g))
      (sorts : (g : DeliveryGroup F) → P g → P (sort_root_ids fl g)) where
    All-merge_into :
        (g : DeliveryGroup F) (out : List (DeliveryGroup F))
        → P g
        → All P out
        → All P (merge_into fl g out)
    unfolding merge_into
    All-merge_into g [] p h = (p, tt)
    All-merge_into g (old ∷ out) p h =
        elim (Bool-cases (text_eq (closure_key old.messages) (closure_key g.messages))) [
          | inl same ↦ rw same (absorbs old g h.0 p, h.1)
          | inr other ↦ rw other (h.0, All-merge_into g out p h.1)
        ]

    All-merge_loop :
        (out gs : List (DeliveryGroup F)) → All P out → All P gs → All P (merge_loop fl out gs)
    unfolding merge_loop
    All-merge_loop out [] h k = h
    All-merge_loop out (g ∷ gs) h k =
        All-merge_loop (merge_into fl g out) gs (All-merge_into g out k.0 h) k.1

    All-sorts : (gs : List (DeliveryGroup F)) → All P gs → All P (map (sort_root_ids fl) gs)
    All-sorts [] h = tt
    All-sorts (g ∷ gs) h = (sorts g h.0, All-sorts gs h.1)

    -- What absorbing and sorting keep of a group, merging keeps of all.
    pub All-merge_delivery_groups :
        (gs : List (DeliveryGroup F)) → All P gs → All P (merge_delivery_groups fl gs)
    unfolding merge_delivery_groups
    All-merge_delivery_groups gs h = All-sorts (merge_loop fl [] gs) (All-merge_loop [] gs tt h)
