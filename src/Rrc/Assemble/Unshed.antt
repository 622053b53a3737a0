-- ===== src/Rrc/Assemble/Unshed.antt =====
-- What a round of the shed loop drops, and that it never drops a group of full confidence, whose
-- density is infinite.
use grudge_ai.Prelude.{
  ℕ, ◌≡◌, refl, ◌∙◌, ap, true, false, Option, none, some, List, [], ◌∷◌, All, Memᴰ, err, ◌⊎◌, inl,
  inr, Bool-cases, if◌then◌else◌,
}
use grudge_ai.Rrc.Floats.{Floats}
use grudge_ai.Rrc.Protocol.{DeliveryGroup}
use grudge_ai.Rrc.Detect.{bits_from_confidence, stance_bits}
use grudge_ai.Rrc.Assembly.{lowest_loop, lowest_density_group}
use grudge_ai.Rrc.Assemble.{
  finish, again, fixed_overflow, fits, add_ids, cost_of, density_of, final_wire, wire_total,
  ShedInput, ShedState, shed_round,
}

module _ (fl : Floats) (irreflexive : (x : fl.F) → fl.lt x x ≡ false)
    (transitive : (x y z : fl.F) → fl.lt x y ≡ true → fl.lt y z ≡ true → fl.lt x z ≡ true) where
  open fl use {F}

  -- What the scan ends with: what it began with, where no group is below the bound; or a group
  -- below the bound, with no group below it.
  abbrev Scanned :
      (DeliveryGroup F → F)
      → F
      → Option (DeliveryGroup F)
      → List (DeliveryGroup F)
      → Option (DeliveryGroup F)
      → Type 0
  Scanned density lowest selected gs out =
      ((out ≡ selected) × All (λ g. fl.lt (density g) lowest ≡ false) gs)
      ⊎ ((g : DeliveryGroup F) × (out ≡ some g)
          × Memᴰ g gs
          × (fl.lt (density g) lowest ≡ true)
          × All (λ h. fl.lt (density h) (density g) ≡ false) gs)

  -- What is below a number is not above what is not below it.
  not_below : (x y z : F) → fl.lt y z ≡ true → fl.lt x z ≡ false → fl.lt x y ≡ false
  not_below x y z below out = elim (Bool-cases (fl.lt x y)) [
    | inl less ↦ absurd (cc (transitive x y z less below, out))
    | inr done ↦ done
  ]

  lowest_loop-Scanned :
      (density : DeliveryGroup F → F) (lowest : F) (selected : Option (DeliveryGroup F))
      (gs : List (DeliveryGroup F))
      → Scanned density lowest selected gs (lowest_loop fl density lowest selected gs)
  unfolding lowest_loop
  lowest_loop-Scanned density lowest selected [] = inl (refl, tt)
  lowest_loop-Scanned density lowest selected (x ∷ gs) =
      elim (Bool-cases (fl.lt (density x) lowest)) [
        | inl better ↦ elim (lowest_loop-Scanned density (density x) (some x) gs) [
          | inl (out, rest) ↦
              inr (x, rw better out, Memᴰ.head refl, better, (irreflexive (density x), rest))
          | inr (g, out, m, below, rest) ↦ inr (
            g,
            rw better out,
            Memᴰ.tail m,
            transitive (density g) (density x) lowest below better,
            (not_below (density x) (density g) (density x) below (irreflexive (density x)), rest),
          )
        ]
        | inr worse ↦ elim (lowest_loop-Scanned density lowest selected gs) [
          | inl (out, rest) ↦ inl (rw worse out, (worse, rest))
          | inr (g, out, m, below, rest) ↦ inr (
            g,
            rw worse out,
            Memᴰ.tail m,
            below,
            (not_below (density x) (density g) lowest below worse, rest),
          )
        ]
      ]

  bits_of_full : (conf : F) → fl.le fl.one conf ≡ true → bits_from_confidence fl conf ≡ fl.infinity
  unfolding bits_from_confidence
  bits_of_full conf full = rw full refl

  module _ (i : ShedInput fl)
      (absorbs : (n : ℕ)
        → fl.div (fl.sub fl.infinity (stance_bits fl i.loss_ratio)) (fl.of_ℕ n) ≡ fl.infinity) where
    abbrev density : DeliveryGroup F → F
    density = density_of fl i.meter i.local_ids i.loss_ratio

    density_of_full : (g : DeliveryGroup F) → fl.le fl.one g.score ≡ true → density g ≡ fl.infinity
    unfolding density_of
    density_of_full g full =
        let all_bits : bits_from_confidence fl g.score ≡ fl.infinity = bits_of_full g.score full in
        ap
          (λ b.
            fl.div (fl.sub b (stance_bits fl i.loss_ratio))
              (fl.of_ℕ (cost_of fl i.meter i.local_ids g)))
          all_bits
        ∙ absorbs (cost_of fl i.meter i.local_ids g)

    finite-confidence :
        (g : DeliveryGroup F) → fl.lt (density g) fl.infinity ≡ true → fl.le fl.one g.score ≡ false
    finite-confidence g finite = elim (Bool-cases (fl.le fl.one g.score)) [
      | inl full ↦ absurd (
          cc (
            ap (λ d. fl.lt d fl.infinity) (density_of_full g full),
            finite,
            irreflexive fl.infinity,
          ))
      | inr short ↦ short
    ]

    -- A group that the round may drop: one of the groups, of a finite density and a confidence short
    -- of 1, with none of a lower density.
    pub record IsLowest (groups : List (DeliveryGroup F)) (g : DeliveryGroup F) : Type 0 where
      pub member : Memᴰ g groups
      pub finite : fl.lt (density g) fl.infinity ≡ true
      pub short : fl.le fl.one g.score ≡ false
      pub least : All (λ h. fl.lt (density h) (density g) ≡ false) groups

    -- For an order of the numbers that is irreflexive and transitive, and an infinity that stays
    -- infinity when the stance is subtracted and when it is divided by a count: where the wire does not
    -- fit, a round drops the root ids of a group of lowest density, which is finite, so that a group of
    -- confidence 1 or more is never dropped, and raises the price to that density where it is lower; or
    -- no group has a finite density, and the round fails with the error which says that the fixed share
    -- is too large.
    pub shed_round-IsLowest :
        (st : ShedState fl) (groups : List (DeliveryGroup F))
        → fits i.budget i.effective (wire_total fl i (final_wire fl i groups)) ≡ false
        → ((g : DeliveryGroup F) × IsLowest groups g
            × (shed_round fl i st groups
                ≡ again (record {
                  dropped = add_ids g.root_ids st.dropped;
                  price =
                      if fl.lt st.price (density_of fl i.meter i.local_ids i.loss_ratio g)
                      then density_of fl i.meter i.local_ids i.loss_ratio g
                      else st.price;
                })))
          ⊎ (All
                (λ g. fl.lt (density_of fl i.meter i.local_ids i.loss_ratio g) fl.infinity ≡ false)
                groups
              × (shed_round fl i st groups
                  ≡ finish (err (fixed_overflow (wire_total fl i (final_wire fl i groups))))))
    unfolding shed_round lowest_density_group
    shed_round-IsLowest st groups over =
        elim (lowest_loop-Scanned density fl.infinity none groups) [
          | inl (out, rest) ↦ inr (rest, rw (over, out) refl)
          | inr (g, out, m, finite, least) ↦ inl (
            g,
            record {
              member = m;
              finite = finite;
              short = finite-confidence g finite;
              least = least;
            },
            rw (over, out) refl,
          )
        ]
