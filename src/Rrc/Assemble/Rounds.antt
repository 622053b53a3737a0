-- ===== src/Rrc/Assemble/Rounds.antt =====
-- The rounds of the shed loop: how each ends, and what a round drops.
use grudge_ai.Prelude.{
  ℕ, suc, String, ◌≡◌, refl, ap, subst, true, ◌||◌, Option, none, some, List, [], ◌∷◌, elem, All,
  Result, ok, err, Bool-cases, Option-cases, inl, inr, ◌⊎◌, arith, if◌then◌else◌, eq_iff,
}
use grudge_ai.Rrc.Floats.{Floats}
use grudge_ai.Rrc.Protocol.{DeliveryGroup}
use grudge_ai.Rrc.Assembly.{lowest_loop, lowest_density_group}
use grudge_ai.Rrc.Assemble.{
  AssembleError, fixed_overflow, Round, finish, again, fits, add_ids, selected_groups,
  ordered_groups, density_of, final_wire, wire_total, ShedInput, ShedState, ShedResult, shed_round,
  shed_loop,
}
use grudge_ai.Rrc.Assemble.Groups.{selected_ids}

pub elem-add_ids :
    (x : String) (xs set : List String) → elem x (add_ids xs set) ≡ (elem x xs || elem x set)
unfolding add_ids
elem-add_ids x [] set = refl
elem-add_ids x (y ∷ ys) set =
    ground (arith, elem-add_ids x ys set, elem-add_ids x ys (y ∷ set), eq_iff y x)

module _ (fl : Floats) where
  open fl use {F}

  -- The group that is found is one of the list.
  module _ (P : DeliveryGroup F → Type 0) (density : DeliveryGroup F → F)
      (g : DeliveryGroup F) where
    lowest_loop-All :
        (lowest : F) (selected : Option (DeliveryGroup F)) (gs : List (DeliveryGroup F))
        → ((h : DeliveryGroup F) → selected ≡ some h → P h)
        → All P gs
        → lowest_loop fl density lowest selected gs ≡ some g
        → P g
    unfolding lowest_loop
    lowest_loop-All lowest selected [] start a e = start g e
    lowest_loop-All lowest selected (x ∷ xs) start a e =
        elim (Bool-cases (fl.lt (density x) lowest)) [
          | inl better ↦
              lowest_loop-All (density x) (some x) xs
                (λ h q. let same : x ≡ h = cc in subst P same a.0) a.1 (rw better at e)
          | inr worse ↦ lowest_loop-All lowest selected xs start a.1 (rw worse at e)
        ]

    pub lowest_density_group-All :
        (gs : List (DeliveryGroup F)) → All P gs → lowest_density_group fl gs density ≡ some g → P g
    unfolding lowest_density_group
    lowest_density_group-All gs a e = lowest_loop-All fl.infinity none gs (λ h q. absurd (cc)) a e

  module _ (i : ShedInput fl) where
    abbrev pub ids : List String
    ids = selected_ids i.selected

    -- The state after a group was dropped.
    abbrev pub after_drop : ShedState fl → DeliveryGroup F → ShedState fl
    after_drop st g =
        let d = density_of fl i.meter i.local_ids i.loss_ratio g in
        record {
          dropped = add_ids g.root_ids st.dropped;
          price = if fl.lt st.price d then d else st.price;
        }

    -- The three ways a round ends.
    pub shed_round_ways :
        (st : ShedState fl) (groups : List (DeliveryGroup F))
        → ((out : ShedResult fl) × (shed_round fl i st groups ≡ finish (ok out))
            × (out.delivered ≡ groups)
            × (out.state ≡ st)
            × (out.wire ≡ final_wire fl i groups)
            × (out.total ≡ wire_total fl i out.wire)
            × (fits i.budget i.effective out.total ≡ true))
          ⊎ (((n : ℕ) × (shed_round fl i st groups ≡ finish (err (fixed_overflow n))))
              ⊎ ((g : DeliveryGroup F) × (shed_round fl i st groups ≡ again (after_drop st g))
                  × (lowest_density_group fl groups (density_of fl i.meter i.local_ids i.loss_ratio)
                      ≡ some g)))
    unfolding shed_round
    shed_round_ways st groups =
        let wire = final_wire fl i groups in
        let total = wire_total fl i wire in
        let density = density_of fl i.meter i.local_ids i.loss_ratio in
        elim (Bool-cases (fits i.budget i.effective total)) [
          | inl enough ↦ inl (
            record { delivered = groups; wire = wire; total = total; state = st },
            rw enough,
            refl,
            refl,
            refl,
            refl,
            enough,
          )
          | inr over ↦ elim (Option-cases (lowest_density_group fl groups density)) [
            | inl none_left ↦ inr (inl (total, rw (over, none_left)))
            | inr (g, found) ↦ inr (inr (g, rw (over, found), found))
          ]
        ]

    abbrev follow :
        ℕ
        → Round (Result AssembleError (ShedResult fl)) (ShedState fl)
        → Result AssembleError (ShedResult fl)
    follow fuel (finish r) = r
    follow fuel (again st) = shed_loop fl fuel i st

    abbrev pub collected_in : ShedState fl → Result AssembleError (List (DeliveryGroup F))
    collected_in st = selected_groups fl i.corpus i.index st.dropped i.local_ids i.selected

    pub shed_loop-suc :
        (fuel : ℕ) (st : ShedState fl) (groups : List (DeliveryGroup F))
        (r : Round (Result AssembleError (ShedResult fl)) (ShedState fl))
        → collected_in st ≡ ok groups
        → shed_round fl i st (ordered_groups fl i groups) ≡ r
        → shed_loop fl (suc fuel) i st ≡ follow fuel r
    unfolding shed_loop
    shed_loop-suc fuel st groups r found e = rw found (ap (follow fuel) e)

    pub shed_loop_failed :
        (fuel : ℕ) (st : ShedState fl) (e : AssembleError)
        → collected_in st ≡ err e
        → shed_loop fl (suc fuel) i st ≡ err e
    unfolding shed_loop
    shed_loop_failed fuel st e failed = rw failed refl
