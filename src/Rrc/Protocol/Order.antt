-- ===== src/Rrc/Protocol/Order.antt =====
-- The messages of a delivery group stand in the order of delivery.
use grudge_ai.Prelude.{
  ◌≡◌, ◌≤◌, subst, ◌⊎◌, inl, inr, true, false, >>=-eq-ok, ok, List, [], ◌∷◌, All, All-map, IsSorted,
  sort_stable-IsSorted, text_eq, text_ltb, text_eq_of_ltb, eq_iff, arith, Bool-cases,
}
use grudge_ai.Rrc.Message.{
  Message, thread_position_less, thread_position_less-asym, thread_position_less_trans,
}
use grudge_ai.Rrc.Protocol.{ProtocolIndex, DeliveryGroup, close_loop, close_fuel, close_group}

-- The first message comes before the second: its thread comes first in the order of texts, or it is
-- the same thread and the position is no larger.
abbrev pub ComesBefore : Message → Message → Type 0
ComesBefore a b =
    (text_ltb a.thread_id b.thread_id ≡ true)
    ⊎ ((a.thread_id ≡ b.thread_id) × (a.position ≤ b.position))

-- Every message comes before all that stand after it.
abbrev pub IsInDeliveryOrder : List Message → Type 0
IsInDeliveryOrder [] = Unit
IsInDeliveryOrder (m ∷ ms) = All (ComesBefore m) ms × IsInDeliveryOrder ms

not_less-ComesBefore : (a b : Message) → thread_position_less b a ≡ false → ComesBefore a b
unfolding thread_position_less
not_less-ComesBefore a b h = elim (Bool-cases (text_eq b.thread_id a.thread_id)) [
  | inl same ↦
      let threads = (eq_iff b.thread_id a.thread_id).0 same in
      inr (cc (threads), ground (arith, h, same))
  | inr other ↦ elim (Bool-cases (text_ltb a.thread_id b.thread_id)) [
    | inl first ↦ inl first
    | inr later ↦ absurd (ground (arith, h, other, later, text_eq_of_ltb b.thread_id a.thread_id))
  ]
]

sorted-IsInDeliveryOrder :
    (ms : List Message) → IsSorted thread_position_less ms → IsInDeliveryOrder ms
sorted-IsInDeliveryOrder [] h = tt
sorted-IsInDeliveryOrder (m ∷ ms) h =
    (All-map (not_less-ComesBefore m) ms h.0, sorted-IsInDeliveryOrder ms h.1)

-- The messages of a returned group stand by thread, the threads in the order of their texts, and
-- inside a thread by position, no position after a larger one.
pub close_group-IsInDeliveryOrder {ℓ} :
    {F : Type ℓ} (p : ProtocolIndex) (root : Message) (score : F) {g : DeliveryGroup F}
    → close_group p root score ≡ ok g
    → IsInDeliveryOrder g.messages
unfolding close_group
close_group-IsInDeliveryOrder p root score {g} h =
    let (out, looped, built) =
      >>=-eq-ok (close_loop (close_fuel p) p (root.id ∷ []) (root ∷ []) (root ∷ [])) _ h in
    subst IsInDeliveryOrder (cc) (
      sorted-IsInDeliveryOrder _ (
        sort_stable-IsSorted thread_position_less thread_position_less-asym
          thread_position_less_trans out))
