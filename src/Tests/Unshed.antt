-- ===== src/Tests/Unshed.antt =====
-- A group of full confidence and one of none, which do not fit.
use grudge_ai.Prelude.{
  ℕ, ◌≡◌, refl, true, false, List, [], ◌∷◌, All, ◌⊎◌, none, pos, err, ltb, arith, if◌then◌else◌,
  sort_stable,
}
use grudge_ai.Rrc.Detect.{stance_bits, bits_from_confidence}
use grudge_ai.Rrc.Message.{wire_less}
use grudge_ai.Rrc.Protocol.{DeliveryGroup, new_protocol_index}
use grudge_ai.Rrc.Assembly.{
  groups_to_wire, collect_messages, flatten_groups, message_to_llm, wire_tokens, message_tokens,
  lowest_density_group, lowest_loop,
}
use grudge_ai.Rrc.Assemble.{
  finish, again, fixed_overflow, fits, add_ids, density_of, cost_of, final_wire, wire_total,
  ShedInput, ShedState, shed_round,
}
use grudge_ai.Rrc.Assemble.Unshed.{IsLowest, shed_round-IsLowest}
use grudge_ai.Tests.{nat_floats, question, result}

abbrev full_group : DeliveryGroup ℕ
full_group = record { root_id = "m1"; root_ids = "m1" ∷ []; score = 1; messages = question ∷ [] }

abbrev weak_group : DeliveryGroup ℕ
weak_group = record { root_id = "m3"; root_ids = "m3" ∷ []; score = 0; messages = result ∷ [] }

abbrev mixed : List (DeliveryGroup ℕ)
mixed = full_group ∷ weak_group ∷ []

abbrev input : ShedInput nat_floats
input = record {
  meter = record { count_text = λ m. []; estimate = λ s. 3; fixed = 1; delim = 1 };
  budget = pos 2;
  effective = pos 2;
  loss_ratio = 0;
  system = none;
  corpus = ("m1", question) ∷ [];
  index = new_protocol_index [];
  local_ids = [];
  local_wire = [];
  selected = [];
}

abbrev state : ShedState nat_floats
state = record { dropped = []; price = 0 }

ltb_itself : (n : ℕ) → ltb n n ≡ false
ltb_itself n = ground arith

ltb_chain : (a b c : ℕ) → ltb a b ≡ true → ltb b c ≡ true → ltb a c ≡ true
ltb_chain a b c h k = ground (arith, h, k)

absorbs :
    (n : ℕ)
    → nat_floats.div
        (nat_floats.sub nat_floats.infinity (stance_bits nat_floats 0))
        (nat_floats.of_ℕ n)
      ≡ nat_floats.infinity
unfolding stance_bits
absorbs n = refl

over :
    fits input.budget input.effective
      (wire_total nat_floats input (final_wire nat_floats input mixed))
    ≡ false
unfolding wire_total final_wire groups_to_wire collect_messages flatten_groups message_to_llm
    wire_tokens message_tokens wire_less sort_stable
over = refl

-- The weak group is dropped, though the full one stands first.
weak_dropped :
    shed_round nat_floats input state mixed ≡ again (record { dropped = "m3" ∷ []; price = 0 })
unfolding shed_round lowest_density_group lowest_loop density_of cost_of bits_from_confidence
    stance_bits add_ids wire_total final_wire groups_to_wire collect_messages flatten_groups
    message_to_llm wire_tokens message_tokens wire_less sort_stable
weak_dropped = refl

shed_round-IsLowest_example :
    ((g : DeliveryGroup ℕ) × IsLowest nat_floats ltb_itself ltb_chain input absorbs mixed g
      × (shed_round nat_floats input state mixed
          ≡ again (record {
            dropped = add_ids g.root_ids [];
            price =
                if ltb 0 (density_of nat_floats input.meter [] 0 g)
                then density_of nat_floats input.meter [] 0 g
                else 0;
          })))
    ⊎ (All (λ g. ltb (density_of nat_floats input.meter [] 0 g) 1000 ≡ false) mixed
        × (shed_round nat_floats input state mixed
            ≡ finish (
                err (
                  fixed_overflow
                    (wire_total nat_floats input (final_wire nat_floats input mixed))))))
shed_round-IsLowest_example =
    shed_round-IsLowest nat_floats ltb_itself ltb_chain input absorbs state mixed over
