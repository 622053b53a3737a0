-- ===== src/Tests/Protocol.antt =====
-- The closure of a tool call, run and put to the theorems.
use grudge_ai.Prelude.{
  ℕ, String, ◌≡◌, ◌≢◌, refl, true, false, not, [], ◌∷◌, All, ok, err, ltb, sort_stable, IsSorted,
}
use grudge_ai.Rrc.Message.{has_id, thread_position_less}
use grudge_ai.Rrc.Protocol.{
  DeliveryGroup, ProtocolIndex, missing_counterpart, out_of_fuel, protocol_key, index_block,
  index_blocks, index_messages, new_protocol_index, counterpart, note, visit_blocks, close_loop,
  close_group,
}
use grudge_ai.Rrc.Protocol.Closure.{close_group-closure, Reaches, IsClosed}
use grudge_ai.Rrc.Protocol.Order.{IsInDeliveryOrder, close_group-IsInDeliveryOrder}
use grudge_ai.Rrc.Protocol.Total.{close_group-Fails, Fails}
use grudge_ai.Tests.{question, call, result}

abbrev pair_index : ProtocolIndex
pair_index = new_protocol_index (question ∷ call ∷ result ∷ [])

abbrev call_index : ProtocolIndex
call_index = new_protocol_index (question ∷ call ∷ [])

abbrev pair : DeliveryGroup ℕ
pair = record { root_id = "m3"; root_ids = "m3" ∷ []; score = 5; messages = call ∷ result ∷ [] }

close_group-result : close_group pair_index result 5 ≡ ok pair
unfolding close_group close_loop visit_blocks note counterpart new_protocol_index index_messages
    index_blocks index_block protocol_key sort_stable thread_position_less grudge_ai.Prelude.lookup
    grudge_ai.Prelude.insert grudge_ai.Prelude.erase
close_group-result = refl

abbrev five : ℕ
five = 5

close_group_missing :
    close_group call_index call five ≡ err (missing_counterpart "m2" "tool result" "t")
unfolding close_group close_loop visit_blocks note counterpart new_protocol_index index_messages
    index_blocks index_block protocol_key sort_stable thread_position_less grudge_ai.Prelude.lookup
    grudge_ai.Prelude.insert grudge_ai.Prelude.erase
close_group_missing = refl

close_group-closure_example :
    (has_id "m3" pair.messages ≡ true)
    × IsClosed pair_index pair.messages
    × All (Reaches pair_index result) pair.messages
    × (pair.root_ids ≡ "m3" ∷ [])
    × (pair.score ≡ 5)
close_group-closure_example = close_group-closure pair_index result 5 close_group-result

close_group-IsInDeliveryOrder_example : IsInDeliveryOrder pair.messages
close_group-IsInDeliveryOrder_example =
    close_group-IsInDeliveryOrder pair_index result 5 close_group-result

close_group-Fails_example :
    Fails call_index call (missing_counterpart "m2" "tool result" "t")
    × (missing_counterpart "m2" "tool result" "t" ≢ out_of_fuel)
close_group-Fails_example =
    close_group-Fails call_index call five (missing_counterpart "m2" "tool result" "t")
      close_group_missing
