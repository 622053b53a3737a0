-- ===== src/Rrc/Protocol.antt =====
-- rrc/protocol.go: the index of tool calls and results, and the closure of a message under them.
-- `CloseGroup` loops while its queue holds a message; here the loop takes fuel, and
-- `close_group` gives it one round for the root and one for each entry of the index.
pub mod Visits
pub mod Closure
pub mod Order
pub mod Total
use Prim.Native.String.{◌++◌ as concat}
use grudge_ai.Prelude.{
  ℕ, zero, suc, ◌+◌, String, Bool, true, false, not, ◌&&◌, ◌||◌, Option, none, some, List, [], ◌∷◌,
  ◌++◌, map, any, elem, text_eq, Dict, lookup, insert, length, Result, ok, err, ◌>>=◌, sort_stable,
  if◌then◌else◌,
}
use grudge_ai.Rrc.Message.{Message, ContentBlock, thread_position_less}

-- DeliveryGroup, over the type that scores are numbers of.
pub record DeliveryGroup {ℓ} (F : Type ℓ) : Type ℓ where
  pub root_id : String
  pub root_ids : List String
  pub score : F
  pub messages : List Message

pub record ProtocolIndex : Type 0 where
  pub call_by_key : Dict Message
  pub result_by_key : Dict Message
  pub ambiguous : Dict Bool

-- The errors of `CloseGroup`, by the format string of each, with its arguments. A root is a value
-- here, so the check for a nil root has no case. `out_of_fuel` is not an error of the code.
pub data ProtocolError : Type 0 where
  multiple_results : String → String → ProtocolError
  multiple_calls : String → String → ProtocolError
  missing_counterpart : String → String → String → ProtocolError
  out_of_fuel : ProtocolError

unfoldable pub protocol_key : String → String → String
protocol_key thread_id call_id = concat thread_id (concat "\0" call_id)

abbrev pub call_mark : String → String
call_mark key = concat "call\0" key

abbrev pub result_mark : String → String
result_mark key = concat "result\0" key

-- m[key] of a map of flags: false for a missing key.
abbrev pub flag : String → Dict Bool → Bool
flag key m = elim (lookup key m) [ none ↦ false | some b ↦ b ]

-- `prior != nil && prior.Id != m.Id`
abbrev pub taken_by_other : Option Message → Message → Bool
taken_by_other none m = false
taken_by_other (some prior) m = not (text_eq prior.id m.id)

abbrev mark_if : Bool → String → Dict Bool → Dict Bool
mark_if b key m = if b then insert key true m else m

-- The body of the inner loop of `NewProtocolIndex`.
unfoldable pub index_block : Message → ProtocolIndex → ContentBlock → ProtocolIndex
index_block m p (ContentBlock.tool_call id name arguments signature) =
    let key = protocol_key m.thread_id id in
    if text_eq id "" then p else (record p {
      ambiguous = mark_if (taken_by_other (lookup key p.call_by_key) m) (call_mark key) p.ambiguous;
      call_by_key = insert key m p.call_by_key;
    })
index_block m p (ContentBlock.tool_result id content is_error) =
    let key = protocol_key m.thread_id id in
    if text_eq id "" then p else (record p {
      ambiguous =
          mark_if (taken_by_other (lookup key p.result_by_key) m) (result_mark key) p.ambiguous;
      result_by_key = insert key m p.result_by_key;
    })
index_block m p _ = p

unfoldable pub index_blocks : Message → ProtocolIndex → List ContentBlock → ProtocolIndex
index_blocks m p [] = p
index_blocks m p (b ∷ bs) = index_blocks m (index_block m p b) bs

unfoldable pub index_messages : ProtocolIndex → List Message → ProtocolIndex
index_messages p [] = p
index_messages p (m ∷ ms) = index_messages (index_blocks m p m.content) ms

unfoldable pub new_protocol_index : List Message → ProtocolIndex
new_protocol_index corpus =
    index_messages (record { call_by_key = []; result_by_key = []; ambiguous = [] }) corpus

abbrev pub required : Option Message → ProtocolError → Result ProtocolError (Option Message)
required none e = err e
required (some c) e = ok (some c)

-- The switch of the inner loop of `CloseGroup`: the counterpart of a block, or none for a block
-- that needs none.
unfoldable pub counterpart :
    ProtocolIndex → Message → ContentBlock → Result ProtocolError (Option Message)
counterpart p current (ContentBlock.tool_call id name arguments signature) =
    let key = protocol_key current.thread_id id in
    if flag (result_mark key) p.ambiguous
    then err (multiple_results id current.thread_id)
    else required (lookup key p.result_by_key)
        (missing_counterpart current.id "tool result" current.thread_id)
counterpart p current (ContentBlock.tool_result id content is_error) =
    let key = protocol_key current.thread_id id in
    if flag (call_mark key) p.ambiguous
    then err (multiple_calls id current.thread_id)
    else required (lookup key p.call_by_key)
        (missing_counterpart current.id "tool call" current.thread_id)
counterpart p current _ = ok none

-- The three variables of the loop. `seen` holds the keys of the map of that name.
pub record Walk : Type 0 where
  pub seen : List String
  pub queue : List Message
  pub messages : List Message

-- `if !seen[counterpart.Id] { ... }`
unfoldable pub note : Option Message → Walk → Walk
note none w = w
note (some c) w = if elem c.id w.seen then w else (record {
  seen = w.seen ++ c.id ∷ [];
  queue = w.queue ++ c ∷ [];
  messages = w.messages ++ c ∷ [];
})

unfoldable pub visit_blocks :
    ProtocolIndex → Message → List ContentBlock → Walk → Result ProtocolError Walk
visit_blocks p current [] w = ok w
visit_blocks p current (b ∷ bs) w =
    counterpart p current b >>= λ c. visit_blocks p current bs (note c w)

unfoldable pub close_loop :
    ℕ
    → ProtocolIndex
    → List String
    → List Message
    → List Message
    → Result ProtocolError (List Message)
close_loop fuel p seen [] messages = ok messages
close_loop zero p seen (current ∷ queue) messages = err out_of_fuel
close_loop (suc fuel) p seen (current ∷ queue) messages =
    visit_blocks p current current.content
      (record { seen = seen; queue = queue; messages = messages })
    >>= λ w. close_loop fuel p w.seen w.queue w.messages

-- One round for the root and one for each entry of the index.
abbrev pub close_fuel : ProtocolIndex → ℕ
close_fuel p = suc (length p.call_by_key + length p.result_by_key)

unfoldable pub close_group {ℓ} :
    {F : Type ℓ} → ProtocolIndex → Message → F → Result ProtocolError (DeliveryGroup F)
close_group p root score =
    close_loop (close_fuel p) p (root.id ∷ []) (root ∷ []) (root ∷ []) >>= λ messages. ok (record {
      root_id = root.id;
      root_ids = root.id ∷ [];
      score = score;
      messages = sort_stable thread_position_less messages;
    })
