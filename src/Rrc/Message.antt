-- ===== src/Rrc/Message.antt =====
-- proto/grudge/thread/v1: the messages of a thread, their content blocks, and their order.
use grudge_ai.Prelude.{
  ℕ, String, Bool, true, false, ◌≡◌, List, any, ltb, eq_iff, text_ltb, text_ltb-asym,
  text_ltb_trans, if◌then◌else◌, ◌==◌, arith, text_eq, text_eq_of_ltb,
}

pub data Role : Type 0 where
  unspecified user assistant system : Role

-- The `oneof block`. Texts that the engine cuts or measures, and bytes, are lists of bytes; `unset` is a block whose oneof holds nothing.
pub data ContentBlock : Type 0 where
  text : List ℕ → ContentBlock
  thinking : List ℕ → List ℕ → ContentBlock
  tool_call : String → String → List ℕ → List ℕ → ContentBlock
  tool_result : String → List ℕ → Bool → ContentBlock
  image : String → List ℕ → ContentBlock
  attachment : String → String → String → ℕ → String → List ℕ → ContentBlock
  unset : ContentBlock

pub record Message : Type 0 where
  pub id : String
  pub role : Role
  pub content : List ContentBlock
  pub position : ℕ
  pub thread_id : String
  pub turn_id : String

-- Some message of the list has the id.
abbrev pub has_id : String → List Message → Bool
has_id x = any (λ m. text_eq m.id x)

-- The comparison that `CloseGroup` sorts by: the thread, then the position.
unfoldable pub thread_position_less : Message → Message → Bool
thread_position_less a b =
    if text_eq a.thread_id b.thread_id
    then ltb a.position b.position
    else text_ltb a.thread_id b.thread_id

-- The comparison that `groupsToWire` sorts by: the thread, the position, then the id.
unfoldable pub wire_less : Message → Message → Bool
wire_less a b =
    if text_eq a.thread_id b.thread_id
    then (if a.position == b.position then text_ltb a.id b.id else ltb a.position b.position)
    else text_ltb a.thread_id b.thread_id

pub thread_position_less-asym :
    (a b : Message) → thread_position_less a b ≡ true → thread_position_less b a ≡ false
unfolding thread_position_less
thread_position_less-asym a b h = ground (
  arith,
  eq_iff a.thread_id b.thread_id,
  eq_iff b.thread_id a.thread_id,
  text_ltb-asym a.thread_id b.thread_id,
)

pub thread_position_less_trans :
    (a b c : Message)
    → thread_position_less b a ≡ false
    → thread_position_less c b ≡ false
    → thread_position_less c a ≡ false
unfolding thread_position_less
thread_position_less_trans a b c h k = ground (
  arith,
  eq_iff b.thread_id a.thread_id,
  eq_iff c.thread_id b.thread_id,
  eq_iff c.thread_id a.thread_id,
  text_eq_of_ltb b.thread_id a.thread_id,
  text_eq_of_ltb c.thread_id b.thread_id,
  text_ltb-asym a.thread_id b.thread_id,
  text_ltb-asym b.thread_id c.thread_id,
  text_ltb_trans a.thread_id b.thread_id c.thread_id,
  text_ltb_trans c.thread_id b.thread_id a.thread_id,
)
