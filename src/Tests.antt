-- ===== src/Tests.antt =====
-- Sample data for the tests: a thread with a tool call and its result, an engine with one edge, and
-- the natural numbers in the place of the floating-point numbers.
pub mod Protocol
pub mod Predicate
pub mod Engine
pub mod Text
pub mod TokenScale
pub mod Unshed
pub mod Assemble
pub mod Selection
pub mod Retry
pub mod Provenance
pub mod Runtime
pub mod Approvals
use grudge_ai.Prelude.{
  ℕ, ◌+◌, ◌-◌, ◌*◌, List, [], ◌∷◌, none, some, ltb, leb, pos, pos_part, true, false,
}
use grudge_ai.Rrc.Floats.{Floats}
use grudge_ai.Rrc.Message.{Message, ContentBlock, Role}
use grudge_ai.Rrc.Edge.{Edge, EdgeSource}

abbrev pub nat_floats : Floats
nat_floats = record {
  F = ℕ;
  zero = 0;
  one = 1;
  infinity = 1000;
  lt = ltb;
  le = leb;
  add = λ a b. a + b;
  sub = λ a b. a - b;
  mul = λ a b. a * b;
  div = λ a b. a;
  of_ℕ = λ n. n;
  of_ℤ = pos_part;
  to_ℤ = pos;
  neg = λ a. a;
  log2 = λ a. a;
  exp2 = λ a. a;
  to_float32 = λ a. a;
}

abbrev pub question : Message
question = record {
  id = "m1";
  role = Role.user;
  content = ContentBlock.text (104 ∷ 105 ∷ []) ∷ [];
  position = 0;
  thread_id = "t";
  turn_id = "u1";
}

abbrev pub call : Message
call = record {
  id = "m2";
  role = Role.assistant;
  content = ContentBlock.tool_call "c" "f" [] [] ∷ [];
  position = 1;
  thread_id = "t";
  turn_id = "u1";
}

abbrev pub result : Message
result = record {
  id = "m3";
  role = Role.user;
  content = ContentBlock.tool_result "c" [] false ∷ [];
  position = 2;
  thread_id = "t";
  turn_id = "u1";
}

abbrev pub edge : Edge ℕ
edge = record {
  from_message_id = "m1";
  to_message_id = "m2";
  score = 3;
  source = EdgeSource.cross_encoder;
  cross_encoder_score = 3;
  from_thread_id = "t";
  to_thread_id = "t";
  scorer_model = "s";
}
