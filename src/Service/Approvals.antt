-- ===== src/Service/Approvals.antt =====
-- service/approvals/registry.go: the channels on which runners wait for a verdict or an answer. A
-- channel is a number; its buffer of one place is `none` when it is empty.
pub mod Verdicts
use grudge_ai.Prelude.{
  ℕ, ◌+◌, String, Bool, Option, none, some, List, [], Dict, lookup, insert, erase,
}
use grudge_ai.Service.Runtime.{update}

-- The buffers of the channels of one kind, and the number of the next one.
pub record Channels (A : Type 0) : Type 0 where
  pub buffers : ℕ → Option A
  pub next_channel : ℕ

pub record Approvals : Type 0 where
  pub approvals : Dict ℕ
  pub answers : Dict ℕ
  pub thread_ids : Dict String
  pub verdicts : Channels Bool
  pub texts : Channels String

-- make(chan T, 1)
abbrev pub make_channel : {A : Type 0} → Channels A → Channels A
make_channel c = record {
  buffers = update c.buffers c.next_channel none;
  next_channel = c.next_channel + 1;
}

-- What a send does: there is no channel for the call, it is done, or it blocks on a full buffer.
pub data Sent : Type 0 where
  not_pending : Sent
  sent : Approvals → Sent
  blocks : Sent

unfoldable pub new_approvals : Approvals
new_approvals = record {
  approvals = [];
  answers = [];
  thread_ids = [];
  verdicts = record { buffers = λ i. none; next_channel = 0 };
  texts = record { buffers = λ i. none; next_channel = 0 };
}

-- `RegisterApproval`, with the channel that it returns.
unfoldable pub register_approval : Approvals → String → String → Approvals × ℕ
register_approval r call_id thread_id = (
  record r {
    approvals = insert call_id r.verdicts.next_channel r.approvals;
    thread_ids = insert call_id thread_id r.thread_ids;
    verdicts = make_channel r.verdicts;
  },
  r.verdicts.next_channel,
)

-- The function that `RegisterApproval` returns.
unfoldable pub unregister_approval : Approvals → String → Approvals
unregister_approval r call_id = record r {
  approvals = erase call_id r.approvals;
  thread_ids = erase call_id r.thread_ids;
}

unfoldable pub register_answer : Approvals → String → Approvals × ℕ
register_answer r call_id = (
  record r {
    answers = insert call_id r.texts.next_channel r.answers;
    texts = make_channel r.texts;
  },
  r.texts.next_channel,
)

unfoldable pub unregister_answer : Approvals → String → Approvals
unregister_answer r call_id = record r { answers = erase call_id r.answers }

abbrev pub fill_verdict : Option Bool → Approvals → ℕ → Bool → Sent
fill_verdict none r ch approved = sent (record r {
  verdicts = record r.verdicts { buffers = update r.verdicts.buffers ch (some approved) };
})
fill_verdict (some full) r ch approved = blocks

abbrev pub send_verdict : Option ℕ → Approvals → Bool → Sent
send_verdict none r approved = not_pending
send_verdict (some ch) r approved = fill_verdict (r.verdicts.buffers ch) r ch approved

unfoldable pub send_approval : Approvals → String → Bool → Sent
send_approval r call_id approved = send_verdict (lookup call_id r.approvals) r approved

abbrev pub fill_text : Option String → Approvals → ℕ → String → Sent
fill_text none r ch answer =
    sent (record r { texts = record r.texts { buffers = update r.texts.buffers ch (some answer) } })
fill_text (some full) r ch answer = blocks

abbrev pub send_text : Option ℕ → Approvals → String → Sent
send_text none r answer = not_pending
send_text (some ch) r answer = fill_text (r.texts.buffers ch) r ch answer

unfoldable pub send_answer : Approvals → String → String → Sent
send_answer r call_id answer = send_text (lookup call_id r.answers) r answer

-- The empty text for a missing key.
abbrev pub text_or_empty : Option String → String
text_or_empty none = ""
text_or_empty (some t) = t

unfoldable pub thread_id_for_call : Approvals → String → String
thread_id_for_call r call_id = text_or_empty (lookup call_id r.thread_ids)

-- The receive of a runner empties the buffer of its channel.
unfoldable pub take_verdict : Approvals → ℕ → Approvals
take_verdict r ch = record r {
  verdicts = record r.verdicts { buffers = update r.verdicts.buffers ch none };
}
