-- ===== src/Service/Approvals/Verdicts.antt =====
-- service/approvals/registry.go: a verdict comes to the runner that waits for it.
use grudge_ai.Prelude.{
  ℕ, ◌<◌, String, ◌≡◌, ◌≢◌, sym, ◌∙◌, ap, subst, Bool, false, Option, none, some, lookup, insert,
  lookup-insert, lookup-erase, text_eq, eq_iff, ◌==◌, ==_iff, arith, Bool-cases, Option-cases, inl,
  inr, if◌then◌else◌,
}
use grudge_ai.Service.Runtime.{update}
use grudge_ai.Service.Approvals.{
  Approvals, sent, blocks, register_approval, unregister_approval, send_verdict, fill_verdict,
  send_approval, take_verdict,
}

-- What happens to the approvals other than by the calls of `call_id` and its channel.
pub data Elsewhere (call_id : String) (ch : ℕ) (r : Approvals) : Approvals → Type 0 where
  still : Elsewhere call_id ch r r
  registers :
      {s : Approvals} (other thread_id : String)
      → Elsewhere call_id ch r s
      → other ≢ call_id
      → Elsewhere call_id ch r (register_approval s other thread_id).0
  unregisters :
      {s : Approvals} (other : String)
      → Elsewhere call_id ch r s
      → other ≢ call_id
      → Elsewhere call_id ch r (unregister_approval s other)
  sends :
      {s t : Approvals} (other : String) (approved : Bool)
      → Elsewhere call_id ch r s
      → other ≢ call_id
      → send_approval s other approved ≡ sent t
      → Elsewhere call_id ch r t
  takes :
      {s : Approvals} (own : ℕ)
      → Elsewhere call_id ch r s
      → own ≢ ch
      → Elsewhere call_id ch r (take_verdict s own)

-- Each channel in the map is made, and belongs to one call.
pub record IsApart (r : Approvals) : Type 0 where
  pub made : (c : String) (ch : ℕ) → lookup c r.approvals ≡ some ch → ch < r.verdicts.next_channel
  pub apart :
      (c d : String) (ch : ℕ)
      → lookup c r.approvals ≡ some ch
      → lookup d r.approvals ≡ some ch
      → c ≡ d

-- The call waits on this channel, which holds this much.
abbrev pub Holds : Approvals → String → ℕ → Option Bool → Type 0
Holds r call_id ch v = (lookup call_id r.approvals ≡ some ch) × (r.verdicts.buffers ch ≡ v)

register-IsApart : (r : Approvals) (c t : String) → IsApart r → IsApart (register_approval r c t).0
unfolding register_approval
register-IsApart r c t h =
    let n = r.verdicts.next_channel in
    let here : (x : String)
        → lookup x (insert c n r.approvals)
          ≡ (if text_eq c x then some n else lookup x r.approvals) =
      λ x. lookup-insert c x n r.approvals in
    record {
      made = λ x ch e. ground (arith, e, here x, h.made x ch);
      apart = λ x y ch e f. elim (Bool-cases (text_eq c x)) [
        | inl same ↦ elim (Bool-cases (text_eq c y)) [
          | inl too ↦ sym ((eq_iff c x).0 same) ∙ (eq_iff c y).0 too
          | inr other ↦ absurd (ground (arith, e, f, here x, here y, same, other, h.made y ch))
        ]
        | inr other ↦ elim (Bool-cases (text_eq c y)) [
          | inl too ↦ absurd (ground (arith, e, f, here x, here y, too, other, h.made x ch))
          | inr different ↦
              h.apart x y ch (ground (arith, e, here x, other))
                (ground (arith, f, here y, different))
        ]
      ];
    }

unregister-IsApart : (r : Approvals) (c : String) → IsApart r → IsApart (unregister_approval r c)
unfolding unregister_approval
unregister-IsApart r c h = record {
  made = λ x ch e. h.made x ch (ground (arith, e, lookup-erase c x r.approvals));
  apart = λ x y ch e f.
      h.apart x y ch (ground (arith, e, lookup-erase c x r.approvals))
        (ground (arith, f, lookup-erase c y r.approvals));
}

-- A send that is done fills the empty buffer of the channel of its call.
send-fills :
    (r t : Approvals) (c : String) (v : Bool)
    → send_approval r c v ≡ sent t
    → (ch : ℕ) × (lookup c r.approvals ≡ some ch)
      × (t ≡ record r {
        verdicts = record r.verdicts { buffers = update r.verdicts.buffers ch (some v) };
      })
unfolding send_approval
send-fills r t c v h = elim (Option-cases (lookup c r.approvals)) [
  | inl nobody ↦ absurd (cc (ap (λ o. send_verdict o r v) nobody, h))
  | inr (ch, found) ↦
      let there = sym (ap (λ o. send_verdict o r v) found) ∙ h in
      elim (Option-cases (r.verdicts.buffers ch)) [
        | inr (x, full) ↦ absurd (cc (ap (λ b. fill_verdict b r ch v) full, there))
        | inl empty ↦
            let done = sym (ap (λ b. fill_verdict b r ch v) empty) ∙ there in
            (ch, found, sent-injective _ t done)
      ]
]
  where
    sent-injective : (a b : Approvals) → sent a ≡ sent b → b ≡ a
    sent-injective a b e = cc (e)

-- What the call waits on, with its buffer, after steps elsewhere.
record IsKept (call_id : String) (ch : ℕ) (v : Option Bool) (r : Approvals) : Type 0 where
  pub calls : IsApart r
  pub holds : Holds r call_id ch v
  pub known : ch < r.verdicts.next_channel

Elsewhere-IsKept :
    (call_id : String) (ch : ℕ) (v : Option Bool) (r s : Approvals)
    → IsKept call_id ch v r
    → Elsewhere call_id ch r s
    → IsKept call_id ch v s
unfolding register_approval unregister_approval take_verdict
Elsewhere-IsKept call_id ch v r _ h Elsewhere.still = h
Elsewhere-IsKept call_id ch v r _ h (Elsewhere.registers {s} other thread_id before apart) =
    let k = Elsewhere-IsKept call_id ch v r s h before in
    record {
      calls = register-IsApart s other thread_id k.calls;
      holds = (
        ground (
          arith,
          k.holds.0,
          lookup-insert other call_id s.verdicts.next_channel s.approvals,
          apart,
          eq_iff other call_id,
        ),
        ground (arith, k.holds.1, k.known, ==_iff s.verdicts.next_channel ch),
      );
      known = omega (arith, k.known);
    }
Elsewhere-IsKept call_id ch v r _ h (Elsewhere.unregisters {s} other before apart) =
    let k = Elsewhere-IsKept call_id ch v r s h before in
    record {
      calls = unregister-IsApart s other k.calls;
      holds = (
        ground
            (arith, k.holds.0, lookup-erase other call_id s.approvals, apart, eq_iff other call_id),
        k.holds.1,
      );
      known = k.known;
    }
Elsewhere-IsKept call_id ch v r t h (Elsewhere.sends {s} other approved before apart done) =
    let k = Elsewhere-IsKept call_id ch v r s h before in
    let filled = send-fills s t other approved done in
    let elsewhere : (filled.0 == ch) ≡ false = elim (Bool-cases (filled.0 == ch)) [
      | inl same ↦
          let its : lookup other s.approvals ≡ some ch =
            filled.1 ∙ ap some ((==_iff filled.0 ch).0 same) in
          absurd (apart (k.calls.apart other call_id ch its k.holds.0))
      | inr differs ↦ differs
    ] in
    subst (IsKept call_id ch v) (sym filled.2) (record {
      calls = record { made = k.calls.made; apart = k.calls.apart };
      holds = (k.holds.0, rw elsewhere k.holds.1);
      known = k.known;
    })
Elsewhere-IsKept call_id ch v r _ h (Elsewhere.takes {s} own before apart) =
    let k = Elsewhere-IsKept call_id ch v r s h before in
    record {
      calls = record { made = k.calls.made; apart = k.calls.apart };
      holds = (k.holds.0, ground (arith, k.holds.1, apart, ==_iff own ch));
      known = k.known;
    }

registered-IsKept :
    (r : Approvals) (call_id thread_id : String)
    → IsApart r
    → IsKept call_id
        (register_approval r call_id thread_id).1
        none
        (register_approval r call_id thread_id).0
unfolding register_approval
registered-IsKept r call_id thread_id h = record {
  calls = register-IsApart r call_id thread_id h;
  holds = (
    ground (
      arith,
      lookup-insert call_id call_id r.verdicts.next_channel r.approvals,
      eq_iff call_id call_id,
    ),
    ground (arith, ==_iff r.verdicts.next_channel r.verdicts.next_channel),
  );
  known = omega arith;
}

-- A send to a call whose buffer is empty is done, and leaves the verdict there.
send-done :
    (r : Approvals) (call_id : String) (ch : ℕ) (v : Bool)
    → IsKept call_id ch none r
    → (s : Approvals) × (send_approval r call_id v ≡ sent s) × IsKept call_id ch (some v) s
unfolding send_approval
send-done r call_id ch v k = (
  record r { verdicts = record r.verdicts { buffers = update r.verdicts.buffers ch (some v) } },
  ap (λ o. send_verdict o r v) k.holds.0 ∙ ap (λ b. fill_verdict b r ch v) k.holds.1,
  record {
    calls = record { made = k.calls.made; apart = k.calls.apart };
    holds = (k.holds.0, ground (arith, ==_iff ch ch));
    known = k.known;
  },
)

-- A send to a call whose buffer is full blocks.
send-blocks :
    (r : Approvals) (call_id : String) (ch : ℕ) (v w : Bool)
    → IsKept call_id ch (some v) r
    → send_approval r call_id w ≡ blocks
unfolding send_approval
send-blocks r call_id ch v w k =
    ap (λ o. send_verdict o r w) k.holds.0 ∙ ap (λ b. fill_verdict b r ch w) k.holds.1

-- A verdict comes through whatever happens elsewhere. Where no two calls share a channel: after a call
-- registers, and other calls register, unregister, send and receive in any order, a verdict for it is
-- sent without blocking; and after any more of that its channel still holds just this verdict, while
-- a second verdict for it blocks until the first is taken.
pub verdict_delivered :
    (r : Approvals) (call_id thread_id : String) (s : Approvals) (v w : Bool)
    → IsApart r
    → Elsewhere call_id
        (register_approval r call_id thread_id).1
        (register_approval r call_id thread_id).0
        s
    → (t : Approvals) × (send_approval s call_id v ≡ sent t)
      × ((u : Approvals)
          → Elsewhere call_id (register_approval r call_id thread_id).1 t u
          → (u.verdicts.buffers (register_approval r call_id thread_id).1 ≡ some v)
            × (send_approval u call_id w ≡ blocks))
verdict_delivered r call_id thread_id s v w apart before =
    let ch = (register_approval r call_id thread_id).1 in
    let start = registered-IsKept r call_id thread_id apart in
    let waits =
      Elsewhere-IsKept call_id ch none (register_approval r call_id thread_id).0 s start before in
    let done = send-done s call_id ch v waits in
    (
      done.0,
      done.1,
      λ u after.
          let full = Elsewhere-IsKept call_id ch (some v) done.0 u done.2 after in
          (full.holds.1, send-blocks u call_id ch v w full),
    )
