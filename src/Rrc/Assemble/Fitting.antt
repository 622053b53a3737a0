-- ===== src/Rrc/Assemble/Fitting.antt =====
-- The first loop of `Assemble`: what stays of Local Context.
use grudge_ai.Prelude.{
  ℕ, zero, suc, ◌+◌, ◌≤◌, ◌<◌, String, ◌≡◌, ◌≢◌, refl, sym, ◌∙◌, ap, subst, true, false, Option,
  List, [], ◌∷◌, filter, elem, length, text_eq, eq_iff, Result, ok, err, ℤ, arith, Bool-cases, inl,
  inr, ◌⊎◌, Result-cases,
}
use grudge_ai.Rrc.Floats.{Floats}
use grudge_ai.Rrc.Message.{Message}
use grudge_ai.Rrc.Protocol.{DeliveryGroup, ProtocolIndex, ProtocolError}
use grudge_ai.Rrc.Assembly.{
  LlmMessage, groups_to_wire, wire_tokens, oldest_unpinned, remove_message, close_roots,
}
use grudge_ai.Rrc.Assemble.{
  AssembleError, Meter, LocalFit, Round, finish, again, protocol, fits, lift_protocol, fit_round,
  fit_local, out_of_fuel, pinned_overflow,
}

abbrev pub pinned_of : List String → List Message → List Message
pinned_of pinned = filter (λ m. elem m.id pinned)

length-remove_message-le :
    (ms : List Message) (id : String) → length (remove_message ms id) ≤ length ms
unfolding remove_message
length-remove_message-le [] id = omega arith
length-remove_message-le (m ∷ ms) id = ground (arith, length-remove_message-le ms id)

-- The message that is dropped is not pinned, and dropping it shortens the list.
oldest_unpinned_drops :
    (local : List Message) (pinned : List String)
    → text_eq (oldest_unpinned local pinned) "" ≡ false
    → (elem (oldest_unpinned local pinned) pinned ≡ false)
      × (length (remove_message local (oldest_unpinned local pinned)) + 1 ≤ length local)
unfolding oldest_unpinned remove_message
oldest_unpinned_drops [] pinned h = absurd (ground (arith, eq_iff "" ""))
oldest_unpinned_drops (m ∷ ms) pinned h = elim (Bool-cases (elem m.id pinned)) [
  | inl kept ↦
      let ih = oldest_unpinned_drops ms pinned (ground arith) in
      ground (arith, ih, length-remove_message-le ms (oldest_unpinned ms pinned))
  | inr free ↦ ground (arith, eq_iff m.id m.id, length-remove_message-le ms m.id)
]

pinned_of-remove_message :
    (pinned : List String) (ms : List Message) (id : String)
    → elem id pinned ≡ false
    → pinned_of pinned (remove_message ms id) ≡ pinned_of pinned ms
unfolding remove_message
pinned_of-remove_message pinned [] id h = refl
pinned_of-remove_message pinned (m ∷ ms) id h =
    ground (arith, pinned_of-remove_message pinned ms id, eq_iff m.id id)

module _ (fl : Floats) where
  open fl use {F}

  -- What is known of a Local Context that the loop returns: its wire is that of its groups, which
  -- are the closures of its messages; it fits; every pinned message of the start is there.
  pub record IsFit (meter : Meter) (budget effective : ℤ) (system : Option LlmMessage)
      (index : ProtocolIndex) (pinned : List String) (local : List Message) (f : LocalFit F)
      : Type 0 where
    pub closed : close_roots fl index f.local ≡ ok f.groups
    pub wired : f.wire ≡ groups_to_wire f.groups []
    pub fitting :
        fits budget effective
          (wire_tokens meter.count_text meter.estimate system [] f.wire meter.fixed meter.delim)
        ≡ true
    pub kept : pinned_of pinned f.local ≡ pinned_of pinned local
    pub shorter : length f.local ≤ length local

  pub lift_protocol-ok :
      {A : Type 0} (r : Result ProtocolError A) (a : A) → lift_protocol r ≡ ok a → r ≡ ok a
  lift_protocol-ok (ok b) a h = cc
  lift_protocol-ok (err e) a h = absurd (cc)

  module _ (meter : Meter) (budget effective : ℤ) (system : Option LlmMessage)
      (index : ProtocolIndex) (pinned : List String) where
    abbrev round :
        List Message
        → List (DeliveryGroup F)
        → Round (Result AssembleError (LocalFit F)) (List Message)
    round local groups = fit_round fl meter budget effective system pinned local groups

    -- The three ways a round ends.
    round-IsFit_or :
        (local : List Message) (groups : List (DeliveryGroup F))
        → close_roots fl index local ≡ ok groups
        → ((f : LocalFit F) × (round local groups ≡ finish (ok f))
            × IsFit meter budget effective system index pinned local f)
          ⊎ (((n : ℕ) × (round local groups ≡ finish (err (pinned_overflow n))))
              ⊎ ((round local groups ≡ again (remove_message local (oldest_unpinned local pinned)))
                  × (text_eq (oldest_unpinned local pinned) "" ≡ false)))
    unfolding fit_round
    round-IsFit_or local groups h =
        let wire = groups_to_wire groups [] in
        let total =
          wire_tokens meter.count_text meter.estimate system [] wire meter.fixed meter.delim in
        elim (Bool-cases (fits budget effective total)) [
          | inl enough ↦ inl (
            record { local = local; groups = groups; wire = wire },
            rw enough,
            record {
              closed = h;
              wired = refl;
              fitting = enough;
              kept = refl;
              shorter = omega arith;
            },
          )
          | inr over ↦ elim (Bool-cases (text_eq (oldest_unpinned local pinned) "")) [
            | inl none_left ↦ inr (inl (total, rw (over, none_left)))
            | inr found ↦ inr (inr (rw (over, found), found))
          ]
        ]

    abbrev after :
        ℕ
        → Round (Result AssembleError (LocalFit F)) (List Message)
        → Result AssembleError (LocalFit F)
    after fuel (finish r) = r
    after fuel (again local) = fit_local fl fuel meter budget effective system index pinned local

    fit_local-suc :
        (fuel : ℕ) (local : List Message) (groups : List (DeliveryGroup F))
        (r : Round (Result AssembleError (LocalFit F)) (List Message))
        → close_roots fl index local ≡ ok groups
        → round local groups ≡ r
        → fit_local fl (suc fuel) meter budget effective system index pinned local ≡ after fuel r
    unfolding fit_local
    fit_local-suc fuel local groups r closed e = rw closed (ap (after fuel) e)

    fit_local-refused :
        (fuel : ℕ) (local : List Message) (e : ProtocolError)
        → close_roots fl index local ≡ err e
        → fit_local fl (suc fuel) meter budget effective system index pinned local
          ≡ err (protocol e)
    unfolding fit_local
    fit_local-refused fuel local e refused = rw refused refl

    -- With a round of fuel for each message of Local Context, and one more, the loop ends. The Local
    -- Context that it returns is no longer than that of the start and has its pinned messages, in
    -- their order; its groups are the closures of its messages, its wire is that of the groups, and
    -- the wire fits the budget.
    pub fit_local-IsFit :
        (fuel : ℕ) (local : List Message)
        → length local < fuel
        → (fit_local fl fuel meter budget effective system index pinned local ≢ err out_of_fuel)
          × ((f : LocalFit F)
              → fit_local fl fuel meter budget effective system index pinned local ≡ ok f
              → IsFit meter budget effective system index pinned local f)
    unfolding fit_local
    fit_local-IsFit zero local h = absurd (omega arith)
    fit_local-IsFit (suc fuel) local h = elim (Result-cases (close_roots fl index local)) [
      | inr (e, refused) ↦
          let r = fit_local-refused fuel local e refused in (λ q. cc, λ f q. absurd (cc))
      | inl (groups, closed) ↦ elim (round-IsFit_or local groups closed) [
        | inl (f, done, fit) ↦
            let r = fit_local-suc fuel local groups (finish (ok f)) closed done in
            (
              λ q. cc,
              λ f' q.
                  let same : f ≡ f' = cc in
                  subst (IsFit meter budget effective system index pinned local) same fit,
            )
        | inr (inl (n, overflow)) ↦
            let r =
              fit_local-suc fuel local groups (finish (err (pinned_overflow n))) closed overflow in
            (λ q. cc, λ f' q. absurd (cc))
        | inr (inr (more, found)) ↦
            let id = oldest_unpinned local pinned in
            let r = fit_local-suc fuel local groups (again (remove_message local id)) closed more in
            let drops = oldest_unpinned_drops local pinned found in
            let ih = fit_local-IsFit fuel (remove_message local id) (omega arith) in
            (
              λ q. ih.0 (sym r ∙ q),
              λ f q.
                  let fit = ih.1 f (sym r ∙ q) in
                  record {
                    closed = fit.closed;
                    wired = fit.wired;
                    fitting = fit.fitting;
                    kept = fit.kept ∙ pinned_of-remove_message pinned local id drops.0;
                    shorter = omega arith;
                  },
            )
      ]
    ]
