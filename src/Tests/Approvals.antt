-- ===== src/Tests/Approvals.antt =====
-- Two calls that wait for a verdict; the first gets one.
use grudge_ai.Prelude.{ℕ, ◌≡◌, ◌≢◌, String, true, false, some, lookup-empty, eq_iff}
use grudge_ai.Service.Approvals.{
  Approvals, sent, blocks, new_approvals, register_approval, send_approval,
}
use grudge_ai.Service.Approvals.Verdicts.{Elsewhere, IsApart, verdict_delivered}

new_approvals-IsApart : IsApart new_approvals
unfolding new_approvals
new_approvals-IsApart = record {
  made = λ c ch e. absurd (cc (e, lookup-empty {V = ℕ} c));
  apart = λ c d ch e f. absurd (cc (e, lookup-empty {V = ℕ} c));
}

abbrev first_waits : Approvals
first_waits = (register_approval new_approvals "a" "t").0

abbrev first_channel : ℕ
first_channel = (register_approval new_approvals "a" "t").1

abbrev both_wait : Approvals
both_wait = (register_approval first_waits "b" "t").0

b_is_not_a : ◌≢◌ {A = String} "b" "a"
b_is_not_a e = let no : false ≡ true = (eq_iff "b" "a").1 e in absurd (cc (no))

verdict_delivered_example :
    (t : Approvals) × (send_approval both_wait "a" true ≡ sent t)
    × ((u : Approvals)
        → Elsewhere "a" first_channel t u
        → (u.verdicts.buffers first_channel ≡ some true) × (send_approval u "a" false ≡ blocks))
verdict_delivered_example =
    verdict_delivered new_approvals "a" "t" both_wait true false new_approvals-IsApart
      (Elsewhere.registers "b" "t" Elsewhere.still b_is_not_a)
