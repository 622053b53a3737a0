-- ===== src/Service/Runtime/Sections.antt =====
-- service/runtime/registry.go: the two critical sections of `GetOrBuild` keep the builds in order.
use grudge_ai.Prelude.{
  ℕ, ◌<◌, String, ◌≡◌, ◌≢◌, refl, sym, ◌∙◌, subst, none, some, lookup, insert, erase, lookup-insert,
  lookup-erase, text_eq, eq_iff, ◌==◌, ==_iff, arith, Bool-cases, Option-cases, inl, inr, Result,
  ok, if◌then◌else◌,
}
use grudge_ai.Service.Runtime.{Pc, update, enter, enter_found, settle, error_of}
use grudge_ai.Service.Runtime.Steps.{System}
use grudge_ai.Service.Runtime.Sound.{IsSound, update_cases, update_here, update_keeps, move-IsSound}

-- A caller that finds neither an entry nor a build becomes the builder.
begin-IsSound :
    (s : System) (i : ℕ) (thread_id : String)
    → s.pc i ≡ Pc.looking thread_id
    → lookup thread_id s.registry.building ≡ none
    → IsSound s
    → IsSound (record {
      registry = (enter_found none none s.registry thread_id).0;
      pc = update s.pc i (enter_found none none s.registry thread_id).1;
    })
begin-IsSound s i thread_id at free h =
    let r = s.registry in
    let now = Pc.constructing thread_id r.next_signal in
    let here : (t : String)
        → lookup t (insert thread_id r.next_signal r.building)
          ≡ (if text_eq thread_id t then some r.next_signal else lookup t r.building) =
      λ t. lookup-insert thread_id t r.next_signal r.building in
    let nobody : (j sig : ℕ) → s.pc j ≢ Pc.constructing thread_id sig =
      λ j sig e. absurd (cc (h.held j thread_id sig e, free)) in
    record {
      fresh = λ t sig e. ground (arith, e, here t, h.fresh t sig);
      unclosed = λ t sig e. elim (Bool-cases (r.next_signal == sig)) [
        | inl new ↦ rw new refl
        | inr known ↦
            rw known (h.unclosed t sig (ground (arith, e, here t, known, ==_iff r.next_signal sig)))
      ];
      apart = λ t u sig e f. elim (Bool-cases (text_eq thread_id t)) [
        | inl same ↦ elim (Bool-cases (text_eq thread_id u)) [
          | inl too ↦ sym ((eq_iff thread_id t).0 same) ∙ (eq_iff thread_id u).0 too
          | inr other ↦ absurd (ground (arith, e, f, here t, here u, same, other, h.fresh u sig))
        ]
        | inr other ↦ elim (Bool-cases (text_eq thread_id u)) [
          | inl too ↦ absurd (ground (arith, e, f, here t, here u, too, other, h.fresh t sig))
          | inr different ↦
              h.apart t u sig (ground (arith, e, here t, other))
                (ground (arith, f, here u, different))
        ]
      ];
      built = λ t sig e. elim (Bool-cases (text_eq thread_id t)) [
        | inl same ↦
            let t_same = (eq_iff thread_id t).0 same in
            let sig_same : r.next_signal ≡ sig = ground (arith, e, here t, same) in
            (i, update_here s.pc i now ∙ cc (t_same, sig_same))
        | inr other ↦
            let b = h.built t sig (ground (arith, e, here t, other)) in
            (
              b.0,
              update_keeps s.pc i now b.0 (Pc.constructing t sig) (λ q. absurd (cc (q, at))) b.1,
            )
      ];
      held = λ j t sig e. elim (update_cases s.pc i now j (Pc.constructing t sig) e) [
        | inl (same, q) ↦
            let t_same : thread_id ≡ t = cc (q) in
            let sig_same : r.next_signal ≡ sig = cc (q) in
            ground (arith, here t, eq_iff thread_id t, t_same, sig_same)
        | inr (other, q) ↦ elim (Bool-cases (text_eq thread_id t)) [
          | inl same ↦ absurd (cc ((eq_iff thread_id t).0 same, h.held j t sig q, free))
          | inr different ↦ ground (arith, here t, different, h.held j t sig q)
        ]
      ];
      single = λ j k t sig sig' e f. elim (update_cases s.pc i now j (Pc.constructing t sig) e) [
        | inl (same, q) ↦ elim (update_cases s.pc i now k (Pc.constructing t sig') f) [
          | inl (too, q') ↦ sym same ∙ too
          | inr (other, q') ↦ absurd (cc (q, h.held k t sig' q', free))
        ]
        | inr (other, q) ↦ elim (update_cases s.pc i now k (Pc.constructing t sig') f) [
          | inl (too, q') ↦ absurd (cc (q', h.held j t sig q, free))
          | inr (different, q') ↦ h.single j k t sig sig' q q'
        ]
      ];
      old = λ j t sig e. elim (update_cases s.pc i now j (Pc.waiting t sig) e) [
        | inl (same, q) ↦ absurd (cc (q))
        | inr (other, q) ↦ omega (arith, h.old j t sig q)
      ];
      waits = λ j t sig e. elim (update_cases s.pc i now j (Pc.waiting t sig) e) [
        | inl (same, q) ↦ absurd (cc (q))
        | inr (other, q) ↦ elim (h.waits j t sig q) [
          | inl there ↦ elim (Bool-cases (text_eq thread_id t)) [
            | inl same ↦ absurd (cc ((eq_iff thread_id t).0 same, there, free))
            | inr different ↦ inl (ground (arith, here t, different, there))
          ]
          | inr (x, shut) ↦
              let below = h.old j t sig q in
              inr (x, ground (arith, shut, below, ==_iff r.next_signal sig))
        ]
      ];
    }

-- The builder ends: its signal is closed, and no other signal is touched.
pub settle-IsSound :
    (s : System) (i : ℕ) (thread_id : String) (sig : ℕ) (result : Result String ℕ)
    → s.pc i ≡ Pc.constructing thread_id sig
    → IsSound s
    → IsSound (record {
      registry = (settle s.registry thread_id sig result).0;
      pc = update s.pc i (settle s.registry thread_id sig result).1;
    })
unfolding settle
settle-IsSound s i thread_id sig result at h =
    let r = s.registry in
    let now = Pc.returned thread_id result in
    let here : (t : String)
        → lookup t (erase thread_id r.building)
          ≡ (if text_eq thread_id t then none else lookup t r.building) =
      λ t. lookup-erase thread_id t r.building in
    record {
      fresh = λ t g e. ground (arith, e, here t, h.fresh t g);
      unclosed = λ t g e. elim (Bool-cases (text_eq thread_id t)) [
        | inl same ↦ absurd (ground (arith, e, here t, same))
        | inr other ↦
            let there : lookup t r.building ≡ some g = ground (arith, e, here t, other) in
            elim (Bool-cases (sig == g)) [
              | inl mine ↦
                  let g_same = (==_iff sig g).0 mine in
                  let its : lookup thread_id r.building ≡ some g =
                    cc (h.held i thread_id sig at, g_same) in
                  absurd (cc ((eq_iff thread_id t).1 (h.apart thread_id t g its there), other))
              | inr others ↦ rw others (h.unclosed t g there)
            ]
      ];
      apart = λ t u g e f. elim (Bool-cases (text_eq thread_id t)) [
        | inl same ↦ absurd (ground (arith, e, here t, same))
        | inr other ↦ elim (Bool-cases (text_eq thread_id u)) [
          | inl too ↦ absurd (ground (arith, f, here u, too))
          | inr different ↦
              h.apart t u g (ground (arith, e, here t, other))
                (ground (arith, f, here u, different))
        ]
      ];
      built = λ t g e. elim (Bool-cases (text_eq thread_id t)) [
        | inl same ↦ absurd (ground (arith, e, here t, same))
        | inr other ↦
            let b = h.built t g (ground (arith, e, here t, other)) in
            (
              b.0,
              update_keeps s.pc i now b.0 (Pc.constructing t g)
                  (λ q.
                    let t_same : thread_id ≡ t = cc (q, at) in
                    absurd (cc ((eq_iff thread_id t).1 t_same, other)))
                  b.1,
            )
      ];
      held = λ j t g e. elim (update_cases s.pc i now j (Pc.constructing t g) e) [
        | inl (same, q) ↦ absurd (cc (q))
        | inr (other, q) ↦ elim (Bool-cases (text_eq thread_id t)) [
          | inl same ↦
              let t_same = (eq_iff thread_id t).0 same in
              let mine : s.pc i ≡ Pc.constructing t sig = cc (at, t_same) in
              let both = h.single i j t sig g mine q in absurd (cc ((==_iff i j).1 both, other))
          | inr different ↦ ground (arith, here t, different, h.held j t g q)
        ]
      ];
      single = λ j k t g g' e f. elim (update_cases s.pc i now j (Pc.constructing t g) e) [
        | inl (same, q) ↦ absurd (cc (q))
        | inr (other, q) ↦ elim (update_cases s.pc i now k (Pc.constructing t g') f) [
          | inl (too, q') ↦ absurd (cc (q'))
          | inr (different, q') ↦ h.single j k t g g' q q'
        ]
      ];
      old = λ j t g e. elim (update_cases s.pc i now j (Pc.waiting t g) e) [
        | inl (same, q) ↦ absurd (cc (q))
        | inr (other, q) ↦ h.old j t g q
      ];
      waits = λ j t g e. elim (update_cases s.pc i now j (Pc.waiting t g) e) [
        | inl (same, q) ↦ absurd (cc (q))
        | inr (other, q) ↦ elim (Bool-cases (sig == g)) [
          | inl mine ↦ inr (error_of result, rw mine refl)
          | inr others ↦ elim (h.waits j t g q) [
            | inl there ↦ elim (Bool-cases (text_eq thread_id t)) [
              | inl same ↦
                  let t_same = (eq_iff thread_id t).0 same in
                  let its : some sig ≡ some g = cc (h.held i thread_id sig at, there, t_same) in
                  let g_same : sig ≡ g = cc (its) in absurd (cc ((==_iff sig g).1 g_same, others))
              | inr different ↦ inl (ground (arith, here t, different, there))
            ]
            | inr (x, shut) ↦ inr (x, rw others shut)
          ]
        ]
      ];
    }

pub enter-IsSound :
    (s : System) (i : ℕ) (thread_id : String)
    → s.pc i ≡ Pc.looking thread_id
    → IsSound s
    → IsSound (record {
      registry = (enter s.registry thread_id).0;
      pc = update s.pc i (enter s.registry thread_id).1;
    })
unfolding enter
enter-IsSound s i thread_id at h = elim (Option-cases (lookup thread_id s.registry.m)) [
  | inr (e, found) ↦ rw found (
      move-IsSound s i (Pc.returned thread_id (ok e)) (λ t sig q. absurd (cc (q, at)))
        (λ t sig q. absurd (cc (q))) (λ t sig q. absurd (cc (q))) h)
  | inl gone ↦ elim (Option-cases (lookup thread_id s.registry.building)) [
    | inr (sig, under_way) ↦
        rw (gone, under_way)
          (move-IsSound s i (Pc.waiting thread_id sig) (λ t g q. absurd (cc (q, at)))
            (λ t g q. absurd (cc (q)))
            (λ t g q. (
              let g_same : sig ≡ g = cc (q) in
                  subst (λ x. x < s.registry.next_signal) g_same (h.fresh thread_id sig under_way),
              let t_same : thread_id ≡ t = cc (q) in
                  let g_same : sig ≡ g = cc (q) in cc (under_way, t_same, g_same),
            ))
            h)
    | inl free ↦ rw (gone, free) (begin-IsSound s i thread_id at free h)
  ]
]
