-- ===== src/Rrc/Protocol/Total.antt =====
-- `CloseGroup` ends, and fails only where a required counterpart is missing or ambiguous.
use mathlib.Core.List.Memᴰ as MemD
use grudge_ai.Prelude.{
  ℕ, zero, suc, ◌+◌, ◌≤◌, String, ◌≡◌, ◌≢◌, refl, sym, ◌∙◌, subst, ap, false, Option, none, some,
  List, [], ◌∷◌, ◌++◌, All, All-append, Memᴰ, length, length-append, length-map, entries,
  lookup-mem, elem, elem-append, Result, ok, err, >>=-eq-ok, >>=-eq-err, inl, inr, arith,
  if◌then◌else◌, eq_iff,
}
use grudge_ai.Rrc.Message.{Message, ContentBlock}
use grudge_ai.Rrc.Protocol.{
  ProtocolIndex, ProtocolError, counterpart, Walk, note, visit_blocks, close_loop, close_fuel,
  close_group, out_of_fuel, protocol_key,
}
use grudge_ai.Rrc.Protocol.Visits.{visit_blocks-Added}
use grudge_ai.Rrc.Protocol.Closure.{Reaches, here, reach-All}

abbrev targets : ProtocolIndex → List Message
targets p = entries p.call_by_key ++ entries p.result_by_key

-- How many entries of the index the walk has not seen.
unseen : List String → List Message → ℕ
unseen seen [] = 0
unseen seen (m ∷ ms) = (if elem m.id seen then 0 else 1) + unseen seen ms

unseen-append-le :
    (seen : List String) (x : String) (ms : List Message)
    → unseen (seen ++ x ∷ []) ms ≤ unseen seen ms
unfolding unseen
unseen-append-le seen x [] = omega arith
unseen-append-le seen x (m ∷ ms) =
    ground (arith, elem-append m.id seen (x ∷ []), unseen-append-le seen x ms)

unseen-append-lt :
    (seen : List String) (c : Message) (ms : List Message)
    → Memᴰ c ms
    → elem c.id seen ≡ false
    → unseen (seen ++ c.id ∷ []) ms + 1 ≤ unseen seen ms
unfolding unseen
unseen-append-lt seen c [] m h = elim m [ ]
unseen-append-lt seen c (d ∷ ms) (Memᴰ.head e) h = ground (
  arith,
  ap (λ (k : Message). k.id) e,
  elem-append d.id seen (c.id ∷ []),
  eq_iff c.id d.id,
  unseen-append-le seen c.id ms,
)
unseen-append-lt seen c (d ∷ ms) (Memᴰ.tail m) h =
    ground (arith, elem-append d.id seen (c.id ∷ []), unseen-append-lt seen c ms m h)

unseen-le-length : (seen : List String) (ms : List Message) → unseen seen ms ≤ length ms
unfolding unseen
unseen-le-length seen [] = omega arith
unseen-le-length seen (m ∷ ms) = ground (arith, unseen-le-length seen ms)

counterpart-mem :
    (p : ProtocolIndex) (m : Message) (b : ContentBlock) (c : Message)
    → counterpart p m b ≡ ok (some c)
    → Memᴰ c (targets p)
unfolding counterpart
counterpart-mem p m (ContentBlock.tool_call id name arguments signature) c h =
    MemD.append_right (entries p.call_by_key)
      (lookup-mem (protocol_key m.thread_id id) p.result_by_key c (ground arith))
counterpart-mem p m (ContentBlock.tool_result id content is_error) c h =
    MemD.append_left (entries p.result_by_key)
      (lookup-mem (protocol_key m.thread_id id) p.call_by_key c (ground arith))
counterpart-mem p m _ c h = absurd (ground arith)

counterpart-ne-out_of_fuel :
    (p : ProtocolIndex) (m : Message) (b : ContentBlock) → counterpart p m b ≢ err out_of_fuel
unfolding counterpart
counterpart-ne-out_of_fuel p m (ContentBlock.tool_call id name arguments signature) = ground arith
counterpart-ne-out_of_fuel p m (ContentBlock.tool_result id content is_error) = ground arith
counterpart-ne-out_of_fuel p m _ = ground arith

-- The work left: what is queued and what is unseen.
abbrev left : ProtocolIndex → Walk → ℕ
left p w = length w.queue + unseen w.seen (targets p)

note-left :
    (p : ProtocolIndex) (m : Message) (b : ContentBlock) (r : Option Message) (w : Walk)
    → counterpart p m b ≡ ok r
    → left p (note r w) ≤ left p w
unfolding note
note-left p m b none w h = omega arith
note-left p m b (some c) w h = ground (
  arith,
  counterpart-mem p m b c h,
  unseen-append-lt w.seen c (targets p) (counterpart-mem p m b c h),
  length-append w.queue (c ∷ []),
)

visit_blocks-left :
    (p : ProtocolIndex) (m : Message) (bs : List ContentBlock) (w w' : Walk)
    → visit_blocks p m bs w ≡ ok w'
    → left p w' ≤ left p w
unfolding visit_blocks
visit_blocks-left p m [] w w' h = ground arith
visit_blocks-left p m (b ∷ bs) w w' h =
    let (c, found, rest) = >>=-eq-ok (counterpart p m b) (λ c. visit_blocks p m bs (note c w)) h in
    omega (arith, note-left p m b c w found, visit_blocks-left p m bs (note c w) w' rest)

-- A block of the message has no counterpart to send with it.
record Broken (p : ProtocolIndex) (bs : List ContentBlock) (m : Message) (e : ProtocolError)
    : Type 0 where
  pub block : ContentBlock
  pub held : Memᴰ block bs
  pub fails : counterpart p m block ≡ err e

visit_blocks-Broken :
    (p : ProtocolIndex) (m : Message) (bs : List ContentBlock) (w : Walk) (e : ProtocolError)
    → visit_blocks p m bs w ≡ err e
    → Broken p bs m e
unfolding visit_blocks
visit_blocks-Broken p m [] w e h = absurd (cc)
visit_blocks-Broken p m (b ∷ bs) w e h =
    elim (>>=-eq-err (counterpart p m b) (λ c. visit_blocks p m bs (note c w)) h) [
      | inl now ↦ record { block = b; held = Memᴰ.head refl; fails = now }
      | inr (c, found, rest) ↦
          let l = visit_blocks-Broken p m bs (note c w) e rest in
          record { block = l.block; held = Memᴰ.tail l.held; fails = l.fails }
    ]

-- Some message that a chain of counterparts joins to the root has a block of which the counterpart
-- is missing or ambiguous.
pub record Fails (p : ProtocolIndex) (root : Message) (e : ProtocolError) : Type 0 where
  pub message : Message
  pub reached : Reaches p root message
  pub block : ContentBlock
  pub held : Memᴰ block message.content
  pub fails : counterpart p message block ≡ err e

module _ (p : ProtocolIndex) (root : Message) where
  close_loop-Fails :
      (fuel : ℕ) (seen : List String) (queue messages : List Message) (e : ProtocolError)
      → length queue + unseen seen (targets p) ≤ fuel
      → All (Reaches p root) queue
      → close_loop fuel p seen queue messages ≡ err e
      → Fails p root e
  unfolding close_loop
  close_loop-Fails zero seen [] messages e f r h = absurd (cc)
  close_loop-Fails (suc fuel) seen [] messages e f r h = absurd (cc)
  close_loop-Fails zero seen (q ∷ queue) messages e f r h = absurd (omega arith)
  close_loop-Fails (suc fuel) seen (q ∷ queue) messages e f r h =
      let start : Walk = record { seen = seen; queue = queue; messages = messages } in
      elim (>>=-eq-err (visit_blocks p q q.content start)
        (λ w. close_loop fuel p w.seen w.queue w.messages) h) [
          | inl now ↦
              let b = visit_blocks-Broken p q q.content start e now in
              record { message = q; reached = r.0; block = b.block; held = b.held; fails = b.fails }
          | inr (w, visited, rest) ↦
              let a = visit_blocks-Added p q q.content start w visited in
              close_loop-Fails fuel w.seen w.queue w.messages e
                (omega (arith, visit_blocks-left p q q.content start w visited))
                (subst (All (Reaches p root)) (sym a.queue) (
                  All-append (Reaches p root) queue a.added r.1
                    (reach-All p root a.added r.0 a.led)))
                rest
        ]

  -- An error of `close_group` is that of a block of a message in the closure of the root, of which
  -- the counterpart is missing or ambiguous: the fuel never runs out.
  pub close_group-Fails {ℓ} :
      {F : Type ℓ} (score : F) (e : ProtocolError)
      → close_group p root score ≡ err e
      → Fails p root e × (e ≢ out_of_fuel)
  unfolding close_group
  close_group-Fails score e h =
      let start = root.id ∷ [] in
      let fits : 1 + unseen start (targets p) ≤ close_fuel p = omega (
        arith,
        unseen-le-length start (targets p),
        length-append (entries p.call_by_key) (entries p.result_by_key),
        length-map (λ (x : String × Message). x.1) p.call_by_key,
        length-map (λ (x : String × Message). x.1) p.result_by_key,
      ) in
      let failed : Fails p root e =
        elim (>>=-eq-err (close_loop (close_fuel p) p start (root ∷ []) (root ∷ [])) _ h) [
          | inl now ↦
              close_loop-Fails (close_fuel p) start (root ∷ []) (root ∷ []) e fits (here, tt) now
          | inr (a, found, rest) ↦ absurd (cc)
        ] in
      (
        failed,
        λ k.
            counterpart-ne-out_of_fuel p failed.message failed.block
              (failed.fails ∙ ap Result.err k),
      )
