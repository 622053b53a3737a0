-- ===== src/Rrc/Protocol/Closure.antt =====
-- The messages of a delivery group are the protocol closure of its root.
use grudge_ai.Prelude.{
  ℕ, zero, suc, String, ◌≡◌, refl, sym, ◌∙◌, subst, ap, true, Option, none, some, List, [], ◌∷◌,
  ◌++◌, all, All, All-append, All-right, All-map, All-sort_stable, any-sort_stable, elem,
  append_assoc, append-nil, map-append, text_eq, Result, ok, err, >>=-eq-ok, arith, sort_stable,
  eq_iff,
}
use grudge_ai.Rrc.Message.{Message, ContentBlock, has_id, thread_position_less}
use grudge_ai.Rrc.Protocol.{
  ProtocolIndex, ProtocolError, DeliveryGroup, counterpart, Walk, visit_blocks, close_loop,
  close_fuel, close_group,
}
use grudge_ai.Rrc.Protocol.Visits.{
  ids, settled_by, is_settled, LeadsTo, blocks_settled-append, visit_blocks-Added,
}

-- Messages that a chain of counterparts joins to the root.
pub data Reaches (p : ProtocolIndex) (root : Message) : Message → Type 0 where
  here : Reaches p root root
  next : {m c : Message} → Reaches p root m → LeadsTo p m.content m c → Reaches p root c

-- Every message has the counterpart of each of its blocks among the list's ids.
abbrev pub IsClosed : ProtocolIndex → List Message → Type 0
IsClosed p ms = All (λ m. is_settled p (ids ms) m ≡ true) ms

module _ (p : ProtocolIndex) (root : Message) where
  pub reach-All :
      {m : Message} (cs : List Message)
      → Reaches p root m
      → All (LeadsTo p m.content m) cs
      → All (Reaches p root) cs
  reach-All [] r h = tt
  reach-All (c ∷ cs) r h = (next r h.0, reach-All cs r h.1)

  -- What the loop returns.
  record Closed (start out : List Message) : Type 0 where
    closed : IsClosed p out
    reached : All (Reaches p root) out
    more : List Message
    extends : out ≡ start ++ more

  close_base :
      (seen : List String) (messages done out : List Message)
      → seen ≡ ids messages
      → messages ≡ done ++ []
      → All (λ m. is_settled p seen m ≡ true) done
      → All (Reaches p root) messages
      → messages ≡ out
      → Closed messages out
  close_base seen messages done out s m d r e = subst (Closed messages) e (record {
    closed =
        subst (λ l. All (λ c. is_settled p (ids messages) c ≡ true) l) (sym (m ∙ append-nil done))
          (subst (λ l. All (λ c. is_settled p l c ≡ true) done) s d);
    reached = r;
    more = [];
    extends = sym (append-nil messages);
  })

  close_loop-Closed :
      (fuel : ℕ) (seen : List String) (queue messages done out : List Message)
      → seen ≡ ids messages
      → messages ≡ done ++ queue
      → All (λ m. is_settled p seen m ≡ true) done
      → All (Reaches p root) messages
      → close_loop fuel p seen queue messages ≡ ok out
      → Closed messages out
  unfolding close_loop
  close_loop-Closed zero seen [] messages done out s m d r h =
      close_base seen messages done out s m d r (cc)
  close_loop-Closed (suc fuel) seen [] messages done out s m d r h =
      close_base seen messages done out s m d r (cc)
  close_loop-Closed zero seen (q ∷ queue) messages done out s m d r h = cc
  close_loop-Closed (suc fuel) seen (q ∷ queue) messages done out s m d r h =
      let start : Walk = record { seen = seen; queue = queue; messages = messages } in
      let (w, visited, rest) =
        >>=-eq-ok (visit_blocks p q q.content start)
          (λ w. close_loop fuel p w.seen w.queue w.messages) h in
      let a = visit_blocks-Added p q q.content start w visited in
      let shape : messages ≡ (done ++ q ∷ []) ++ queue =
        m ∙ sym (append_assoc done (q ∷ []) queue) in
      let r' = subst (All (Reaches p root)) m r in
      let rq = (All-right (Reaches p root) done (q ∷ queue) r').0 in
      let c =
        close_loop-Closed fuel w.seen w.queue w.messages (done ++ q ∷ []) out
          (a.seen
            ∙ ap (λ l. l ++ ids a.added) s
            ∙ sym (map-append (λ (c : Message). c.id) messages a.added)
            ∙ ap ids (sym a.messages))
          (a.messages
            ∙ ap (λ l. l ++ a.added) shape
            ∙ append_assoc (done ++ q ∷ []) queue a.added
            ∙ ap (λ l. (done ++ q ∷ []) ++ l) (sym a.queue))
          (All-append (λ c. is_settled p w.seen c ≡ true) done (q ∷ [])
            (subst (λ l. All (λ c. is_settled p l c ≡ true) done) (sym a.seen)
              (All-map (λ c. blocks_settled-append p c c.content seen (ids a.added)) done d))
            (a.settled, tt))
          (subst (All (Reaches p root)) (sym a.messages)
            (All-append (Reaches p root) messages a.added r (reach-All a.added rq a.led)))
          rest in
      record {
        closed = c.closed;
        reached = c.reached;
        more = a.added ++ c.more;
        extends =
            c.extends ∙ ap (λ l. l ++ c.more) a.messages ∙ append_assoc messages a.added c.more;
      }

-- Equal membership carries settledness over.
settled_by-cast :
    (r : Result ProtocolError (Option Message)) (xs ys : List String)
    → ((x : String) → elem x xs ≡ elem x ys)
    → settled_by r xs ≡ true
    → settled_by r ys ≡ true
settled_by-cast (ok none) xs ys e h = refl
settled_by-cast (ok (some c)) xs ys e h = sym (e c.id) ∙ h
settled_by-cast (err x) xs ys e h = h

blocks_settled-cast :
    (p : ProtocolIndex) (m : Message) (bs : List ContentBlock) (xs ys : List String)
    → ((x : String) → elem x xs ≡ elem x ys)
    → all (λ b. settled_by (counterpart p m b) xs) bs ≡ true
    → all (λ b. settled_by (counterpart p m b) ys) bs ≡ true
blocks_settled-cast p m [] xs ys e h = refl
blocks_settled-cast p m (b ∷ bs) xs ys e h =
    ground (arith, settled_by-cast (counterpart p m b) xs ys e, blocks_settled-cast p m bs xs ys e)

pub elem-ids : (x : String) (ms : List Message) → elem x (ids ms) ≡ has_id x ms
elem-ids x [] = refl
elem-ids x (m ∷ ms) = ground (arith, elem-ids x ms)

elem-ids-sort_stable :
    (x : String) (ms : List Message)
    → elem x (ids ms) ≡ elem x (ids (sort_stable thread_position_less ms))
elem-ids-sort_stable x ms =
    elem-ids x ms
    ∙ sym (any-sort_stable thread_position_less (λ m. text_eq m.id x) ms)
    ∙ sym (elem-ids x (sort_stable thread_position_less ms))

-- A group that `close_group` returns holds its root's id, is closed under counterparts, and holds
-- only messages that a chain of counterparts joins to the root: no required message is missing and
-- none is added beside them. Its score and root are those given.
pub close_group-closure {ℓ} :
    {F : Type ℓ} (p : ProtocolIndex) (root : Message) (score : F) {g : DeliveryGroup F}
    → close_group p root score ≡ ok g
    → (has_id root.id g.messages ≡ true)
      × IsClosed p g.messages
      × All (Reaches p root) g.messages
      × (g.root_ids ≡ root.id ∷ [])
      × (g.score ≡ score)
unfolding close_group
close_group-closure p root score {g} h =
    let (out, looped, built) =
      >>=-eq-ok (close_loop (close_fuel p) p (root.id ∷ []) (root ∷ []) (root ∷ [])) _ h in
    let c =
      close_loop-Closed p root (close_fuel p) (root.id ∷ []) (root ∷ []) (root ∷ []) [] out refl
        refl tt (here, tt) looped in
    let e : sort_stable thread_position_less out ≡ g.messages = cc in
    let sorted = sort_stable thread_position_less out in
    (
      subst (λ l. has_id root.id l ≡ true) e
          (any-sort_stable thread_position_less (λ m. text_eq m.id root.id) out
            ∙ subst (λ l. has_id root.id l ≡ true) (sym c.extends)
                (ground (arith, eq_iff root.id root.id))),
      subst (IsClosed p) e (
          All-sort_stable thread_position_less (λ m. is_settled p (ids sorted) m ≡ true) out
            (All-map
              (λ m k.
                blocks_settled-cast p m m.content (ids out) (ids sorted)
                  (λ x. elem-ids-sort_stable x out) k)
              out c.closed)),
      subst (All (Reaches p root)) e
          (All-sort_stable thread_position_less (Reaches p root) out c.reached),
      cc,
      cc,
    )
