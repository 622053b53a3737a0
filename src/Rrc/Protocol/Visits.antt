-- ===== src/Rrc/Protocol/Visits.antt =====
-- What the inner loop of `CloseGroup` does to its three variables.
use grudge_ai.Prelude.{
  String, ◌≡◌, refl, Bool, true, false, Option, none, some, List, [], ◌∷◌, ◌++◌, map, all, All,
  elem, elem-append, append_assoc, append-nil, Result, ok, err, >>=-eq-ok, arith, Bool-cases, inl,
  inr, Memᴰ, subst, ◌∙◌, eq_iff,
}
use grudge_ai.Rrc.Message.{Message, ContentBlock}
use grudge_ai.Rrc.Protocol.{ProtocolIndex, ProtocolError, counterpart, Walk, note, visit_blocks}

abbrev pub ids : List Message → List String
ids = map (λ m. m.id)

-- The counterpart of the block, where it needs one, is found and is among the ids.
abbrev pub settled_by : Result ProtocolError (Option Message) → List String → Bool
settled_by (ok none) seen = true
settled_by (ok (some c)) seen = elem c.id seen
settled_by (err e) seen = false

abbrev pub is_settled : ProtocolIndex → List String → Message → Bool
is_settled p seen m = all (λ b. settled_by (counterpart p m b) seen) m.content

-- One message leads to another through a block.
pub record LeadsTo (p : ProtocolIndex) (bs : List ContentBlock) (m c : Message) : Type 0 where
  pub block : ContentBlock
  pub held : Memᴰ block bs
  pub found : counterpart p m block ≡ ok (some c)

-- The messages that a run of the inner loop adds.
pub record Added (p : ProtocolIndex) (m : Message) (bs : List ContentBlock) (w w' : Walk)
    : Type 0 where
  pub added : List Message
  pub seen : w'.seen ≡ w.seen ++ ids added
  pub queue : w'.queue ≡ w.queue ++ added
  pub messages : w'.messages ≡ w.messages ++ added
  pub led : All (LeadsTo p bs m) added
  pub settled : all (λ b. settled_by (counterpart p m b) w'.seen) bs ≡ true

settled_by-append :
    (r : Result ProtocolError (Option Message)) (xs ys : List String)
    → settled_by r xs ≡ true
    → settled_by r (xs ++ ys) ≡ true
settled_by-append (ok none) xs ys h = refl
settled_by-append (ok (some c)) xs ys h = ground (arith, elem-append c.id xs ys)
settled_by-append (err e) xs ys h = h

pub blocks_settled-append :
    (p : ProtocolIndex) (m : Message) (bs : List ContentBlock) (xs ys : List String)
    → all (λ b. settled_by (counterpart p m b) xs) bs ≡ true
    → all (λ b. settled_by (counterpart p m b) (xs ++ ys)) bs ≡ true
blocks_settled-append p m [] xs ys h = refl
blocks_settled-append p m (b ∷ bs) xs ys h =
    ground (arith, settled_by-append (counterpart p m b) xs ys, blocks_settled-append p m bs xs ys)

weaken :
    (p : ProtocolIndex) (m : Message) (b : ContentBlock) (bs : List ContentBlock)
    (cs : List Message)
    → All (LeadsTo p bs m) cs
    → All (LeadsTo p (b ∷ bs) m) cs
weaken p m b bs [] h = tt
weaken p m b bs (c ∷ cs) h = (
  record { block = h.0.block; held = Memᴰ.tail h.0.held; found = h.0.found },
  weaken p m b bs cs h.1,
)

abbrev pushed : Message → Walk → Walk
pushed c w = record {
  seen = w.seen ++ c.id ∷ [];
  queue = w.queue ++ c ∷ [];
  messages = w.messages ++ c ∷ [];
}

elem_last : (x : String) (xs : List String) → elem x (xs ++ x ∷ []) ≡ true
elem_last x [] = ground (arith, eq_iff x x)
elem_last x (y ∷ ys) = ground (arith, elem_last x ys)

-- One block in front of a run.
module _ (p : ProtocolIndex) (m : Message) (b : ContentBlock) (bs : List ContentBlock)
    (w w' : Walk) where
  Added-skip :
      (r : Result ProtocolError (Option Message))
      → counterpart p m b ≡ r
      → settled_by r w.seen ≡ true
      → Added p m bs w w'
      → Added p m (b ∷ bs) w w'
  Added-skip r e s a = record {
    added = a.added;
    seen = a.seen;
    queue = a.queue;
    messages = a.messages;
    led = weaken p m b bs a.added a.led;
    settled =
        let t : settled_by (counterpart p m b) w'.seen ≡ true =
          rw (e, a.seen) (settled_by-append r w.seen (ids a.added) s) in
        rw (t, a.settled);
  }

  Added-push :
      (c : Message)
      → counterpart p m b ≡ ok (some c)
      → Added p m bs (pushed c w) w'
      → Added p m (b ∷ bs) w w'
  Added-push c e a = record {
    added = c ∷ a.added;
    seen = a.seen ∙ append_assoc w.seen (c.id ∷ []) (ids a.added);
    queue = a.queue ∙ append_assoc w.queue (c ∷ []) a.added;
    messages = a.messages ∙ append_assoc w.messages (c ∷ []) a.added;
    led = (record { block = b; held = Memᴰ.head refl; found = e }, weaken p m b bs a.added a.led);
    settled =
        let t : settled_by (counterpart p m b) w'.seen ≡ true =
          rw (e, a.seen)
            (settled_by-append (ok (some c)) (w.seen ++ c.id ∷ []) (ids a.added)
              (elem_last c.id w.seen)) in
        rw (t, a.settled);
  }

combine :
    (p : ProtocolIndex) (m : Message) (b : ContentBlock) (bs : List ContentBlock) (w w' : Walk)
    (c : Option Message)
    → counterpart p m b ≡ ok c
    → Added p m bs (note c w) w'
    → Added p m (b ∷ bs) w w'
unfolding note
combine p m b bs w w' none e a = Added-skip p m b bs w w' (ok none) e refl a
combine p m b bs w w' (some c) e a = elim (Bool-cases (elem c.id w.seen)) [
  | inl old ↦
      Added-skip p m b bs w w' (ok (some c)) e old (subst (λ v. Added p m bs v w') (rw old) a)
  | inr fresh ↦ Added-push p m b bs w w' c e (subst (λ v. Added p m bs v w') (rw fresh) a)
]

-- A run of the inner loop that succeeds settles every block and adds only what they lead to.
pub visit_blocks-Added :
    (p : ProtocolIndex) (m : Message) (bs : List ContentBlock) (w w' : Walk)
    → visit_blocks p m bs w ≡ ok w'
    → Added p m bs w w'
unfolding visit_blocks
visit_blocks-Added p m [] w w' h = record {
  added = [];
  seen = cc (append-nil w.seen);
  queue = cc (append-nil w.queue);
  messages = cc (append-nil w.messages);
  led = tt;
  settled = refl;
}
visit_blocks-Added p m (b ∷ bs) w w' h =
    let (c, found, rest) = >>=-eq-ok (counterpart p m b) (λ c. visit_blocks p m bs (note c w)) h in
    combine p m b bs w w' c found (visit_blocks-Added p m bs (note c w) w' rest)
