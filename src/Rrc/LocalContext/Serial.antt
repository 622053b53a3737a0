-- ===== src/Rrc/LocalContext/Serial.antt =====
-- The serialization of Local Context.
use grudge_ai.Prelude.{
  ℕ, suc, ◌+◌, String, ◌≡◌, ◌≢◌, refl, sym, subst, ◌∙◌, Bool, true, false, not, none, some, List,
  [], ◌∷◌, ◌++◌, length, if◌then◌else◌, arith, All, All-append, All-map, Memᴰ, Bool-cases, inl, inr,
  ◌⊎◌, ◌↔◌, all,
}
use grudge_ai.Rrc.Message.{Message, ContentBlock}
use grudge_ai.Rrc.Chunk.{Config, Chunk, split, is_empty}
use grudge_ai.Rrc.LocalContext.Bytes.{utf8}
use grudge_ai.Rrc.LocalContext.{
  role_label, SerializedLocalContextChunk, SerializedLocalContext, serialize_semantic_message,
  number_chunks, whole_if_none, is_query_message, serialize_messages, message_ids_of,
  serialize_local_context, built, has_semantic_block, semantic_body,
}

-- The indices count up from `n`.
abbrev pub IsNumbered : ℕ → List SerializedLocalContextChunk → Type 0
IsNumbered n [] = Unit
IsNumbered n (c ∷ cs) = (c.index ≡ n) × IsNumbered (suc n) cs

-- The chunk is one message's text, whole or one of its pieces, and the message is one that the
-- query is made of.
pub record IsFrom (cfg : Config) (turn_id : String) (local : List Message)
    (c : SerializedLocalContextChunk) : Type 0 where
  pub message : Message
  pub held : Memᴰ message local
  pub queried : is_query_message turn_id message ≡ true
  pub cut :
      (c.text ≡ serialize_semantic_message message)
      ⊎ ((piece : Chunk) × Memᴰ piece (split (serialize_semantic_message message) cfg)
          × (c.text ≡ piece.text))

number_chunks-IsNumbered : (n : ℕ) (cs : List Chunk) → IsNumbered n (number_chunks n cs)
unfolding number_chunks
number_chunks-IsNumbered n [] = tt
number_chunks-IsNumbered n (c ∷ cs) = (refl, number_chunks-IsNumbered (suc n) cs)

whole-IsNumbered :
    (n : ℕ) (text : List ℕ) (cs : List Chunk) → IsNumbered n (whole_if_none n text cs)
whole-IsNumbered n text [] = (refl, tt)
whole-IsNumbered n text (c ∷ cs) = number_chunks-IsNumbered n (c ∷ cs)

IsNumbered-append :
    (n : ℕ) (xs ys : List SerializedLocalContextChunk)
    → IsNumbered n xs
    → IsNumbered (n + length xs) ys
    → IsNumbered n (xs ++ ys)
IsNumbered-append n [] ys h k = subst (λ m. IsNumbered m ys) (omega arith) k
IsNumbered-append n (x ∷ xs) ys h k =
    (h.0, IsNumbered-append (suc n) xs ys h.1 (subst (λ m. IsNumbered m ys) (omega arith) k))

pub serialize_messages-IsNumbered :
    (cfg : Config) (turn_id : String) (n : ℕ) (ms : List Message)
    → IsNumbered n (serialize_messages cfg turn_id n ms)
unfolding serialize_messages
serialize_messages-IsNumbered cfg turn_id n [] = tt
serialize_messages-IsNumbered cfg turn_id n (m ∷ ms) =
    let text = serialize_semantic_message m in
    let here = if is_query_message turn_id m then whole_if_none n text (split text cfg) else [] in
    IsNumbered-append n here (serialize_messages cfg turn_id (n + length here) ms)
      (numbered (is_query_message turn_id m) text)
      (serialize_messages-IsNumbered cfg turn_id (n + length here) ms)
  where
    numbered :
        (b : Bool) (text : List ℕ)
        → IsNumbered n (if b then whole_if_none n text (split text cfg) else [])
    numbered true text = whole-IsNumbered n text (split text cfg)
    numbered false text = tt

-- What a list of pieces gives, wherever it stands.
number_chunks-from :
    (n : ℕ) (cs : List Chunk)
    → All
        (λ (c : SerializedLocalContextChunk).
          (piece : Chunk) × Memᴰ piece cs × (c.text ≡ piece.text))
        (number_chunks n cs)
unfolding number_chunks
number_chunks-from n [] = tt
number_chunks-from n (c ∷ cs) = (
  (c, Memᴰ.head refl, refl),
  All-map (λ (x : SerializedLocalContextChunk) h. (h.0, Memᴰ.tail h.1, h.2))
      (number_chunks (suc n) cs) (number_chunks-from (suc n) cs),
)

whole-IsFrom :
    (cfg : Config) (turn_id : String) (n : ℕ) (m : Message) (ms : List Message) (cs : List Chunk)
    → is_query_message turn_id m ≡ true
    → split (serialize_semantic_message m) cfg ≡ cs
    → All (IsFrom cfg turn_id (m ∷ ms)) (whole_if_none n (serialize_semantic_message m) cs)
whole-IsFrom cfg turn_id n m ms [] q e =
    (record { message = m; held = Memᴰ.head refl; queried = q; cut = inl refl }, tt)
whole-IsFrom cfg turn_id n m ms (c ∷ cs) q e =
    All-map
      (λ (x : SerializedLocalContextChunk) h. record {
        message = m;
        held = Memᴰ.head refl;
        queried = q;
        cut = inr (h.0, subst (Memᴰ h.0) (sym e) h.1, h.2);
      })
      (number_chunks n (c ∷ cs)) (number_chunks-from n (c ∷ cs))

IsFrom-tail :
    (cfg : Config) (turn_id : String) (m : Message) (ms : List Message)
    (cs : List SerializedLocalContextChunk)
    → All (IsFrom cfg turn_id ms) cs
    → All (IsFrom cfg turn_id (m ∷ ms)) cs
IsFrom-tail cfg turn_id m ms cs h =
    All-map
      (λ (x : SerializedLocalContextChunk) k. record {
        message = k.message;
        held = Memᴰ.tail k.held;
        queried = k.queried;
        cut = k.cut;
      })
      cs h

pub serialize_messages-IsFrom :
    (cfg : Config) (turn_id : String) (n : ℕ) (ms : List Message)
    → All (IsFrom cfg turn_id ms) (serialize_messages cfg turn_id n ms)
unfolding serialize_messages
serialize_messages-IsFrom cfg turn_id n [] = tt
serialize_messages-IsFrom cfg turn_id n (m ∷ ms) =
    let text = serialize_semantic_message m in
    let here = if is_query_message turn_id m then whole_if_none n text (split text cfg) else [] in
    All-append (IsFrom cfg turn_id (m ∷ ms)) here
      (serialize_messages cfg turn_id (n + length here) ms)
      (from_here (is_query_message turn_id m) refl)
      (IsFrom-tail cfg turn_id m ms (serialize_messages cfg turn_id (n + length here) ms)
        (serialize_messages-IsFrom cfg turn_id (n + length here) ms))
  where
    from_here :
        (b : Bool)
        → is_query_message turn_id m ≡ b
        → All (IsFrom cfg turn_id (m ∷ ms)) (
            if b
            then whole_if_none n
                (serialize_semantic_message m)
                (split (serialize_semantic_message m) cfg)
            else [])
    from_here true q =
        whole-IsFrom cfg turn_id n m ms (split (serialize_semantic_message m) cfg) q refl
    from_here false q = tt

whole_nonempty : (n : ℕ) (text : List ℕ) (cs : List Chunk) → whole_if_none n text cs ≢ []
unfolding number_chunks
whole_nonempty n text [] = λ e. cc
whole_nonempty n text (c ∷ cs) = λ e. cc

append-eq-nil : (xs ys : List SerializedLocalContextChunk) → xs ++ ys ≡ [] → xs ≡ []
append-eq-nil [] ys e = refl
append-eq-nil (x ∷ xs) ys e = absurd (cc)

built-some :
    (digest : List ℕ → String) (local : List Message) (cs : List SerializedLocalContextChunk)
    (s : SerializedLocalContext)
    → built digest local cs ≡ some s
    → (s.message_ids ≡ message_ids_of local) × (s.chunks ≢ []) × (cs ≡ s.chunks)
built-some digest local [] s h = absurd (cc)
built-some digest local (c ∷ cs) s h = let e : c ∷ cs ≡ s.chunks = cc in (cc, λ k. cc, e)

built-none :
    (digest : List ℕ → String) (local : List Message) (cs : List SerializedLocalContextChunk)
    → (built digest local cs ≡ none) ↔ (cs ≡ [])
built-none digest local [] = (λ e. refl, λ e. refl)
built-none digest local (c ∷ cs) = (λ e. cc, λ e. cc)

-- No chunk comes out exactly if no message is asked by.
serialize_messages_empty :
    (cfg : Config) (turn_id : String) (n : ℕ) (ms : List Message)
    → (serialize_messages cfg turn_id n ms ≡ [])
      ↔ (all (λ m. not (is_query_message turn_id m)) ms ≡ true)
unfolding serialize_messages
serialize_messages_empty cfg turn_id n [] = (λ e. refl, λ e. refl)
serialize_messages_empty cfg turn_id n (m ∷ ms) =
    let text = serialize_semantic_message m in
    elim (Bool-cases (is_query_message turn_id m)) [
      | inl asked ↦ (
        λ e. absurd (
            whole_nonempty n text (split text cfg)
              (append-eq-nil (whole_if_none n text (split text cfg)) _ (rw asked at e))),
        λ e. ground (arith, asked, e),
      )
      | inr passed ↦ rw passed (
        λ e. (serialize_messages_empty cfg turn_id (n + 0) ms).0 e,
        λ e. (serialize_messages_empty cfg turn_id (n + 0) ms).1 e,
      )
    ]

-- A serialization lists the ids of the window in their order, holds a chunk at least, numbers its
-- chunks from 0 across all messages, and takes each chunk from one message alone, which is of the
-- current turn (where there is one) and has text to ask by. There is none exactly if no message of
-- the window is such.
pub serialize_local_context_lem :
    (digest : List ℕ → String) (local : List Message) (turn_id : String) (cfg : Config)
    → ((s : SerializedLocalContext)
        → serialize_local_context digest local turn_id cfg ≡ some s
        → (s.message_ids ≡ message_ids_of local)
          × (s.chunks ≢ [])
          × IsNumbered 0 s.chunks
          × All (IsFrom cfg turn_id local) s.chunks)
      × ((serialize_local_context digest local turn_id cfg ≡ none)
          ↔ (all (λ m. not (is_query_message turn_id m)) local ≡ true))
unfolding serialize_local_context
serialize_local_context_lem digest local turn_id cfg = (
  λ s h.
      let (ids, ne, e) = built-some digest local (serialize_messages cfg turn_id 0 local) s h in
      (
        ids,
        ne,
        subst (IsNumbered 0) e (serialize_messages-IsNumbered cfg turn_id 0 local),
        subst (All (IsFrom cfg turn_id local)) e (serialize_messages-IsFrom cfg turn_id 0 local),
      ),
  (
    λ h.
        (serialize_messages_empty cfg turn_id 0 local).0
          ((built-none digest local (serialize_messages cfg turn_id 0 local)).0 h),
    λ h.
        (built-none digest local (serialize_messages cfg turn_id 0 local)).1
          ((serialize_messages_empty cfg turn_id 0 local).1 h),
  ),
)

body_nonempty : (bs : List ContentBlock) → has_semantic_block bs ≡ not (is_empty (semantic_body bs))
unfolding has_semantic_block semantic_body utf8
body_nonempty [] = refl
body_nonempty (ContentBlock.text [] ∷ bs) = body_nonempty bs
body_nonempty (ContentBlock.text (x ∷ t) ∷ bs) = refl
body_nonempty (ContentBlock.thinking [] sig ∷ bs) = body_nonempty bs
body_nonempty (ContentBlock.thinking (x ∷ t) sig ∷ bs) = refl
body_nonempty (ContentBlock.tool_call id name arguments sig ∷ bs) = body_nonempty bs
body_nonempty (ContentBlock.tool_result id content is_error ∷ bs) = body_nonempty bs
body_nonempty (ContentBlock.image media bytes ∷ bs) = body_nonempty bs
body_nonempty (ContentBlock.attachment id name mime size path inlined ∷ bs) = body_nonempty bs
body_nonempty (ContentBlock.unset ∷ bs) = body_nonempty bs

-- A message has semantic content exactly if its semantic serialization is not empty: the tests that
-- choose anchors and the text that queries agree.
pub has_semantic_block-serialize :
    (m : Message) → has_semantic_block m.content ≡ not (is_empty (serialize_semantic_message m))
unfolding serialize_semantic_message utf8
has_semantic_block-serialize m = body_nonempty m.content ∙ wrapped (semantic_body m.content)
  where
    wrapped :
        (body : List ℕ)
        → not (is_empty body)
          ≡ not (
              is_empty (
                if is_empty body
                then []
                else utf8 "[message role="
                  ++ (utf8 (role_label m.role) ++ (utf8 "]\n" ++ (body ++ utf8 "[/message]\n")))))
    wrapped [] = refl
    wrapped (x ∷ body) = refl
