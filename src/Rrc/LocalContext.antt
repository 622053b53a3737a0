-- ===== src/Rrc/LocalContext.antt =====
-- rrc/local_context.go: the discourse that a turn continues, and its form for the scorer. The hash
-- of package crypto/sha256, with its hex form, is the argument `digest`.
pub mod Bytes
pub mod Discourse
pub mod Serial
use Prim.Native.String.{◌++◌ as concat}
use grudge_ai.Prelude.{
  ℕ, zero, suc, ◌+◌, ◌-◌, String, Bool, true, false, not, ◌&&◌, ◌||◌, Option, none, some, List, [],
  ◌∷◌, ◌++◌, map, filter, drop, length, text_eq, ℤ, pos_part, is_positive, if◌then◌else◌,
}
use grudge_ai.Rrc.Message.{Message, ContentBlock, Role}
use grudge_ai.Rrc.Chunk.{Config, Chunk, split, is_empty}
use grudge_ai.Rrc.Chunk.Text.{trim_space}
use grudge_ai.Rrc.LocalContext.Bytes.{utf8, decimal}

pub record SerializedLocalContextChunk : Type 0 where
  pub index : ℕ
  pub text : List ℕ

pub record SerializedLocalContext : Type 0 where
  pub event_id : String
  pub fingerprint : String
  pub message_ids : List String
  pub chunks : List SerializedLocalContextChunk

-- `t != nil && t.Text != ""`, for text and for thinking
abbrev pub is_semantic : ContentBlock → Bool
is_semantic (ContentBlock.text t) = not (is_empty t)
is_semantic (ContentBlock.thinking t signature) = not (is_empty t)
is_semantic _ = false

unfoldable pub has_semantic_block : List ContentBlock → Bool
has_semantic_block [] = false
has_semantic_block (b ∷ bs) = is_semantic b || has_semantic_block bs

-- The last n messages; nothing for n ≤ 0.
unfoldable pub build_local_context : List Message → ℤ → List Message
build_local_context thread_corpus n =
    if is_positive n then drop (length thread_corpus - pos_part n) thread_corpus else []

-- threadCorpus[start:] for the first index that carries the turn, or nothing if none does.
unfoldable pub turn_suffix : List Message → String → Option (List Message)
turn_suffix [] turn_id = none
turn_suffix (m ∷ ms) turn_id =
    if text_eq m.turn_id turn_id then some (m ∷ ms) else turn_suffix ms turn_id

unfoldable pub build_active_discourse : List Message → String → ℤ → List Message
build_active_discourse thread_corpus current_turn_id fallback_n =
    if text_eq current_turn_id ""
    then build_local_context thread_corpus fallback_n
    else elim (turn_suffix thread_corpus current_turn_id) [
      | some suffix ↦ suffix
      | none ↦ build_local_context thread_corpus fallback_n
    ]

unfoldable pub semantic_messages : List Message → List Message
semantic_messages = filter (λ m. has_semantic_block m.content)

unfoldable pub role_label : Role → String
role_label Role.user = "user"
role_label Role.assistant = "assistant"
role_label Role.system = "system"
role_label Role.unspecified = "unspecified"

-- The lines that a block adds to the body.
abbrev pub semantic_lines : ContentBlock → List ℕ
semantic_lines (ContentBlock.text t) =
    if is_empty t then [] else utf8 "[text]\n" ++ (t ++ utf8 "\n")
semantic_lines (ContentBlock.thinking t signature) =
    if is_empty t then [] else utf8 "[thinking]\n" ++ (t ++ utf8 "\n")
semantic_lines _ = []

unfoldable pub semantic_body : List ContentBlock → List ℕ
semantic_body [] = []
semantic_body (b ∷ bs) = semantic_lines b ++ semantic_body bs

unfoldable pub serialize_semantic_message : Message → List ℕ
serialize_semantic_message m =
    let body = semantic_body m.content in
    if is_empty body
    then []
    else utf8 "[message role="
      ++ (utf8 (role_label m.role) ++ (utf8 "]\n" ++ (body ++ utf8 "[/message]\n")))

-- The chunks of one message, from the global index `next`.
unfoldable pub number_chunks : ℕ → List Chunk → List SerializedLocalContextChunk
number_chunks next [] = []
number_chunks next (c ∷ cs) = record { index = next; text = c.text } ∷ number_chunks (suc next) cs

abbrev pub whole_if_none : ℕ → List ℕ → List Chunk → List SerializedLocalContextChunk
whole_if_none next text [] = record { index = next; text = text } ∷ []
whole_if_none next text (c ∷ cs) = number_chunks next (c ∷ cs)

-- Whether the loop passes the message over: another turn's, or with no text to ask by.
abbrev pub is_query_message : String → Message → Bool
is_query_message current_turn_id m =
    (text_eq current_turn_id "" || text_eq m.turn_id current_turn_id)
    && not (is_empty (trim_space (serialize_semantic_message m)))

unfoldable pub serialize_messages :
    Config → String → ℕ → List Message → List SerializedLocalContextChunk
serialize_messages cfg current_turn_id next [] = []
serialize_messages cfg current_turn_id next (m ∷ ms) =
    let text = serialize_semantic_message m in
    let here =
      if is_query_message current_turn_id m then whole_if_none next text (split text cfg) else [] in
    here ++ serialize_messages cfg current_turn_id (next + length here) ms

unfoldable pub hash_ids : List String → List ℕ
hash_ids [] = []
hash_ids (id ∷ ids) = utf8 "message:" ++ (utf8 id ++ (utf8 "\n" ++ hash_ids ids))

unfoldable pub hash_chunks : List SerializedLocalContextChunk → List ℕ
hash_chunks [] = []
hash_chunks (c ∷ cs) =
    utf8 "chunk:" ++ (decimal c.index ++ (utf8 "\n" ++ (c.text ++ (utf8 "\n" ++ hash_chunks cs))))

unfoldable pub fingerprint_input : List String → List SerializedLocalContextChunk → List ℕ
fingerprint_input ids chunks =
    utf8 "version:local-context-v1\n" ++ (hash_ids ids ++ hash_chunks chunks)

-- The id of the last message.
abbrev pub last_id : List Message → String
last_id [] = ""
last_id (m ∷ []) = m.id
last_id (m ∷ m' ∷ ms) = last_id (m' ∷ ms)

abbrev pub message_ids_of : List Message → List String
message_ids_of = map (λ m. m.id)

abbrev pub built :
    (List ℕ → String)
    → List Message
    → List SerializedLocalContextChunk
    → Option SerializedLocalContext
built digest local [] = none
built digest local (c ∷ cs) = some (record {
  event_id = concat "sel-" (last_id local);
  fingerprint = digest (fingerprint_input (message_ids_of local) (c ∷ cs));
  message_ids = message_ids_of local;
  chunks = c ∷ cs;
})

unfoldable pub serialize_local_context :
    (List ℕ → String) → List Message → String → Config → Option SerializedLocalContext
serialize_local_context digest local current_turn_id cfg =
    built digest local (serialize_messages cfg current_turn_id 0 local)
