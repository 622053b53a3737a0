-- ===== src/Tests/Text.antt =====
-- Chunks, windows of a thread and their serialization, put to the theorems on small texts.
use grudge_ai.Prelude.{
  ℕ, suc, ◌<◌, String, ◌≡◌, ◌≢◌, ◌↔◌, ◌⊎◌, true, not, none, some, List, [], ◌∷◌, ◌++◌, All, all,
  length, pos, pos_part, arith,
}
use grudge_ai.Rrc.Message.{Message}
use grudge_ai.Rrc.Chunk.{Config, split, windows, effective_max, effective_overlap, is_empty}
use grudge_ai.Rrc.Chunk.Text.{trim_space, trim_left, trim_right_reversed}
use grudge_ai.Rrc.Chunk.Windows.{Tiles}
use grudge_ai.Rrc.Chunk.Pieces.{IsPiece, IsNumbered, split-IsPiece, split_windows-Tiles}
use grudge_ai.Rrc.LocalContext.{
  SerializedLocalContext, build_local_context, build_active_discourse, serialize_local_context,
  has_semantic_block, serialize_semantic_message, is_query_message, message_ids_of,
}
use grudge_ai.Rrc.LocalContext.Discourse.{
  build_local_context-suffix, build_active_discourse-StartsAt, StartsAt, smaller,
}
use grudge_ai.Rrc.LocalContext.Serial.{
  IsNumbered as IsChunkNumbered, serialize_local_context_lem, has_semantic_block-serialize, IsFrom,
}
use grudge_ai.Tests.{question, call, result}

abbrev config : Config
config = record { max_chars = pos 4; overlap_chars = pos 1; estimator = length }

-- "ab. cd ef"
abbrev sample : List ℕ
sample = 97 ∷ 98 ∷ 46 ∷ 32 ∷ 99 ∷ 100 ∷ 32 ∷ 101 ∷ 102 ∷ []

split-IsPiece_example :
    All (IsPiece config (trim_space sample)) (split sample config)
    × IsNumbered 0 (split sample config)
split-IsPiece_example = split-IsPiece sample config

sample_long : effective_max config < length (trim_space sample)
unfolding effective_max trim_space trim_left trim_right_reversed
sample_long = omega arith

split_windows-Tiles_example : Tiles (length (trim_space sample)) (effective_max config) 0 (
    windows
      (suc (length (trim_space sample)))
      (trim_space sample)
      (effective_max config)
      (effective_overlap config)
      0)
split_windows-Tiles_example = split_windows-Tiles sample config sample_long

abbrev thread : List Message
thread = question ∷ call ∷ result ∷ []

build_local_context-suffix_example :
    ((pre : List Message) × (thread ≡ pre ++ build_local_context thread (pos 2)))
    × (length (build_local_context thread (pos 2)) ≡ smaller (length thread) (pos_part (pos 2)))
build_local_context-suffix_example = build_local_context-suffix thread (pos 2)

abbrev u1 : String
u1 = "u1"

build_active_discourse-StartsAt_example :
    (u1 ≡ "" → build_active_discourse thread "u1" (pos 2) ≡ build_local_context thread (pos 2))
    × (u1 ≢ ""
        → StartsAt thread "u1" (build_active_discourse thread "u1" (pos 2))
          ⊎ (All (λ m. m.turn_id ≢ "u1") thread
              × (build_active_discourse thread "u1" (pos 2) ≡ build_local_context thread (pos 2))))
build_active_discourse-StartsAt_example = build_active_discourse-StartsAt thread "u1" (pos 2)

abbrev digest : List ℕ → String
digest bytes = "digest"

serialize_local_context_example :
    ((s : SerializedLocalContext)
      → serialize_local_context digest thread "u1" config ≡ some s
      → (s.message_ids ≡ message_ids_of thread)
        × (s.chunks ≢ [])
        × IsChunkNumbered 0 s.chunks
        × All (IsFrom config "u1" thread) s.chunks)
    × ((serialize_local_context digest thread "u1" config ≡ none)
        ↔ (all (λ m. not (is_query_message "u1" m)) thread ≡ true))
serialize_local_context_example = serialize_local_context_lem digest thread "u1" config

has_semantic_block-serialize_example :
    has_semantic_block question.content ≡ not (is_empty (serialize_semantic_message question))
has_semantic_block-serialize_example = has_semantic_block-serialize question
