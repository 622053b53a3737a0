-- ===== src/Rrc/Edge.antt =====
-- proto/grudge/rrc/v1: the prerequisite edges; `scopeAllows` of rrc/selection.go. `F` is the type of
-- the floating-point numbers. The time of detection is left out: nothing reads it.
use grudge_ai.Prelude.{String, Bool, true, false, ◌&&◌, text_eq}

pub data EdgeSource : Type 0 where
  unspecified cross_encoder provenance : EdgeSource

pub data SelectionScope : Type 0 where
  unspecified thread all_threads : SelectionScope

pub record Edge (F : Type 0) : Type 0 where
  pub from_message_id : String
  pub to_message_id : String
  pub score : F
  pub source : EdgeSource
  pub cross_encoder_score : F
  pub from_thread_id : String
  pub to_thread_id : String
  pub scorer_model : String

abbrev pub is_provenance : EdgeSource → Bool
is_provenance EdgeSource.provenance = true
is_provenance _ = false

unfoldable pub scope_allows : {F : Type 0} → Edge F → String → SelectionScope → Bool
scope_allows edge prompt_thread_id SelectionScope.all_threads = true
scope_allows edge prompt_thread_id _ =
    text_eq edge.from_thread_id prompt_thread_id && text_eq edge.to_thread_id prompt_thread_id
