-- ===== src/Rrc/Assembly.antt =====
-- rrc/assembly.go: the helpers of `Assemble`. Tests on Go maps used as sets are `elem` on the list
-- of their keys.
pub mod Merging
use Prim.Native.String.{◌++◌ as concat}
use grudge_ai.Prelude.{
  ℕ, ◌+◌, ◌-◌, String, Bool, true, false, not, ◌&&◌, Option, none, some, List, [], ◌∷◌, ◌++◌, map,
  any, elem, length, text_eq, text_ltb, sort_stable, Result, ok, ◌>>=◌, if◌then◌else◌,
}
use grudge_ai.Rrc.Floats.{Floats}
use grudge_ai.Rrc.Message.{Message, ContentBlock, Role, wire_less}
use grudge_ai.Rrc.Protocol.{DeliveryGroup, ProtocolIndex, ProtocolError, close_group}
use grudge_ai.Rrc.LocalContext.{has_semantic_block}

pub record LlmMessage : Type 0 where
  pub role : Role
  pub content : List ContentBlock

unfoldable pub message_to_llm : Message → LlmMessage
message_to_llm m = record { role = m.role; content = m.content }

unfoldable pub closure_key : List Message → String
closure_key [] = ""
closure_key (m ∷ ms) = concat m.thread_id (concat "\0" (concat m.id (concat "\0" (closure_key ms))))

-- The messages of the groups that are not seen yet, each once, in the order of the loop.
unfoldable pub collect_messages : List String → List Message → List Message
collect_messages seen [] = []
collect_messages seen (m ∷ ms) =
    let fresh = collect_messages (m.id ∷ seen) ms in
    let rest = collect_messages seen ms in if elem m.id seen then rest else m ∷ fresh

unfoldable pub flatten_groups {ℓ} : {F : Type ℓ} → List (DeliveryGroup F) → List Message
flatten_groups [] = []
flatten_groups (g ∷ gs) = g.messages ++ flatten_groups gs

unfoldable pub groups_to_wire {ℓ} :
    {F : Type ℓ} → List (DeliveryGroup F) → List String → List LlmMessage
groups_to_wire groups already =
    map message_to_llm (sort_stable wire_less (collect_messages already (flatten_groups groups)))

unfoldable pub message_tokens : (LlmMessage → List ℕ) → (List ℕ → ℕ) → ℕ → List LlmMessage → ℕ
message_tokens count_text estimate delim [] = 0
message_tokens count_text estimate delim (m ∷ ms) =
    estimate (count_text m) + delim + message_tokens count_text estimate delim ms

abbrev pub with_system : Option LlmMessage → List LlmMessage → List LlmMessage
with_system none l = l
with_system (some m) l = m ∷ l

-- `countText` is the projection that the caller injects.
unfoldable pub wire_tokens :
    (LlmMessage → List ℕ)
    → (List ℕ → ℕ)
    → Option LlmMessage
    → List LlmMessage
    → List LlmMessage
    → ℕ
    → ℕ
    → ℕ
wire_tokens count_text estimate system head tail fixed delim =
    fixed + message_tokens count_text estimate delim (with_system system head ++ tail)

-- The loop of `pinnedLocalIDs`, over the messages from the last to the first.
unfoldable pub pin_loop : Bool → Bool → List Message → List String
pin_loop have_user have_assistant [] = []
pin_loop have_user have_assistant (m ∷ ms) =
    let skip = pin_loop have_user have_assistant ms in
    let user = pin_loop true have_assistant ms in
    let assistant = pin_loop have_user true ms in
    if have_user && have_assistant
    then []
    else if not (has_semantic_block m.content)
    then skip
    else elim m.role [
      | Role.user ↦ if have_user then skip else m.id ∷ user
      | Role.assistant ↦ if have_assistant then skip else m.id ∷ assistant
      | _ ↦ skip
    ]

unfoldable pub reversed : List Message → List Message → List Message
reversed [] acc = acc
reversed (m ∷ ms) acc = reversed ms (m ∷ acc)

unfoldable pub pinned_local_ids : List Message → String → List String
pinned_local_ids [] anchor_id = []
pinned_local_ids (m ∷ ms) anchor_id = anchor_id ∷ pin_loop false false (reversed (m ∷ ms) [])

-- The loop of `lastSemantic`, over the messages from the last to the first.
unfoldable pub first_semantic : List Message → String → Option Message
first_semantic [] turn_id = none
first_semantic (m ∷ ms) turn_id =
    let rest = first_semantic ms turn_id in
    if not (text_eq turn_id "") && not (text_eq m.turn_id turn_id)
    then rest
    else if has_semantic_block m.content
    then some m
    else rest

unfoldable pub last_semantic : List Message → String → Option Message
last_semantic local turn_id = first_semantic (reversed local []) turn_id

-- The empty text where every message is pinned.
unfoldable pub oldest_unpinned : List Message → List String → String
oldest_unpinned [] pinned = ""
oldest_unpinned (m ∷ ms) pinned = if elem m.id pinned then oldest_unpinned ms pinned else m.id

unfoldable pub remove_message : List Message → String → List Message
remove_message [] id = []
remove_message (m ∷ ms) id =
    let rest = remove_message ms id in if text_eq m.id id then rest else m ∷ rest

unfoldable pub group_overlaps {ℓ} : {F : Type ℓ} → DeliveryGroup F → List String → Bool
group_overlaps g ids = any (λ m. elem m.id ids) g.messages

unfoldable pub closure_count {ℓ} : {F : Type ℓ} → List (DeliveryGroup F) → ℕ
closure_count [] = 0
closure_count (g ∷ gs) = (length g.messages - 1) + closure_count gs

unfoldable pub same_ids : List String → List String → Bool
same_ids [] [] = true
same_ids (a ∷ as') (b ∷ bs) = text_eq a b && same_ids as' bs
same_ids _ _ = false

module _ (fl : Floats) where
  open fl use {F}

  -- A group that has the closure of one in `out`.
  unfoldable pub absorb : DeliveryGroup F → DeliveryGroup F → DeliveryGroup F
  absorb old group =
      if fl.lt old.score group.score
      then record {
        root_id = group.root_id;
        root_ids = old.root_ids ++ group.root_ids;
        score = group.score;
        messages = old.messages;
      }
      else record old { root_ids = old.root_ids ++ group.root_ids }

  -- One round of `mergeDeliveryGroups`: `byClosure` finds the group of `out` that has the key.
  unfoldable pub merge_into : DeliveryGroup F → List (DeliveryGroup F) → List (DeliveryGroup F)
  merge_into group [] = group ∷ []
  merge_into group (old ∷ out) =
      if text_eq (closure_key old.messages) (closure_key group.messages)
      then absorb old group ∷ out
      else old ∷ merge_into group out

  unfoldable pub merge_loop :
      List (DeliveryGroup F) → List (DeliveryGroup F) → List (DeliveryGroup F)
  merge_loop out [] = out
  merge_loop out (group ∷ groups) = merge_loop (merge_into group out) groups

  abbrev pub sort_root_ids : DeliveryGroup F → DeliveryGroup F
  sort_root_ids g = record g { root_ids = sort_stable text_ltb g.root_ids }

  unfoldable pub merge_delivery_groups : List (DeliveryGroup F) → List (DeliveryGroup F)
  merge_delivery_groups groups = map sort_root_ids (merge_loop [] groups)

  -- The loop of `lowestDensityGroup`.
  unfoldable pub lowest_loop :
      (DeliveryGroup F → F)
      → F
      → Option (DeliveryGroup F)
      → List (DeliveryGroup F)
      → Option (DeliveryGroup F)
  lowest_loop density lowest selected [] = selected
  lowest_loop density lowest selected (g ∷ gs) =
      let better = lowest_loop density (density g) (some g) gs in
      let worse = lowest_loop density lowest selected gs in
      if fl.lt (density g) lowest then better else worse

  unfoldable pub lowest_density_group :
      List (DeliveryGroup F) → (DeliveryGroup F → F) → Option (DeliveryGroup F)
  lowest_density_group groups density = lowest_loop density fl.infinity none groups

  unfoldable pub close_each :
      ProtocolIndex → List Message → Result ProtocolError (List (DeliveryGroup F))
  close_each index [] = ok []
  close_each index (root ∷ roots) =
      close_group index root fl.infinity >>= λ g. close_each index roots >>= λ gs. ok (g ∷ gs)

  -- `closeRoots` with no scores, as `Assemble` calls it.
  unfoldable pub close_roots :
      ProtocolIndex → List Message → Result ProtocolError (List (DeliveryGroup F))
  close_roots index roots = close_each index roots >>= λ gs. ok (merge_delivery_groups gs)
