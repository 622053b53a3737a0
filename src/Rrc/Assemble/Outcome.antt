-- ===== src/Rrc/Assemble/Outcome.antt =====
-- What `Assemble` returns: the budget holds, the price is published, what is excluded stays out.
use grudge_ai.Prelude.{
  ℕ, suc, ◌<◌, String, ◌≡◌, ◌≢◌, refl, ◌∙◌, ap, subst, true, false, Option, none, some, List, [],
  ◌∷◌, map, length, elem, All, All-map, Result, ok, err, >>=-eq-ok, >>=-eq-err, Dict, entries,
  Option-cases, inl, inr, arith, missing, missing-le-length, insert, lookup-insert, eq_iff,
}
use grudge_ai.Rrc.Floats.{Floats}
use grudge_ai.Rrc.Message.{Message}
use grudge_ai.Rrc.Edge.{SelectionScope}
use grudge_ai.Rrc.Engine.{Engine, set_price, last_price}
use grudge_ai.Rrc.Protocol.{DeliveryGroup, ProtocolIndex}
use grudge_ai.Rrc.Chunk.{Config}
use grudge_ai.Rrc.LocalContext.{SerializedLocalContext}
use grudge_ai.Rrc.Assembly.Merging.{elem-sort_stable}
use grudge_ai.Rrc.Assemble.{
  AssembleError, out_of_fuel, nil_price_map, SelectedMessage, fits, LocalFit, add_ids, shed_loop,
  ShedInput, ShedState, ShedResult,
}
use grudge_ai.Rrc.Assemble.Groups.{IsNamed, selected_ids, IsDeliverable}
use grudge_ai.Rrc.Assemble.Rounds.{elem-add_ids}
use grudge_ai.Rrc.Assemble.Shedding.{shed_loop-IsShed}
use grudge_ai.Rrc.Assemble.Whole.{
  CorpusStore, AssembleRequest, AssembleResult, Event, from_store, protocol_scope,
  effective_budget_of, deliver, publish, returned, shed_input_of, result_of,
}

from_store-ne-out_of_fuel {ℓ} : {A : Type ℓ} (r : Result String A) → from_store r ≢ err out_of_fuel
from_store-ne-out_of_fuel (ok a) h = cc
from_store-ne-out_of_fuel (err e) h = cc

from_store-ok {ℓ} : {A : Type ℓ} (r : Result String A) (a : A) → from_store r ≡ ok a → r ≡ ok a
from_store-ok (ok b) a h = cc
from_store-ok (err e) a h = absurd (cc)

pub protocol_scope-ne-out_of_fuel :
    (store : CorpusStore) (ms : List Message) → protocol_scope store ms ≢ err out_of_fuel
unfolding protocol_scope
protocol_scope-ne-out_of_fuel store ms h =
    elim (>>=-eq-err (from_store (store.turn_peers ms)) _ h) [
      | inl e ↦ from_store-ne-out_of_fuel (store.turn_peers ms) e
      | inr (peers, found, e) ↦ cc
    ]

length-selected_ids :
    {F : Type 0} (ss : List (SelectedMessage F)) → length (selected_ids ss) ≡ length ss
length-selected_ids [] = refl
length-selected_ids (s ∷ ss) = omega (arith, length-selected_ids ss)

-- What is known of a group that is delivered: the messages that it stands for are selected, and none of
-- them is in the result's list of what was shed.
abbrev pub IsKept : {F : Type 0} → AssembleResult F → DeliveryGroup F → Type 0
IsKept r g =
    (x : String)
    → elem x g.root_ids ≡ true
    → (elem x r.shed ≡ false) × (elem x (selected_ids r.selection.selected) ≡ true)

module _ (fl : Floats) where
  open fl use {F}

  pub record IsAssembled (req : AssembleRequest F) (e : Engine F) (r : AssembleResult F)
      : Type 0 where
    pub fitting : fits req.budget (effective_budget_of fl req) r.total_tokens ≡ true
    pub priced : last_price fl.zero e req.thread_id ≡ r.realized_price
    pub excluded : (x : String) → elem x req.exclude_ids ≡ true → elem x r.shed ≡ true
    pub delivered : All (IsKept r) r.delivered

  pub set_price_made :
      (e : Engine F) (m : Dict F) (t : String) (mu : F)
      → e.price ≡ some m
      → set_price e t mu ≡ some (record e { price = some (insert t mu m) })
  unfolding set_price
  set_price_made e m t mu made = rw made refl

  set_price-last_price :
      (e e' : Engine F) (t : String) (mu : F)
      → set_price e t mu ≡ some e'
      → last_price fl.zero e' t ≡ mu
  unfolding set_price last_price
  set_price-last_price e e' t mu h = elim (Option-cases e.price) [
    | inl nil ↦ absurd (cc (rw nil at h))
    | inr (m, made) ↦
        let same : record e { price = some (insert t mu m) } ≡ e' =
          cc (set_price_made e m t mu made) in
        subst (λ (e : Engine F). last_price fl.zero e t ≡ mu) same
          (ground (arith, lookup-insert t t mu m, eq_iff t t))
  ]

  module _
      (select : Engine F
        → SerializedLocalContext
        → Message
        → SelectionScope
        → String
        → Result String (Event F))
      (digest : List ℕ → String) (cfg : Config) (loss_ratio : F) where
    module _ (req : AssembleRequest F) (fit : LocalFit F)
        (serialized : Option SerializedLocalContext) (ev : Event F) where
      abbrev input_of : Dict Message → ProtocolIndex → ShedInput fl
      input_of = shed_input_of fl select digest cfg loss_ratio req fit ev

      abbrev start : ShedState fl
      start = record { dropped = add_ids req.exclude_ids []; price = fl.zero }

      abbrev published : ShedResult fl → Result AssembleError (Engine F × AssembleResult F)
      published = publish fl select digest cfg loss_ratio req fit serialized ev

      abbrev shed_from : Dict Message → ProtocolIndex → Result AssembleError (ShedResult fl)
      shed_from corpus index =
          shed_loop fl (suc (length ev.selection.selected)) (input_of corpus index) start

      -- How a delivery ends well, or with an error: the last step that it reached.
      pub record Delivery (result : Engine F × AssembleResult F) : Type 0 where
        pub corpus : Dict Message
        pub fetched : req.store.messages (map (λ s. s.message_id) ev.selection.selected) ≡ ok corpus
        pub index : ProtocolIndex
        pub out : ShedResult fl
        pub shed : shed_from corpus index ≡ ok out
        pub done : published out ≡ ok result

      pub deliver-ok :
          (result : Engine F × AssembleResult F)
          → deliver fl select digest cfg loss_ratio req fit serialized ev ≡ ok result
          → Delivery result
      unfolding deliver
      deliver-ok result h =
          let fetch = req.store.messages (map (λ s. s.message_id) ev.selection.selected) in
          let (corpus, found, h') = >>=-eq-ok (from_store fetch) _ h in
          let (index, indexed, h'') = >>=-eq-ok (protocol_scope req.store (entries corpus)) _ h' in
          let (out, shed, done) = >>=-eq-ok (shed_from corpus index) published h'' in
          record {
            corpus = corpus;
            fetched = from_store-ok fetch corpus found;
            index = index;
            out = out;
            shed = shed;
            done = done;
          }

      publish_nil :
          (out : ShedResult fl)
          → set_price ev.engine req.thread_id out.state.price ≡ none
          → published out ≡ err nil_price_map
      unfolding publish
      publish_nil out nil =
          ap
            (λ (o : Option (Engine F)).
              returned fl select digest cfg loss_ratio o
                (result_of fl select digest cfg loss_ratio req fit serialized ev out))
            nil

      publish_made :
          (out : ShedResult fl) (e : Engine F)
          → set_price ev.engine req.thread_id out.state.price ≡ some e
          → published out
            ≡ ok (e, result_of fl select digest cfg loss_ratio req fit serialized ev out)
      unfolding publish
      publish_made out e made =
          ap
            (λ (o : Option (Engine F)).
              returned fl select digest cfg loss_ratio o
                (result_of fl select digest cfg loss_ratio req fit serialized ev out))
            made

      publish-ne-out_of_fuel : (out : ShedResult fl) → published out ≢ err out_of_fuel
      publish-ne-out_of_fuel out h =
          elim (Option-cases (set_price ev.engine req.thread_id out.state.price)) [
            | inl nil ↦ cc (publish_nil out nil, h)
            | inr (e, made) ↦ cc (publish_made out e made, h)
          ]

      pub publish-ok :
          (out : ShedResult fl) (e : Engine F) (r : AssembleResult F)
          → published out ≡ ok (e, r)
          → (set_price ev.engine req.thread_id out.state.price ≡ some e)
            × (result_of fl select digest cfg loss_ratio req fit serialized ev out ≡ r)
      publish-ok out e r h =
          elim (Option-cases (set_price ev.engine req.thread_id out.state.price)) [
            | inl nil ↦ absurd (cc (publish_nil out nil, h))
            | inr (e', made) ↦ let k = publish_made out e' made in (cc, cc)
          ]

      module _
          (named : (ids : List String) (corpus : Dict Message)
            → req.store.messages ids ≡ ok corpus
            → IsNamed corpus) where
        enough_fuel :
            (corpus : Dict Message) (index : ProtocolIndex)
            → missing start.dropped (selected_ids (input_of corpus index).selected)
              < suc (length ev.selection.selected)
        unfolding shed_input_of
        enough_fuel corpus index = omega (
          arith,
          missing-le-length start.dropped (selected_ids ev.selection.selected),
          length-selected_ids ev.selection.selected,
        )

        pub deliver-ne-out_of_fuel :
            deliver fl select digest cfg loss_ratio req fit serialized ev ≢ err out_of_fuel
        unfolding deliver shed_input_of
        deliver-ne-out_of_fuel h =
            let fetch = req.store.messages (map (λ s. s.message_id) ev.selection.selected) in
            elim (>>=-eq-err (from_store fetch) _ h) [
              | inl e ↦ from_store-ne-out_of_fuel fetch e
              | inr (corpus, found, h') ↦
                  elim (>>=-eq-err (protocol_scope req.store (entries corpus)) _ h') [
                    | inl e ↦ protocol_scope-ne-out_of_fuel req.store (entries corpus) e
                    | inr (index, indexed, h'') ↦
                        elim (>>=-eq-err (shed_from corpus index) published h'') [
                          | inl e ↦
                              (shed_loop-IsShed fl (input_of corpus index)
                                  (named _ corpus (from_store-ok fetch corpus found))
                                  (suc (length ev.selection.selected)) start
                                  (enough_fuel corpus index)).0
                                e
                          | inr (out, shed, done) ↦ publish-ne-out_of_fuel out done
                        ]
                  ]
            ]

        IsKept-of :
            (out : ShedResult fl) {local_ids : List String} (g : DeliveryGroup F)
            → IsDeliverable out.state.dropped local_ids (selected_ids ev.selection.selected) g
            → IsKept (result_of fl select digest cfg loss_ratio req fit serialized ev out) g
        unfolding result_of
        IsKept-of out g k x m =
            (elem-sort_stable x out.state.dropped ∙ k.undropped x m, k.selected x m)

        pub deliver-IsAssembled :
            (e : Engine F) (r : AssembleResult F)
            → deliver fl select digest cfg loss_ratio req fit serialized ev ≡ ok (e, r)
            → IsAssembled req e r
        unfolding shed_input_of result_of
        deliver-IsAssembled e r h =
            let d = deliver-ok (e, r) h in
            let (set, same) = publish-ok d.out e r d.done in
            let s =
              (shed_loop-IsShed fl (input_of d.corpus d.index) (named _ d.corpus d.fetched)
                  (suc (length ev.selection.selected)) start (enough_fuel d.corpus d.index)).1
                d.out d.shed in
            subst (IsAssembled req e) same (record {
              fitting = s.fitting;
              priced = set_price-last_price ev.engine e req.thread_id d.out.state.price set;
              excluded = λ x k.
                  elem-sort_stable x d.out.state.dropped
                  ∙ s.kept x (ground (arith, elem-add_ids x req.exclude_ids [], k));
              delivered = All-map (IsKept-of d.out) d.out.delivered s.deliverable;
            })
