-- ===== src/Rrc/LocalContext/Discourse.antt =====
-- The discourse windows.
use grudge_ai.Prelude.{
  ℕ, zero, suc, ◌-◌, String, ◌≡◌, refl, sym, subst, append-nil, none, some, List, [], ◌∷◌, ◌++◌,
  length, drop, text_eq, eq_iff, ℤ, pos, negsuc, pos_part, arith, All, ◌≢◌, inl, inr, ◌⊎◌,
  Bool-cases, Option-cases,
}
use grudge_ai.Rrc.Message.{Message}
use grudge_ai.Rrc.LocalContext.{build_local_context, turn_suffix, build_active_discourse}

abbrev pub smaller : ℕ → ℕ → ℕ
smaller a b = a - (a - b)

drop_suffix : (n : ℕ) (ms : List Message) → (pre : List Message) × (ms ≡ pre ++ drop n ms)
drop_suffix zero ms = ([], refl)
drop_suffix (suc n) [] = ([], refl)
drop_suffix (suc n) (m ∷ ms) = let (pre, e) = drop_suffix n ms in (m ∷ pre, rw (← e))

length-drop : (n : ℕ) (ms : List Message) → length (drop n ms) ≡ length ms - n
length-drop zero ms = omega arith
length-drop (suc n) [] = omega arith
length-drop (suc n) (m ∷ ms) = omega (arith, length-drop n ms)

-- The recency window is a suffix of the corpus: n messages of it, or all where it has fewer, and
-- none for an n that is not positive.
pub build_local_context-suffix :
    (corpus : List Message) (n : ℤ)
    → ((pre : List Message) × (corpus ≡ pre ++ build_local_context corpus n))
      × (length (build_local_context corpus n) ≡ smaller (length corpus) (pos_part n))
unfolding build_local_context
build_local_context-suffix corpus (pos zero) = ((corpus, sym (append-nil corpus)), omega arith)
build_local_context-suffix corpus (pos (suc n)) = (
  drop_suffix (length corpus - suc n) corpus,
  omega (arith, length-drop (length corpus - suc n) corpus),
)
build_local_context-suffix corpus (negsuc n) = ((corpus, sym (append-nil corpus)), omega arith)

-- How a corpus splits at the first message of a turn.
pub record StartsAt (corpus : List Message) (turn_id : String) (suffix : List Message)
    : Type 0 where
  pub before : List Message
  pub split : corpus ≡ before ++ suffix
  pub none_before : All (λ m. m.turn_id ≢ turn_id) before
  pub first : Message
  pub rest : List Message
  pub shape : suffix ≡ first ∷ rest
  pub carries : first.turn_id ≡ turn_id

turn_suffix-StartsAt :
    (corpus : List Message) (turn_id : String) (suffix : List Message)
    → turn_suffix corpus turn_id ≡ some suffix
    → StartsAt corpus turn_id suffix
unfolding turn_suffix
turn_suffix-StartsAt [] turn_id suffix h = absurd (cc)
turn_suffix-StartsAt (m ∷ ms) turn_id suffix h = elim (Bool-cases (text_eq m.turn_id turn_id)) [
  | inl here ↦ record {
    before = [];
    split = ground arith;
    none_before = tt;
    first = m;
    rest = ms;
    shape = ground arith;
    carries = ground (arith, eq_iff m.turn_id turn_id);
  }
  | inr later ↦
      let r = turn_suffix-StartsAt ms turn_id suffix (ground arith) in
      record {
        before = m ∷ r.before;
        split = ground (arith, r.split);
        none_before = (λ e. ground (arith, eq_iff m.turn_id turn_id, e), r.none_before);
        first = r.first;
        rest = r.rest;
        shape = r.shape;
        carries = r.carries;
      }
]

turn_suffix-none :
    (corpus : List Message) (turn_id : String)
    → turn_suffix corpus turn_id ≡ none
    → All (λ m. m.turn_id ≢ turn_id) corpus
unfolding turn_suffix
turn_suffix-none [] turn_id h = tt
turn_suffix-none (m ∷ ms) turn_id h = (
  λ e. ground (arith, eq_iff m.turn_id turn_id, e),
  turn_suffix-none ms turn_id (ground (arith, eq_iff m.turn_id turn_id)),
)

-- The active discourse of a turn starts at the first message of the corpus that carries the turn
-- and goes on to the end, so that it holds every message of the turn; where the turn is unnamed or
-- no message carries it, it is the recency window.
pub build_active_discourse-StartsAt :
    (corpus : List Message) (turn_id : String) (n : ℤ)
    → (turn_id ≡ "" → build_active_discourse corpus turn_id n ≡ build_local_context corpus n)
      × (turn_id ≢ ""
          → StartsAt corpus turn_id (build_active_discourse corpus turn_id n)
            ⊎ (All (λ m. m.turn_id ≢ turn_id) corpus
                × (build_active_discourse corpus turn_id n ≡ build_local_context corpus n)))
unfolding build_active_discourse
build_active_discourse-StartsAt corpus turn_id n = (
  λ e. ground (arith, eq_iff turn_id "", e),
  λ ne. elim (Option-cases (turn_suffix corpus turn_id)) [
    | inl missing ↦
        inr
          (turn_suffix-none corpus turn_id missing, ground (arith, eq_iff turn_id "", ne, missing))
    | inr (suffix, found) ↦
        let e : build_active_discourse corpus turn_id n ≡ suffix =
          ground (arith, eq_iff turn_id "", ne, found) in
        inl (
          subst (StartsAt corpus turn_id) (sym e)
            (turn_suffix-StartsAt corpus turn_id suffix found))
  ],
)
