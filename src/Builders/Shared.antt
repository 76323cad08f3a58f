-- ===== src/Builders/Shared.antt =====
-- orm/modelcache.go with orm/selector.go, orm/updater.go and orm/deleter.go: the builders of one type
-- share its model, with the index of the next placeholder. Builders are told apart by numbers.
use fyer_webframe.Base.{
  ℕ, ◌≡◌, refl, sym, List, [], ◌∷◌, ◌++◌, Option, none, some, arith, All, ite, ℕ_discrete, length,
  map,
}
use mathlib.Core.Path.{subst}
use fyer_webframe.Conditions.Placeholders.{marks, up_from, Fits}
use fyer_webframe.Builders.Names.{Unicode}
use fyer_webframe.Builders.Columns.{Model}
use fyer_webframe.Builders.Calls.{Draft, register_builder}
use fyer_webframe.Builders.Plain.{Call, run_call, IsPlainCall, DraftFits}
use fyer_webframe.Builders.Numbered.{run_call-DraftFits}

-- The model of the type, with its index, and the builders with what they have written.
pub record Shared (A : Type 0) : Type 0 where
  pub model : Model
  pub index : ℕ
  pub builders : ℕ → Draft A

-- One call: of RegisterSelector, RegisterUpdater or RegisterDeleter, or of a method of a builder.
pub data Turn (A : Type 0) : Type 0 where
  registers : ℕ → Turn A
  does : ℕ → Call A → Turn A

module _ {A : Type 0} where
  -- A builder with the model as it is now.
  abbrev pub loaded : ℕ → Shared A → Draft A
  loaded b s = record (s.builders b) {
    model = s.model;
    building = record ((s.builders b).building) { index = s.index };
  }

  -- What a builder leaves of the model, and of itself.
  abbrev pub stored : ℕ → Draft A → Shared A → Shared A
  stored b d s = record {
    model = d.model;
    index = d.building.index;
    builders = λ c. ite (ℕ_discrete b c) d (s.builders c);
  }

  abbrev stored_or : ℕ → Shared A → Option (Draft A) → Option (Shared A)
  stored_or b s none = none
  stored_or b s (some d) = some (stored b d s)

  module _ (u : Unicode) where
    abbrev pub run_turn : Turn A → Shared A → Option (Shared A)
    run_turn (registers b) s = some (stored b (register_builder s.model) s)
    run_turn (does b call) s = stored_or b s (run_call u call (loaded b s))

    abbrev then_turn : Option (Shared A) → (Shared A → Option (Shared A)) → Option (Shared A)
    then_turn none k = none
    then_turn (some s) k = k s

    -- Calls of any builders; none is a panic.
    unfoldable pub run_turns : List (Turn A) → Shared A → Option (Shared A)
    run_turns [] s = some s
    run_turns (turn ∷ turns) s = then_turn (run_turn turn s) (λ t. run_turns turns t)

    loaded-stored : (b : ℕ) (d : Draft A) (s : Shared A) → loaded b (stored b d s) ≡ d
    loaded-stored b d s = ground arith

    abbrev TurnFits : ℕ → Option (Shared A) → Type 0
    TurnFits b none = Unit {0}
    TurnFits b (some s) = Fits 1 (loaded b s).building

    then_turn-TurnFits :
        (b : ℕ) (o : Option (Shared A)) (k : Shared A → Option (Shared A))
        → TurnFits b o
        → ((s : Shared A) → Fits 1 (loaded b s).building → TurnFits b (k s))
        → TurnFits b (then_turn o k)
    then_turn-TurnFits b none k f g = tt
    then_turn-TurnFits b (some s) k f g = g s f

    after-TurnFits :
        (b : ℕ) (o : Option (Shared A)) (k : Shared A → Option (Shared A))
        → ((s : Shared A) → TurnFits b (k s))
        → TurnFits b (then_turn o k)
    after-TurnFits b none k g = tt
    after-TurnFits b (some s) k g = g s

    stored_or-TurnFits :
        (b : ℕ) (s : Shared A) (o : Option (Draft A)) → DraftFits o → TurnFits b (stored_or b s o)
    stored_or-TurnFits b s none f = tt
    stored_or-TurnFits b s (some d) f =
        subst (λ (e : Draft A). Fits 1 e.building) (sym (loaded-stored b d s)) f

    -- The calls of one builder keep its placeholders in step with the index.
    does-TurnFits :
        (b : ℕ) (calls : List (Call A)) (s : Shared A)
        → All IsPlainCall calls
        → Fits 1 (loaded b s).building
        → TurnFits b (run_turns (map (does b) calls) s)
    unfolding run_turns
    does-TurnFits b [] s plain f = f
    does-TurnFits b (call ∷ calls) s (p, plain) f =
        then_turn-TurnFits b (run_turn (does b call) s) (λ t. run_turns (map (does b) calls) t)
          (stored_or-TurnFits b s (run_call u call (loaded b s))
            (run_call-DraftFits u call (loaded b s) p f))
          (λ t g. does-TurnFits b calls t plain g)

    registered-Fits :
        (b : ℕ) (s : Shared A) → Fits 1 (loaded b (stored b (register_builder s.model) s)).building
    unfolding marks up_from
    registered-Fits b s =
        let start : Fits 1 (register_builder {A = A} s.model).building = record {
          counted = omega arith;
          numbered = refl;
        } in
        subst (λ (e : Draft A). Fits 1 e.building)
          (sym (loaded-stored b (register_builder s.model) s)) start

    turns-TurnFits :
        (before : List (Turn A)) (b : ℕ) (calls : List (Call A)) (s : Shared A)
        → All IsPlainCall calls
        → TurnFits b (run_turns (before ++ (registers b ∷ map (does b) calls)) s)
    unfolding run_turns
    turns-TurnFits [] b calls s plain =
        does-TurnFits b calls (stored b (register_builder s.model) s) plain (registered-Fits b s)
    turns-TurnFits (turn ∷ before) b calls s plain =
        after-TurnFits b (run_turn turn s)
          (λ t. run_turns (before ++ (registers b ∷ map (does b) calls)) t)
          (λ t. turns-TurnFits before b calls t plain)

  -- The builders of a type share its model with the index of the placeholders. Whatever builders
  -- of the type did before, a selector, updater or deleter that is registered and then called,
  -- with no other builder of the type in between, numbers its placeholders from 1 on, one for each
  -- argument, where the calls do not panic and no raw expression brings arguments. The calls are
  -- Select, GroupBy, OrderBy, Where, Having, Limit, Offset, Update, Set, SetMulti and Delete.
  pub run_turns-numbered :
      (u : Unicode) (before : List (Turn A)) (b : ℕ) (calls : List (Call A)) (s t : Shared A)
      → All IsPlainCall calls
      → run_turns u (before ++ (registers b ∷ map (does b) calls)) s ≡ some t
      → let building = (t.builders b).building in
        marks building.written ≡ up_from 1 (length building.args)
  run_turns-numbered u before b calls s t plain e =
      let fits : TurnFits u b (some t) =
        subst (TurnFits u b) e (turns-TurnFits u before b calls s plain) in
      fits.numbered
