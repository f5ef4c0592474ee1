-- ===== src/Blueprint/Register/Once.antt =====
-- blueprint.py: what is registered stays registered.
use avtomatika.Prelude.{
  ◌≡◌, String, Bool, true, false, Option, none, some, List, [], ◌∷◌, ◌++◌, arith, has, eq_iff,
}
use avtomatika.Dict
use avtomatika.Dict.{has_key, get-put}
use avtomatika.Blueprint.{Blueprint, placeholder, func}
use avtomatika.Blueprint.Find.{default_of}
use avtomatika.Blueprint.Register.{
  Registration, Registered, duplicate_handler, state_name_of, put_default, put_conditional,
  put_start, put_end, decorate, install, start, finish,
}

has_last : (s t : String) (xs : List String) → has s xs ≡ true → has s (xs ++ t ∷ []) ≡ true
has_last s t [] h = cc
has_last s t (x ∷ xs) h = ground (arith, h, has_last s t xs)

module _ {F C : Type 0} where
  -- The decorators of a module, applied one after the other; an error does not stop the rest.
  unfoldable pub decorate_all : List (Registration F C) → Blueprint F C → Blueprint F C
  decorate_all [] b = b
  decorate_all (r ∷ rs) b = decorate_all rs (decorate r b).1

  -- What a blueprint has, another has too: its default handlers and its start state.
  pub record Keeps (b b' : Blueprint F C) (s : String) (f : F) : Type 0 where
    pub handler :
        default_of (Dict.get s b.handlers) ≡ some f → default_of (Dict.get s b'.handlers) ≡ some f
    pub start : b.start_state ≡ some s → b'.start_state ≡ some s
    pub end : has s b.end_states ≡ true → has s b'.end_states ≡ true

  module _ (s : String) (f : F) where
    Keeps-refl : (b : Blueprint F C) → Keeps b b s f
    Keeps-refl b = record { handler = λ h. h; start = λ h. h; end = λ h. h }

    Keeps-trans : {a b c : Blueprint F C} → Keeps a b s f → Keeps b c s f → Keeps a c s f
    Keeps-trans k l = record {
      handler = λ h. l.handler (k.handler h);
      start = λ h. l.start (k.start h);
      end = λ h. l.end (k.end h);
    }

    put_default-Keeps :
        (state : String) (g : F) (b : Blueprint F C) → Keeps b (put_default state g b).1 s f
    unfolding put_default
    put_default-Keeps state g b = record {
      handler = λ h. ground (arith, h, get-put state s (func g) b.handlers, eq_iff state s);
      start = λ h. ground (arith, h);
      end = λ h. ground (arith, h);
    }

    put_conditional-Keeps :
        (state : String) (g : F) (condition : C → Option Bool) (b : Blueprint F C)
        → Keeps b (put_conditional state g condition b) s f
    unfolding put_conditional
    put_conditional-Keeps state g condition b = record {
      handler = λ h. ground (arith, h, get-put state s placeholder b.handlers, eq_iff state s);
      start = λ h. ground (arith, h);
      end = λ h. ground (arith, h);
    }

    put_start-Keeps :
        (is_start : Bool) (state : String) (b : Blueprint F C)
        → Keeps b (put_start is_start state b).1 s f
    unfolding put_start
    put_start-Keeps false state b = Keeps-refl b
    put_start-Keeps true state b = record {
      handler = λ h. ground (arith, h);
      start = λ h. ground (arith, h, eq_iff s state);
      end = λ h. ground (arith, h);
    }

    put_end-Keeps :
        (is_end : Bool) (state : String) (b : Blueprint F C) → Keeps b (put_end is_end state b) s f
    unfolding put_end
    put_end-Keeps false state b = Keeps-refl b
    put_end-Keeps true state b = record {
      handler = λ h. ground (arith, h);
      start = λ h. ground (arith, h);
      end = λ h. ground (arith, h, has_last s state b.end_states);
    }

    install-Keeps :
        (r : Registration F C) (state : String) (b : Blueprint F C)
        → Keeps b (install r state b).1 s f
    install-Keeps r state b = by_condition r.condition
      where
        by_condition :
            (o : Option (C → Option Bool))
            → Keeps b
                (elim o as (λ _. Registered F C) [
                  | some condition ↦ (none, put_conditional state r.function condition b)
                  | none ↦ put_default state r.function b
                ]).1
                s
                f
        by_condition (some condition) = put_conditional-Keeps state r.function condition b
        by_condition none = put_default-Keeps state r.function b

    finish-Keeps :
        (r : Registration F C) (state : String) (b : Blueprint F C) (q : Registered F C)
        → Keeps b q.1 s f
        → Keeps b (finish r state q).1 s f
    finish-Keeps r state b (some e, c) k = k
    finish-Keeps r state b (none, c) k = Keeps-trans k (put_end-Keeps r.is_end state c)

    start-Keeps :
        (r : Registration F C) (state : String) (b : Blueprint F C) (q : Registered F C)
        → Keeps b q.1 s f
        → Keeps b (start r state q).1 s f
    start-Keeps r state b (some e, c) k = k
    start-Keeps r state b (none, c) k =
        finish-Keeps r state b (put_start r.is_start state c)
          (Keeps-trans k (put_start-Keeps r.is_start state c))

    decorate-Keeps : (r : Registration F C) (b : Blueprint F C) → Keeps b (decorate r b).1 s f
    unfolding decorate
    decorate-Keeps r b =
        let state = state_name_of r in
        start-Keeps r state b (install r state b) (install-Keeps r state b)

    decorate_all-Keeps :
        (rs : List (Registration F C)) (b : Blueprint F C) → Keeps b (decorate_all rs b) s f
    unfolding decorate_all
    decorate_all-Keeps [] b = Keeps-refl b
    decorate_all-Keeps (r ∷ rs) b =
        Keeps-trans (decorate-Keeps r b) (decorate_all-Keeps rs (decorate r b).1)

  -- Whatever decorators are applied after, and with whatever errors: a default handler of a state
  -- stays the state's handler, the start state stays the start state, and an end state stays one.
  pub decorate_all_lem :
      (rs : List (Registration F C)) (b : Blueprint F C) (s : String) (f : F) (first last : String)
      → default_of (Dict.get s b.handlers) ≡ some f
      → b.start_state ≡ some first
      → has last b.end_states ≡ true
      → let b' = decorate_all rs b in
        (default_of (Dict.get s b'.handlers) ≡ some f)
        × (b'.start_state ≡ some first)
        × (has last b'.end_states ≡ true)
  decorate_all_lem rs b s f first last h k l = (
    (decorate_all-Keeps s f rs b).handler h,
    (decorate_all-Keeps first f rs b).start k,
    (decorate_all-Keeps last f rs b).end l,
  )

  -- Where a state has a default handler, a decorator that registers another for it without a
  -- condition raises and leaves the blueprint as it was.
  pub decorate_twice :
      (r : Registration F C) (b : Blueprint F C) (f : F)
      → r.condition ≡ none
      → default_of (Dict.get (state_name_of r) b.handlers) ≡ some f
      → decorate r b ≡ (some duplicate_handler, b)
  unfolding decorate put_default
  decorate_twice r b f plain h = ground (arith, plain, h)
