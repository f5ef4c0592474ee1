-- ===== src/Blueprint/Find/Choice.antt =====
-- blueprint.py: which handler `find_handler` takes, and that one is found where it can be.
use avtomatika.Prelude.{
  ◌≡◌, ◌⊎◌, inl, inr, refl, ap, String, Bool, true, false, ◌&&◌, Option, none, some, List, [], ◌∷◌,
  ◌++◌, All, str_eq, Bool-cases,
}
use avtomatika.Dict
use avtomatika.Blueprint.{Blueprint, ConditionalHandler, Slot, placeholder, func}
use avtomatika.Blueprint.Find.{evaluate, choose, default_of, first_conditional, find_handler}

module _ {F C : Type 0} where
  -- The handler is for the state and its condition holds.
  abbrev applies : String → C → ConditionalHandler F C → Bool
  applies state context handler = str_eq handler.state state && evaluate handler context

  -- `chosen` applies, and no handler before it does.
  pub record IsFirst (handlers : List (ConditionalHandler F C)) (state : String) (context : C)
      (f : F) : Type 0 where
    pub earlier : List (ConditionalHandler F C)
    pub chosen : ConditionalHandler F C
    pub later : List (ConditionalHandler F C)
    pub split : handlers ≡ earlier ++ chosen ∷ later
    pub passed : All (λ h. applies state context h ≡ false) earlier
    pub fits : applies state context chosen ≡ true
    pub is_its : chosen.function ≡ f

  abbrev First : List (ConditionalHandler F C) → String → C → Option F → Type 0
  First handlers state context none = All (λ h. applies state context h ≡ false) handlers
  First handlers state context (some f) = IsFirst handlers state context f

  First-cons :
      (h : ConditionalHandler F C) (handlers : List (ConditionalHandler F C)) (state : String)
      (context : C) (o : Option F)
      → applies state context h ≡ false
      → First handlers state context o
      → First (h ∷ handlers) state context o
  First-cons h handlers state context none p first = (p, first)
  First-cons h handlers state context (some f) p first = record {
    earlier = h ∷ first.earlier;
    chosen = first.chosen;
    later = first.later;
    split = ap (λ (l : List (ConditionalHandler F C)). h ∷ l) first.split;
    passed = (p, first.passed);
    fits = first.fits;
    is_its = first.is_its;
  }

  first_conditional_lem :
      (handlers : List (ConditionalHandler F C)) (state : String) (context : C)
      → First handlers state context (first_conditional handlers state context)
  unfolding first_conditional
  first_conditional_lem [] state context = tt
  first_conditional_lem (h ∷ handlers) state context = elim (Bool-cases (applies state context h)) [
    | inl fits ↦ rw fits (record {
      earlier = [];
      chosen = h;
      later = handlers;
      split = refl;
      passed = tt;
      fits = fits;
      is_its = refl;
    })
    | inr passed ↦ rw passed (
        First-cons h handlers state context _ passed (first_conditional_lem handlers state context))
  ]

  -- No conditional handler applies.
  abbrev NoneApplies : Blueprint F C → String → C → Type 0
  NoneApplies b state context = All (λ h. applies state context h ≡ false) b.conditional_handlers

  -- What `find_handler` may answer, and why.
  abbrev pub Chosen : Blueprint F C → String → C → Option F → Type 0
  Chosen b state context none =
      NoneApplies b state context
      × (default_of (Dict.get state b.handlers) ≡ none)
      × (Dict.get state b.aggregator_handlers ≡ none)
  Chosen b state context (some f) =
      IsFirst b.conditional_handlers state context f
      ⊎ (NoneApplies b state context × (default_of (Dict.get state b.handlers) ≡ some f)
          ⊎ (NoneApplies b state context
              × (default_of (Dict.get state b.handlers) ≡ none)
              × (Dict.get state b.aggregator_handlers ≡ some f)))

  by_parts :
      (b : Blueprint F C) (state : String) (context : C) (o : Option F)
      → First b.conditional_handlers state context o
      → (d : Option (Slot F)) → Dict.get state b.handlers ≡ d
      → (g : Option F) → Dict.get state b.aggregator_handlers ≡ g
      → Chosen b state context (choose o d g)
  by_parts b state context (some f) first d p g q = inl first
  by_parts b state context none first (some (func f)) p g q = inr (inl (first, rw p))
  by_parts b state context none first (some placeholder) p (some f) q = inr (inr (first, rw p, q))
  by_parts b state context none first (some placeholder) p none q = (first, rw p, q)
  by_parts b state context none first none p (some f) q = inr (inr (first, rw p, q))
  by_parts b state context none first none p none q = (first, rw p, q)

  -- `find_handler` takes the first conditional handler of the state whose condition holds, where a
  -- condition that raises does not hold; with none, the default handler of the state; with no
  -- default, its aggregator; and it fails only if there is none of the three.
  pub find_handler_lem :
      (b : Blueprint F C) (state : String) (context : C)
      → Chosen b state context (find_handler b state context)
  find_handler_lem b state context =
      unfold find_handler in
      by_parts b state context (first_conditional b.conditional_handlers state context)
        (first_conditional_lem b.conditional_handlers state context) (Dict.get state b.handlers)
        refl (Dict.get state b.aggregator_handlers) refl
