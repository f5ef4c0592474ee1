-- ===== src/Dispatcher/Choice.antt =====
-- dispatcher.py: the strategies choose a worker that is the best by their measure.
use mathlib.Core.List.{append_assoc, append-nil}
use avtomatika.Prelude.{
  ℕ, ◌≡◌, refl, sym, ◌∙◌, String, Bool, true, false, Option, some, List, [], ◌∷◌, ◌++◌, All, arith,
  Bool-cases, inl, inr,
}
use avtomatika.Storage.{Worker}
use avtomatika.Prelude.Int.{ltb_ℤ}
use avtomatika.Dispatcher.{
  below, cost_of, load_of, cheaper, least, least_from, select_cheapest, select_least_connections,
}

module _ {A : Type 0} (less : A → A → Bool) where
  -- The first of the least: less than those before it, and none after it is less.
  abbrev pub IsFirst : List A → A → Type 0
  IsFirst ws w =
      (before : List A) × (after : List A) × (ws ≡ before ++ w ∷ after)
      × All (λ u. less w u ≡ true) before
      × All (λ u. less u w ≡ false) after

  All-append : (P : A → Type 0) (xs ys : List A) → All P xs → All P ys → All P (xs ++ ys)
  All-append P [] ys a b = b
  All-append P (x ∷ xs) ys (p, a) b = (p, All-append P xs ys a b)

  IsFirst-same : (xs ys : List A) (w : A) → xs ≡ ys → IsFirst ys w → IsFirst xs w
  IsFirst-same xs ys w same (before, after, e, l, g) = (before, after, same ∙ e, l, g)

  module _ (trans : (a b c : A) → less a b ≡ true → less b c ≡ true → less a c ≡ true)
      (mixed : (a b c : A) → less a b ≡ true → less c b ≡ false → less a c ≡ true) where
    -- A lesser one is less than all of them, too.
    All-trans :
        (w best : A) (ws : List A)
        → less w best ≡ true
        → All (λ u. less best u ≡ true) ws
        → All (λ u. less w u ≡ true) ws
    All-trans w best [] h a = a
    All-trans w best (u ∷ ws) h (l, a) = (trans w best u h l, All-trans w best ws h a)

    All-mixed :
        (w best : A) (ws : List A)
        → less w best ≡ true
        → All (λ u. less u best ≡ false) ws
        → All (λ u. less w u ≡ true) ws
    All-mixed w best [] h a = a
    All-mixed w best (u ∷ ws) h (l, a) = (mixed w best u h l, All-mixed w best ws h a)

    least_from_lem :
        (best : A) (ws before after : List A)
        → All (λ u. less best u ≡ true) before
        → All (λ u. less u best ≡ false) after
        → IsFirst ((before ++ best ∷ after) ++ ws) (least_from less best ws)
    unfolding least_from
    least_from_lem best [] before after l g = (before, after, append-nil _, l, g)
    least_from_lem best (w ∷ ws) before after l g = elim (Bool-cases (less w best)) [
      | inl lesser ↦ rw (lesser) (
          IsFirst-same ((before ++ best ∷ after) ++ w ∷ ws)
            (((before ++ best ∷ after) ++ w ∷ []) ++ ws) _
            (sym (append_assoc (before ++ best ∷ after) (w ∷ []) ws))
            (least_from_lem w ws (before ++ best ∷ after) []
              (All-append (λ u. less w u ≡ true) before (best ∷ after)
                (All-trans w best before lesser l) (lesser, All-mixed w best after lesser g))
              tt))
      | inr not_lesser ↦ rw (not_lesser) (
          IsFirst-same ((before ++ best ∷ after) ++ w ∷ ws)
            ((before ++ best ∷ (after ++ w ∷ [])) ++ ws) _ (simp (append_assoc))
            (least_from_lem best ws before (after ++ w ∷ []) l
              (All-append (λ u. less u best ≡ false) after (w ∷ []) g (not_lesser, tt))))
    ]

    pub least_lem : (w : A) (ws : List A) → IsFirst (w ∷ ws) (least_from less w ws)
    least_lem w ws = least_from_lem w ws [] [] tt tt

below_trans : (a b c : Option ℕ) → below a b ≡ true → below b c ≡ true → below a c ≡ true
below_trans a b c h k = ground (arith, h, k)

below_mixed : (a b c : Option ℕ) → below a b ≡ true → below c b ≡ false → below a c ≡ true
below_mixed a b c h k = ground (arith, h, k)

-- The cheapest worker is the first of those that ask the least for the skill: each one before it
-- asks more, and none after it asks less.
select_cheapest_lem :
    (task_type : String) (w : Worker) (ws : List Worker)
    → (best : Worker) × (select_cheapest task_type (w ∷ ws) ≡ some best)
      × IsFirst (cheaper task_type) (w ∷ ws) best
unfolding select_cheapest least
select_cheapest_lem task_type w ws = (
  _,
  refl,
  least_lem (cheaper task_type) (λ a b c. below_trans (cost_of task_type a) _ _)
      (λ a b c. below_mixed (cost_of task_type a) _ _) w ws,
)

-- The worker with the least connections is the first of those with the least load: each one before
-- it has more, and none after it has less.
select_least_connections_lem :
    (w : Worker) (ws : List Worker)
    → (best : Worker) × (select_least_connections (w ∷ ws) ≡ some best)
      × IsFirst (λ a b. ltb_ℤ (load_of a) (load_of b)) (w ∷ ws) best
unfolding select_least_connections least
select_least_connections_lem w ws = (
  _,
  refl,
  least_lem (λ a b. ltb_ℤ (load_of a) (load_of b)) (λ a b c h k. ground (arith, h, k))
      (λ a b c h k. ground (arith, h, k)) w ws,
)
