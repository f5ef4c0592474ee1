-- ===== src/Dict.antt =====
-- Python's `dict` with text keys: the entries in insertion order. An assignment to a key that is
-- there keeps its place, and a new key goes to the end.
pub mod Unique
use avtomatika.Prelude.{
  ◌≡◌, ◌≢◌, refl, String, Bool, true, false, ◌||◌, Option, none, some, List, [], ◌∷◌, ◌++◌, map,
  arith, str_eq, has, eq_iff, eq_refl, if◌then◌else◌,
}

abbrev pub Dict {ℓ} : Type ℓ → Type ℓ
Dict V = List (String × V)

module _ {ℓ} {V : Type ℓ} where
  -- `d.get(k)`
  unfoldable pub get : String → Dict V → Option V
  get k [] = none
  get k ((j, v) ∷ d) = if str_eq j k then some v else get k d

  -- `d[k] = v`
  unfoldable pub put : String → V → Dict V → Dict V
  put k v [] = (k, v) ∷ []
  put k v ((j, w) ∷ d) = if str_eq j k then (j, v) ∷ d else (j, w) ∷ put k v d

  -- `d.pop(k, None)`
  unfoldable pub pop : String → Dict V → Dict V
  pop k [] = []
  pop k ((j, v) ∷ d) = let rest = pop k d in if str_eq j k then rest else (j, v) ∷ rest

  -- `d.get(k, v)`
  abbrev pub get_or : String → V → Dict V → V
  get_or k v d = elim (get k d) [ none ↦ v | some w ↦ w ]

  -- `k in d`
  abbrev pub has_key : String → Dict V → Bool
  has_key k d = elim (get k d) [ none ↦ false | some _ ↦ true ]

  abbrev pub keys : Dict V → List String
  keys = map (λ e. e.0)

  -- `for k in ks: d.pop(k, None)`
  unfoldable pub pop_all : List String → Dict V → Dict V
  pop_all [] d = d
  pop_all (k ∷ ks) d = pop_all ks (pop k d)

  -- `[k for k, v in d.items() if p(k, v)]`, and the same for the values
  unfoldable pub keys_where : (String → V → Bool) → Dict V → List String
  keys_where p [] = []
  keys_where p ((k, v) ∷ d) = let rest = keys_where p d in if p k v then k ∷ rest else rest

  unfoldable pub values_where : (String → V → Bool) → Dict V → List V
  values_where p [] = []
  values_where p ((k, v) ∷ d) = let rest = values_where p d in if p k v then v ∷ rest else rest

  pub get-put :
      (k j : String) (v : V) (d : Dict V)
      → get j (put k v d) ≡ (if str_eq k j then some v else get j d)
  unfolding get put
  get-put k j v [] = refl
  get-put k j v ((i, w) ∷ d) = ground (arith, eq_iff k j, eq_iff i k, eq_iff i j, get-put k j v d)

  pub get-pop :
      (k j : String) (d : Dict V) → get j (pop k d) ≡ (if str_eq k j then none else get j d)
  unfolding get pop
  get-pop k j [] = ground arith
  get-pop k j ((i, w) ∷ d) = ground (arith, eq_iff k j, eq_iff i k, eq_iff i j, get-pop k j d)

  pub get-pop_all :
      (ks : List String) (j : String) (d : Dict V)
      → get j (pop_all ks d) ≡ (if has j ks then none else get j d)
  unfolding pop_all
  get-pop_all [] j d = refl
  get-pop_all (k ∷ ks) j d = ground (arith, get-pop_all ks j (pop k d), get-pop k j d)

  pub get-put_self : (k : String) (v : V) (d : Dict V) → get k (put k v d) ≡ some v
  get-put_self k v d = simp (get-put, eq_refl)

  pub get-put_at : (k j : String) (v : V) (d : Dict V) → k ≡ j → get j (put k v d) ≡ some v
  get-put_at k j v d e = ground (arith, get-put k j v d, eq_iff k j)

  pub get-put_other : (k j : String) (v : V) (d : Dict V) → j ≢ k → get j (put k v d) ≡ get j d
  get-put_other k j v d n = ground (arith, get-put k j v d, eq_iff k j)

  pub get-put_ne :
      (k j : String) (v : V) (d : Dict V) → str_eq k j ≡ false → get j (put k v d) ≡ get j d
  get-put_ne k j v d e = ground (arith, get-put k j v d)

  pub get-pop_self : (k : String) (d : Dict V) → get k (pop k d) ≡ none
  get-pop_self k d = simp (get-pop, eq_refl)

pub ruleset dict_laws = (get-put, get-pop, eq_refl)
