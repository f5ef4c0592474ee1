-- ===== src/Dict/Unique.antt =====
-- A dict has one entry for a key: what that gives for the loops over its entries.
use avtomatika.Prelude.{
  ◌≡◌, refl, String, Bool, false, Option, none, some, List, [], ◌∷◌, arith, has, eq_iff,
}
use avtomatika.Dict.{Dict, get, put, pop, pop_all, keys_where, get-put, get-pop}

module _ {ℓ} {V : Type ℓ} where
  abbrev pub IsUnique : Dict V → Type ℓ
  IsUnique [] = Unit
  IsUnique ((k, v) ∷ d) = (get k d ≡ none) × IsUnique d

  pub put-IsUnique : (k : String) (v : V) (d : Dict V) → IsUnique d → IsUnique (put k v d)
  unfolding put get
  put-IsUnique k v [] h = (refl, tt)
  put-IsUnique k v ((j, w) ∷ d) h =
      ground (arith, put-IsUnique k v d h.1, get-put k j v d, eq_iff j k, eq_iff k j)

  pub pop-IsUnique : (k : String) (d : Dict V) → IsUnique d → IsUnique (pop k d)
  unfolding pop
  pop-IsUnique k [] h = tt
  pop-IsUnique k ((j, w) ∷ d) h = ground (arith, pop-IsUnique k d h.1, get-pop k j d)

  pub pop_all-IsUnique : (ks : List String) (d : Dict V) → IsUnique d → IsUnique (pop_all ks d)
  unfolding pop_all
  pop_all-IsUnique [] d h = h
  pop_all-IsUnique (k ∷ ks) d h = pop_all-IsUnique ks (pop k d) (pop-IsUnique k d h)

  -- The test of the entry of a key, `false` if there is none.
  abbrev pub holds_at : (String → V → Bool) → String → Option V → Bool
  holds_at p k none = false
  holds_at p k (some v) = p k v

  holds_absent :
      (p : String → V → Bool) (k : String) (d : Dict V)
      → get k d ≡ none
      → has k (keys_where p d) ≡ false
  unfolding get keys_where
  holds_absent p k [] h = refl
  holds_absent p k ((j, w) ∷ d) h = ground (arith, holds_absent p k d)

  -- A key is in the comprehension exactly when its entry passes the test.
  pub has-keys_where :
      (p : String → V → Bool) (k : String) (d : Dict V)
      → IsUnique d
      → has k (keys_where p d) ≡ holds_at p k (get k d)
  unfolding get keys_where
  has-keys_where p k [] h = refl
  has-keys_where p k ((j, w) ∷ d) h =
      ground (arith, has-keys_where p k d h.1, holds_absent p k d, holds_absent p j d, eq_iff j k)
