-- ===== src/Storage/Quotas/Spending.antt =====
-- storage/memory.py: a client's quota pays for as many requests as it says.
use Prim.Native.Nat.{min}
use avtomatika.Prelude.{
  ℕ, zero, suc, ◌+◌, ◌-◌, ◌≡◌, ◌≢◌, refl, String, false, arith, str_eq, eq_iff, eq_refl,
  if◌then◌else◌,
}
use avtomatika.Dict
use avtomatika.Dict.{get_or, get-put}
use avtomatika.Storage.{Memory}
use avtomatika.Storage.Quotas.{initialize_client_quota, check_and_decrement_quota}

-- `n` requests of one client, one after the other: how many are let through, and the store.
unfoldable spend : ℕ → String → Memory → ℕ × Memory
unfolding check_and_decrement_quota
spend zero token m = (0, m)
spend (suc n) token m =
    let (is_ok, m₁) = check_and_decrement_quota token m in
    let (passed, m₂) = spend n token m₁ in (if is_ok then passed + 1 else passed, m₂)

spend-min :
    (n : ℕ) (token : String) (m : Memory)
    → ((spend n token m).0 ≡ min n (get_or token 0 m.quotas))
      × (get_or token 0 (spend n token m).1.quotas ≡ get_or token 0 m.quotas - n)
unfolding spend
spend-min zero token m = (omega arith, omega arith)
spend-min (suc n) token m =
    let m₁ = (check_and_decrement_quota token m).1 in
    let ih = spend-min n token m₁ in
    ground
      (arith, ih.0, ih.1, get-put token token (get_or token 0 m.quotas - 1) m.quotas, eq_refl token)

-- After a quota of `q` is set, exactly the first `q` of any number of requests of the client are
-- let through: of `n` requests, the smaller of `n` and `q`; and what is left is `q` less that.
spend-initialize :
    (q n : ℕ) (token : String) (m : Memory)
    → ((spend n token (initialize_client_quota token q m)).0 ≡ min n q)
      × (get_or token 0 (spend n token (initialize_client_quota token q m)).1.quotas ≡ q - n)
unfolding initialize_client_quota
spend-initialize q n token m =
    let m' = initialize_client_quota token q m in
    let h = spend-min n token m' in
    ground (arith, h.0, h.1, get-put token token q m.quotas, eq_refl token)

spend_one :
    (n : ℕ) (token other : String) (m : Memory)
    → str_eq token other ≡ false
    → Dict.get other (spend n token m).1.quotas ≡ Dict.get other m.quotas
unfolding spend
spend_one zero token other m h = refl
spend_one (suc n) token other m h =
    let m₁ = (check_and_decrement_quota token m).1 in
    ground (
      arith,
      spend_one n token other m₁ h,
      get-put token other (get_or token 0 m.quotas - 1) m.quotas,
    )

-- The requests of one client leave the quota of every other client as it was.
spend-others :
    (n : ℕ) (token other : String) (m : Memory)
    → token ≢ other
    → Dict.get other (spend n token m).1.quotas ≡ Dict.get other m.quotas
spend-others n token other m h = spend_one n token other m (ground (arith, eq_iff token other))
