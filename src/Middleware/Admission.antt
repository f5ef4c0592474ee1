-- ===== src/Middleware/Admission.antt =====
-- ratelimit.py and quota.py: how many requests of a client are let through.
use avtomatika.Prelude.{
  ℕ, zero, suc, ◌+◌, ◌-◌, ◌≤◌, ◌≡◌, refl, ap, ◌∙◌, String, false, Option, some, List, [], ◌∷◌, map,
  arith, length, eq_refl, true,
}
use avtomatika.Dict.{get_or, get-put}
use avtomatika.Value.{Job}
use avtomatika.Storage.{Memory}
use avtomatika.Storage.Keys.{increment_key_with_ttl, is_stale}
use avtomatika.Storage.Keys.Window.{counts, count_up, counts_lem, NoGap}
use avtomatika.Storage.Quotas.{check_and_decrement_quota, initialize_client_quota}
use avtomatika.Middleware.{
  Answer, passed, refused, answer_of, rate_limit_key, rate_limit_middleware, quota_middleware,
  token_of,
}

-- The answers to `n` requests of which `limit` are let through.
unfoldable pub admitted : ℕ → ℕ → List Answer
admitted limit zero = []
admitted zero (suc n) = refused 429 ∷ admitted zero n
admitted (suc limit) (suc n) = passed ∷ admitted limit n

-- The answers to requests at these times, all from one address to one path.
unfoldable pub rate_answers : ℕ → ℕ → Option String → String → List ℕ → Memory → List Answer
rate_answers limit period remote path [] m = []
rate_answers limit period remote path (now ∷ times) m =
    let (answer, m') = rate_limit_middleware limit period now false remote path m in
    answer ∷ rate_answers limit period remote path times m'

rate_answers-counts :
    (limit period : ℕ) (remote : Option String) (path : String) (times : List ℕ) (m : Memory)
    → rate_answers limit period remote path times m
      ≡ map (answer_of limit) (counts times (rate_limit_key remote path) period m)
unfolding rate_answers rate_limit_middleware counts
rate_answers-counts limit period remote path [] m = refl
rate_answers-counts limit period remote path (now ∷ times) m =
    let key = rate_limit_key remote path in
    ap (λ (rest : List Answer). answer_of limit (increment_key_with_ttl now key period m).0 ∷ rest)
      (rate_answers-counts limit period remote path times
        (increment_key_with_ttl now key period m).1)

-- Beyond the limit, all are refused.
past :
    (limit n : ℕ) (times : List ℕ)
    → limit ≤ n
    → map (answer_of limit) (count_up (n + 1) times) ≡ admitted 0 (length times)
unfolding count_up admitted
past limit n [] h = refl
past limit n (now ∷ times) h = ground (arith, h, past limit (n + 1) times (omega (arith, h)))

-- After `n` counts, `rest` more are let through.
count_up-admitted :
    (limit n rest : ℕ) (times : List ℕ)
    → limit ≡ n + rest
    → map (answer_of limit) (count_up (n + 1) times) ≡ admitted rest (length times)
unfolding count_up admitted
count_up-admitted limit n rest [] e = refl
count_up-admitted limit n zero (now ∷ times) e =
    ground (arith, e, past limit (n + 1) times (omega (arith, e)))
count_up-admitted limit n (suc rest) (now ∷ times) e =
    ground (arith, e, count_up-admitted limit (n + 1) rest times (omega (arith, e)))

-- Requests from one address to one path outside the worker API, none later than the period after
-- the one before, the first of them on a counter that is missing or past its deadline: the first
-- `limit` are let through, and all later ones are refused with 429, however long they go on, as
-- each request moves the deadline of the counter.
pub rate_limit_lem :
    (limit period now : ℕ) (remote : Option String) (path : String) (times : List ℕ) (m : Memory)
    → is_stale now (rate_limit_key remote path) m ≡ true
    → NoGap period now times
    → rate_answers limit period remote path (now ∷ times) m ≡ admitted limit (length (now ∷ times))
rate_limit_lem limit period now remote path times m stale h =
    rate_answers-counts limit period remote path (now ∷ times) m
    ∙ ap (map (answer_of limit))
        (counts_lem (rate_limit_key remote path) period now times m stale h)
    ∙ count_up-admitted limit 0 limit (now ∷ times) (omega arith)

-- The answers to `n` requests of a client, one after the other.
unfoldable pub quota_answers : ℕ → Option Job → Memory → List Answer
quota_answers zero config m = []
quota_answers (suc n) config m =
    let (answer, m') = quota_middleware config m in answer ∷ quota_answers n config m'

quota_answers-admitted :
    (n q : ℕ) (token : String) (config : Option Job) (m : Memory)
    → token_of config ≡ some token
    → get_or token 0 m.quotas ≡ q
    → quota_answers n config m ≡ admitted q n
unfolding quota_answers quota_middleware check_and_decrement_quota admitted
quota_answers-admitted zero q token config m t h = refl
quota_answers-admitted (suc n) zero token config m t h = grind (
  arith,
  quota_answers-admitted n zero token config (check_and_decrement_quota token m).1 t,
  get-put token token (get_or token 0 m.quotas - 1) m.quotas,
  eq_refl token,
)
quota_answers-admitted (suc n) (suc q) token config m t h = grind (
  arith,
  quota_answers-admitted n q token config (check_and_decrement_quota token m).1 t,
  get-put token token (get_or token 0 m.quotas - 1) m.quotas,
  eq_refl token,
)

-- A client whose configuration names its token, with a quota of `q`: the first `q` of any number of
-- requests are let through, and the later ones are refused with 429.
pub quota_lem :
    (n q : ℕ) (token : String) (config : Option Job) (m : Memory)
    → token_of config ≡ some token
    → quota_answers n config (initialize_client_quota token q m) ≡ admitted q n
unfolding initialize_client_quota
quota_lem n q token config m t =
    quota_answers-admitted n q token config (initialize_client_quota token q m) t
      (ground (arith, get-put token token q m.quotas, eq_refl token))
