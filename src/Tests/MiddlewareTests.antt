-- ===== src/Tests/MiddlewareTests.antt =====
-- The middlewares of ratelimit.py and quota.py at concrete inputs.
use avtomatika.Prelude.{◌≡◌, refl, some, [], ◌∷◌, arith}
use avtomatika.Dict.{get}
use avtomatika.Value.{text}
use avtomatika.Storage.{empty}
use avtomatika.Storage.Quotas.{initialize_client_quota}
use avtomatika.Middleware.{passed, refused}
use avtomatika.Middleware.Admission.{
  rate_limit_lem, quota_lem, rate_answers, quota_answers, admitted,
}

rate_limit_lem_example :
    rate_answers 2 60 (some "10.0.0.1") "/jobs" (0 ∷ 30000 ∷ 50000 ∷ 90000 ∷ []) empty
    ≡ admitted 2 4
unfolding get
rate_limit_lem_example =
    rate_limit_lem 2 60 0 (some "10.0.0.1") "/jobs" (30000 ∷ 50000 ∷ 90000 ∷ []) empty refl
      (omega arith, (omega arith, (omega arith, tt)))

quota_lem_example :
    quota_answers 4 (some (("token", text "t") ∷ [])) (initialize_client_quota "t" 2 empty)
    ≡ admitted 2 4
unfolding get
quota_lem_example = quota_lem 4 2 "t" (some (("token", text "t") ∷ [])) empty refl

admitted_two : admitted 2 4 ≡ passed ∷ passed ∷ refused 429 ∷ refused 429 ∷ []
unfolding admitted
admitted_two = refl
