-- ===== src/WorkerService/Trust.antt =====
-- services/worker_service.py: which messages `_verify_zero_trust` lets through.
use avtomatika.Prelude.{
  ℕ, ◌≤◌, ◌≡◌, ◌≢◌, ◌↔◌, inl, inr, arith, String, true, false, none, some, List, eq_iff,
  Option-cases,
}
use avtomatika.Dict
use avtomatika.Value.{Job}
use avtomatika.Storage.{Memory}
use avtomatika.Executor.{value_or_null}
use avtomatika.Executor.Outcomes.{is_set}
use avtomatika.WorkerService.{
  Rxon, Python, Settings, SecurityContext, distance, signed_by_other, nonempty_text, secret_of,
  check_context, check_security, check_timestamp, verify_zero_trust,
}

module _ (rxon : Rxon) (python : Python) (settings : Settings) where
  -- The message has a time, at most a minute from now.
  abbrev pub Fresh : ℕ → Job → Type 0
  Fresh now payload =
      (is_set (Dict.get "timestamp" payload) ≡ true)
      × ((t : ℕ) × (python.int (value_or_null (Dict.get "timestamp" payload)) ≡ some t)
          × (distance now t ≤ 60))

  abbrev Authentic : Job → String → String → List String → SecurityContext → Type 0
  Authentic payload worker_id secret ignore_fields security =
      (signature : String) × (nonempty_text security.signature ≡ some signature)
      × (signed_by_other security.signer_id worker_id ≡ false)
      × (rxon.verify_signature payload signature secret ignore_fields ≡ true)

  -- The message has a signature, by no other worker, that the secret verifies.
  abbrev pub Signed : Job → String → String → List String → Type 0
  Signed payload worker_id secret ignore_fields =
      (is_set (Dict.get "security" payload) ≡ true)
      × ((security : SecurityContext) × (rxon.security_context
              (value_or_null (Dict.get "security" payload))
            ≡ some security)
          × Authentic payload worker_id secret ignore_fields security)

  check_timestamp_iff :
      (now : ℕ) (payload : Job)
      → (check_timestamp rxon python settings now payload ≡ none) ↔ Fresh now payload
  unfolding check_timestamp
  check_timestamp_iff now payload = (
    λ e. elim (Option-cases (python.int (value_or_null (Dict.get "timestamp" payload)))) [
      | inl f ↦ ground arith
      | inr (t, f) ↦ (ground arith, (t, f, ground arith))
    ],
    λ h. let (s, (t, f, d)) = h in ground arith,
  )

  check_context_iff :
      (payload : Job) (worker_id secret : String) (ignore_fields : List String)
      (security : SecurityContext)
      → secret ≢ ""
      → (check_context rxon python settings payload worker_id secret ignore_fields security ≡ none)
        ↔ Authentic payload worker_id secret ignore_fields security
  unfolding check_context
  check_context_iff payload worker_id secret ignore_fields security n = (
    λ e. elim (Option-cases (nonempty_text security.signature)) [
      | inl f ↦ ground (arith, eq_iff secret "")
      | inr (signature, f) ↦
          (signature, f, ground (arith, eq_iff secret ""), ground (arith, eq_iff secret ""))
    ],
    λ h. let (signature, f, s, v) = h in ground arith,
  )

  check_security_iff :
      (payload : Job) (worker_id secret : String) (ignore_fields : List String)
      → secret ≢ ""
      → (check_security rxon python settings payload worker_id ignore_fields secret ≡ none)
        ↔ Signed payload worker_id secret ignore_fields
  unfolding check_security
  check_security_iff payload worker_id secret ignore_fields n = (
    λ e. elim (Option-cases (rxon.security_context (value_or_null (Dict.get "security" payload)))) [
      | inl f ↦ ground (arith, eq_iff secret "")
      | inr (security, f) ↦ (
        ground (arith, eq_iff secret ""),
        (
          security,
          f,
          (check_context_iff payload worker_id secret ignore_fields security n).0
              (ground (arith, eq_iff secret "")),
        ),
      )
    ],
    λ h.
        let (s, (security, f, a)) = h in
        ground (arith, (check_context_iff payload worker_id secret ignore_fields security n).1 a),
  )

  -- A message of a worker that has a secret, other than the orchestrator's own "ghost", is trusted
  -- exactly when its time is at most sixty seconds from now, before or after, and it has a
  -- signature that the secret verifies and that names no other worker as the signer.
  pub verify_zero_trust_iff :
      (now : ℕ) (payload : Job) (worker_id secret : String) (ignore_fields : List String)
      (m : Memory)
      → worker_id ≢ "ghost"
      → secret_of rxon python settings worker_id m ≡ some secret
      → secret ≢ ""
      → (verify_zero_trust rxon python settings now payload worker_id ignore_fields m ≡ none)
        ↔ Fresh now payload × Signed payload worker_id secret ignore_fields
  unfolding verify_zero_trust
  verify_zero_trust_iff now payload worker_id secret ignore_fields m g e n =
      let fresh = check_timestamp_iff now payload in
      let signed = check_security_iff payload worker_id secret ignore_fields n in
      (
        λ h. (
          fresh.0 (ground (arith, eq_iff worker_id "ghost")),
          signed.0 (ground (arith, eq_iff worker_id "ghost")),
        ),
        λ h. ground (arith, eq_iff worker_id "ghost", fresh.1 h.0, signed.1 h.1),
      )
