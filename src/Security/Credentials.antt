-- ===== src/Security/Credentials.antt =====
-- security.py: which workers and clients are let in.
use avtomatika.Prelude.{
  ℕ, ◌≡◌, ◌≢◌, ◌⊎◌, inl, inr, refl, ap, sym, not, ◌&&◌, arith, String, true, Option, none, some,
  str_eq, eq_iff, Bool-cases, if◌then◌else◌,
}
use avtomatika.Storage.{Memory}
use avtomatika.Storage.Tokens.{verify_worker_access_token, find_worker_token}
use avtomatika.Executor.{text_or_empty}
use avtomatika.Security.{
  AuthConfig, Auth, granted, refused, is_empty, agrees, check_certificate, compare_token,
  check_decrypted, check_individual, check_global, check_expected, check_static, check_token,
  verify_worker_auth,
}

-- No text, or an empty one.
abbrev Lacks : Option String → Type 0
Lacks none = Unit
Lacks (some s) = s ≡ ""

agrees-empty : (hint worker_id : String) → hint ≡ "" → agrees hint worker_id ≡ true
agrees-empty hint worker_id e = ground (arith, eq_iff hint "")

agrees-same : (hint worker_id : String) → worker_id ≡ hint → agrees hint worker_id ≡ true
agrees-same hint worker_id e = ground (arith, eq_iff worker_id hint)

abbrev named_by : Auth → String
named_by (granted worker_id hash) = worker_id
named_by (refused reason) = ""

module _ (config : AuthConfig) where
  -- The token is the worker's own, once it is decrypted.
  abbrev OwnToken : String → String → Type 0
  OwnToken token expected =
      (expected ≢ "")
      × ((if config.encrypts then config.decrypt_token expected else some expected) ≡ some token)

  abbrev GlobalToken : String → Type 0
  GlobalToken token = (config.global_worker_token ≢ "") × (token ≡ config.global_worker_token)

  check_certificate-worker :
      (cert_identity hint worker_id hash : String)
      → check_certificate config cert_identity hint ≡ granted worker_id hash
      → (agrees hint worker_id ≡ true) × (worker_id ≡ cert_identity)
  unfolding check_certificate
  check_certificate-worker cert_identity hint worker_id hash e =
      ground (arith, eq_iff cert_identity hint)

  check_global-worker :
      (token named reason worker_id hash : String)
      → check_global config token named reason ≡ granted worker_id hash
      → (worker_id ≡ named) × GlobalToken token
  check_global-worker token named reason worker_id hash e =
      ground (arith, eq_iff token config.global_worker_token, eq_iff config.global_worker_token "")

  compare_token-worker :
      (token hint expected worker_id hash : String)
      → compare_token config token hint expected ≡ granted worker_id hash
      → (worker_id ≡ hint) × (expected ≡ token)
  compare_token-worker token hint expected worker_id hash e = ground (arith, eq_iff token expected)

  check_decrypted-worker :
      (token hint : String) (found : Option String) (worker_id hash : String)
      → check_decrypted config token hint found ≡ granted worker_id hash
      → (worker_id ≡ hint) × (found ≡ some token)
  check_decrypted-worker token hint none worker_id hash e = absurd (ground arith)
  check_decrypted-worker token hint (some expected) worker_id hash e =
      let (named, same) = compare_token-worker token hint expected worker_id hash e in
      (named, ap some same)

  abbrev opened : String → Option String
  opened expected = if config.encrypts then config.decrypt_token expected else some expected

  check_individual-worker :
      (token hint expected worker_id hash : String)
      → check_individual config token hint expected ≡ granted worker_id hash
      → (worker_id ≡ hint) × (opened expected ≡ some token)
  unfolding check_individual
  check_individual-worker token hint expected worker_id hash e = elim (Bool-cases config.encrypts) [
    | inl sealed ↦ rw sealed (
        check_decrypted-worker token hint (config.decrypt_token expected) worker_id hash
          (ground arith))
    | inr plain ↦
        rw plain (check_decrypted-worker token hint (some expected) worker_id hash (ground arith))
  ]

  -- The hint is there; `found` is the worker's own token, if it has one.
  abbrev ByToken : String → String → Option String → String → Type 0
  ByToken token hint found worker_id =
      (worker_id ≡ hint)
      × (((expected : String) × (found ≡ some expected) × OwnToken token expected)
          ⊎ (Lacks found × GlobalToken token))

  check_expected-worker :
      (token hint : String) (found : Option String) (worker_id hash : String)
      → check_expected config token hint found ≡ granted worker_id hash
      → ByToken token hint found worker_id
  check_expected-worker token hint none worker_id hash e =
      let (named, shared) =
        check_global-worker token hint "No valid token found" worker_id hash e in
      (named, inr (tt, shared))
  check_expected-worker token hint (some expected) worker_id hash e =
      elim (Bool-cases (is_empty expected)) [
        | inl empty ↦
            let (named, shared) =
              check_global-worker token hint "No valid token found" worker_id hash (ground arith) in
            (named, inr (ground (arith, eq_iff expected ""), shared))
        | inr full ↦
            let (named, own) =
              check_individual-worker token hint expected worker_id hash (ground arith) in
            (named, inl (expected, refl, (ground (arith, eq_iff expected ""), own)))
      ]

  -- The shared token lets in a worker that is not named, under a name of its own.
  abbrev ByStaticToken : String → String → Memory → String → Type 0
  ByStaticToken token hint m worker_id =
      (config.worker_auth_mode ≢ "mtls-only")
      × (((hint ≡ "") × (worker_id ≡ "unknown_authenticated_by_global_token") × GlobalToken token)
          ⊎ ((hint ≢ "") × ByToken token hint (find_worker_token config.fnmatch hint m) worker_id))

  check_static-worker :
      (token hint : String) (m : Memory) (worker_id hash : String)
      → check_static config token hint m ≡ granted worker_id hash
      → ByStaticToken token hint m worker_id
  unfolding check_static
  check_static-worker token hint m worker_id hash e =
      elim (Bool-cases (str_eq config.worker_auth_mode "mtls-only")) [
        | inl strict ↦ absurd (ground arith)
        | inr lax ↦ (
          ground (arith, eq_iff config.worker_auth_mode "mtls-only"),
          elim (Bool-cases (is_empty hint)) [
            | inl empty ↦
                let (named, shared) =
                  check_global-worker token "unknown_authenticated_by_global_token"
                    "Invalid token or missing worker_id hint" worker_id hash (ground arith) in
                inl (ground (arith, eq_iff hint ""), named, shared)
            | inr full ↦ inr (
              ground (arith, eq_iff hint ""),
              check_expected-worker token hint (find_worker_token config.fnmatch hint m) worker_id
                  hash (ground arith),
            )
          ],
        )
      ]

  -- Why the worker is let in: its certificate, an access token that the store knows for it, or a
  -- token that does not expire.
  abbrev pub Credential : ℕ → String → String → String → Memory → String → Type 0
  Credential now token cert_identity hint m worker_id =
      let (found, m') = verify_worker_access_token now (config.sha256 token) m in
      ((config.worker_auth_mode ≢ "token-only")
        × (cert_identity ≢ "")
        × (worker_id ≡ cert_identity))
      ⊎ ((worker_id ≢ "") × (worker_id ≡ text_or_empty found))
      ⊎ ByStaticToken token hint m' worker_id

  static-agrees :
      (token hint : String) (m : Memory) (worker_id : String)
      → ByStaticToken token hint m worker_id
      → agrees hint worker_id ≡ true
  static-agrees token hint m worker_id h = elim (h.1) [
    | inl shared ↦ agrees-empty hint worker_id (shared.0)
    | inr named ↦ agrees-same hint worker_id (named.1.0)
  ]

  check_token-worker :
      (token hint token_worker_id : String) (m : Memory) (worker_id hash : String)
      → check_token config token hint token_worker_id m ≡ granted worker_id hash
      → (agrees hint worker_id ≡ true)
        × (((worker_id ≢ "") × (worker_id ≡ token_worker_id))
            ⊎ ByStaticToken token hint m worker_id)
  unfolding check_token
  check_token-worker token hint token_worker_id m worker_id hash e =
      elim (Bool-cases (is_empty token_worker_id)) [
        | inl none_found ↦
            let static = check_static-worker token hint m worker_id hash (ground arith) in
            (static-agrees token hint m worker_id static, inr static)
        | inr known ↦ elim (Bool-cases (agrees hint token_worker_id)) [
          | inl right ↦
              let e' : granted token_worker_id (config.sha256 token) ≡ granted worker_id hash =
                ground arith in
              let same = ap named_by e' in
              let it_is : worker_id ≡ token_worker_id = sym same in
              (rw it_is right, inl ((λ empty. ground (arith, eq_iff token_worker_id "")), it_is))
          | inr wrong ↦ absurd (ground arith)
        ]
      ]

  -- Whoever is let in as a worker has a credential for it, and is the worker that it says it is, if
  -- it says so: a certificate, where the mode is not "token-only"; an access token that the store
  -- holds for this worker, after what has expired is gone; or, where the mode is not "mtls-only",
  -- the worker's own token or, if it has none or is not named, the token that all workers share.
  pub verify_worker_auth-Credential :
      (now : ℕ) (token cert_identity hint : String) (m : Memory) (worker_id hash : String)
      → (verify_worker_auth config now token cert_identity hint m).0 ≡ granted worker_id hash
      → (agrees hint worker_id ≡ true) × Credential now token cert_identity hint m worker_id
  unfolding verify_worker_auth
  verify_worker_auth-Credential now token cert_identity hint m worker_id hash e =
      let (found, m') = verify_worker_access_token now (config.sha256 token) m in
      let mode = config.worker_auth_mode in
      elim (Bool-cases (not (str_eq mode "token-only") && not (is_empty cert_identity))) [
        | inl certified ↦
            let (right, same) =
              check_certificate-worker cert_identity hint worker_id hash (ground arith) in
            (
              right,
              inl (
                ground (arith, eq_iff mode "token-only"),
                ground (arith, eq_iff cert_identity ""),
                same,
              ),
            )
        | inr bare ↦ elim (Bool-cases (is_empty token)) [
          | inl silent ↦ absurd (ground arith)
          | inr spoken ↦
              let (right, why) =
                check_token-worker token hint (text_or_empty found) m' worker_id hash
                  (ground arith) in
              (right, inr why)
        ]
      ]
