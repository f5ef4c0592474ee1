-- ===== src/Storage/Workers/Expiry.antt =====
-- storage/memory.py: what the removal of expired keys and workers leaves.
use avtomatika.Prelude.{
  ℕ, ◌≡◌, refl, String, Bool, false, Option, none, some, arith, has, ltb, if◌then◌else◌,
}
use avtomatika.Dict.{Dict, get, pop_all, get-pop_all}
use avtomatika.Dict.Unique.{IsUnique, has-keys_where, pop_all-IsUnique}
use avtomatika.Value.{Value}
use avtomatika.Storage.{Memory}
use avtomatika.Storage.Workers.{expired, clean_expired}

-- The deadline is there and before `now`.
abbrev pub is_past : ℕ → Option ℕ → Bool
is_past now none = false
is_past now (some t) = ltb t now

has-expired :
    (now : ℕ) (k : String) (ttls : Dict ℕ)
    → IsUnique ttls
    → has k (expired now ttls) ≡ is_past now (get k ttls)
unfolding expired
has-expired now k ttls u = ground (arith, has-keys_where (λ _ t. ltb t now) k ttls u)

module _ {ℓ} {V : Type ℓ} (now : ℕ) (k : String) (ttls : Dict ℕ) (u : IsUnique ttls) where
  pub get_unexpired :
      (d : Dict V)
      → get k (pop_all (expired now ttls) d) ≡ (if is_past now (get k ttls) then none else get k d)
  get_unexpired d = rw (get-pop_all, has-expired now k ttls u)

-- The value of a generic key as a reader at `now` sees it.
unfoldable pub live_value : ℕ → String → Memory → Option Value
live_value now key m =
    if is_past now (get key m.generic_key_ttls) then none else get key m.generic_keys

module _ (now : ℕ) (m : Memory) (u : IsUnique m.generic_key_ttls) (w : IsUnique m.worker_ttls) where
  pub clean_value : (k : String) → get k (clean_expired now m).generic_keys ≡ live_value now k m
  unfolding clean_expired live_value
  clean_value k = get_unexpired now k m.generic_key_ttls u m.generic_keys

  pub clean_deadline :
      (k : String)
      → get k (clean_expired now m).generic_key_ttls
        ≡ (if is_past now (get k m.generic_key_ttls) then none else get k m.generic_key_ttls)
  unfolding clean_expired
  clean_deadline k = get_unexpired now k m.generic_key_ttls u m.generic_key_ttls

  -- With one deadline for a key and for a worker, a sweep at `now` removes exactly what has a
  -- deadline before `now`: a key and its deadline, a worker and its deadline. All else stays.
  pub clean_expired_lem :
      (k : String)
      → let m' = clean_expired now m in
        (get k m'.generic_keys ≡ live_value now k m)
        × (get k m'.workers ≡ (if is_past now (get k m.worker_ttls) then none else get k m.workers))
        × (get k m'.worker_ttls
            ≡ (if is_past now (get k m.worker_ttls) then none else get k m.worker_ttls))
        × (get k m'.generic_key_ttls
            ≡ (if is_past now (get k m.generic_key_ttls) then none else get k m.generic_key_ttls))
        × (m'.worker_task_queues ≡ m.worker_task_queues)
        × (m'.jobs ≡ m.jobs)
        × (m'.job_queue ≡ m.job_queue)
        × (m'.quarantine_queue ≡ m.quarantine_queue)
        × (m'.watched_jobs ≡ m.watched_jobs)
        × (m'.client_configs ≡ m.client_configs)
        × (m'.quotas ≡ m.quotas)
        × (m'.worker_tokens ≡ m.worker_tokens)
        × (m'.locks ≡ m.locks)
        × (m'.queue_counter ≡ m.queue_counter)
  unfolding clean_expired
  clean_expired_lem k = (
    clean_value k,
    get_unexpired now k m.worker_ttls w m.workers,
    get_unexpired now k m.worker_ttls w m.worker_ttls,
    get_unexpired now k m.generic_key_ttls u m.generic_key_ttls,
    refl,
    refl,
    refl,
    refl,
    refl,
    refl,
    refl,
    refl,
    refl,
    refl,
  )

  pub clean_expired-IsUnique :
      IsUnique (clean_expired now m).generic_key_ttls × IsUnique (clean_expired now m).worker_ttls
  unfolding clean_expired
  clean_expired-IsUnique = (
    pop_all-IsUnique (expired now m.generic_key_ttls) m.generic_key_ttls u,
    pop_all-IsUnique (expired now m.worker_ttls) m.worker_ttls w,
  )
