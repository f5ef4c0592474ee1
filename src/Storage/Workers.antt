-- ===== src/Storage/Workers.antt =====
-- storage/memory.py: the registry of workers, their time to live and their load.
pub mod Expiry
pub mod Finding
pub mod Load
use avtomatika.Prelude.{
  ℕ, ◌+◌, ◌-◌, ◌*◌, String, Bool, true, false, ◌&&◌, ◌||◌, Option, none, some, List, [], ◌∷◌, any,
  str_eq, ltb, leb, length, if◌then◌else◌,
}
use avtomatika.Prelude.Int.{ℤ, pos, suc_ℤ, pred_ℤ, ltb_ℤ}
use avtomatika.Dict
use avtomatika.Dict.{Dict, get_or, has_key, pop_all, keys_where, values_where}
use avtomatika.Value.{Value}
use avtomatika.Storage.{Memory, Worker, WorkerUpdate, Skill, HotSkill, plain, described}

-- The keys with a deadline before `now`: `[k for k, t in ttls.items() if t < now]`.
unfoldable pub expired : ℕ → Dict ℕ → List String
expired now ttls = keys_where (λ _ t. ltb t now) ttls

unfoldable pub clean_expired : ℕ → Memory → Memory
unfolding expired
clean_expired now m =
    let generic = expired now m.generic_key_ttls in
    let gone = expired now m.worker_ttls in
    record m {
      generic_keys = pop_all generic m.generic_keys;
      generic_key_ttls = pop_all generic m.generic_key_ttls;
      workers = pop_all gone m.workers;
      worker_ttls = pop_all gone m.worker_ttls;
    }

-- The moment `ttl` seconds from now.
abbrev pub after : ℕ → ℕ → ℕ
after now ttl = now + ttl * 1000

-- 1.0, in units of 1/10000
abbrev pub full_reputation : ℕ
full_reputation = 10000

-- `d.setdefault(key, value)` for an optional key
abbrev default_to {ℓ} : {A : Type ℓ} → A → Option A → Option A
default_to a none = some a
default_to a (some b) = some b

abbrev pub or_else {ℓ} : {A : Type ℓ} → Option A → A → A
or_else none a = a
or_else (some b) a = b

unfoldable pub register_worker : ℕ → String → Worker → ℕ → Memory → Memory
register_worker now worker_id worker_info ttl m = record m {
  workers =
      Dict.put worker_id
        (record worker_info { reputation = default_to full_reputation worker_info.reputation })
        m.workers;
  worker_ttls = Dict.put worker_id (after now ttl) m.worker_ttls;
  worker_task_queues =
      if has_key worker_id m.worker_task_queues
      then m.worker_task_queues
      else Dict.put worker_id [] m.worker_task_queues;
}

unfoldable pub deregister_worker : String → Memory → Memory
deregister_worker worker_id m = record m {
  workers = Dict.pop worker_id m.workers;
  worker_ttls = Dict.pop worker_id m.worker_ttls;
  worker_task_queues = Dict.pop worker_id m.worker_task_queues;
}

unfoldable pub refresh_worker_ttl : ℕ → String → ℕ → Memory → Bool × Memory
refresh_worker_ttl now worker_id ttl m =
    if has_key worker_id m.workers
    then (true, record m { worker_ttls = Dict.put worker_id (after now ttl) m.worker_ttls })
    else (false, m)

-- `worker.update(changes)`
abbrev pub changed : WorkerUpdate → Worker → Worker
changed u w = record w {
  status = elim u.status [ none ↦ w.status | some s ↦ some s ];
  supported_skills = or_else u.supported_skills w.supported_skills;
  hot_skills = or_else u.hot_skills w.hot_skills;
  reputation = elim u.reputation [ none ↦ w.reputation | some r ↦ some r ];
  internal_load = elim u.internal_load [ none ↦ w.internal_load | some l ↦ some l ];
}

abbrev pub update_found : String → WorkerUpdate → Option Worker → Memory → Option Worker × Memory
update_found worker_id u none m = (none, m)
update_found worker_id u (some w) m =
    (some (changed u w), record m { workers = Dict.put worker_id (changed u w) m.workers })

unfoldable pub update_worker_data : String → WorkerUpdate → Memory → Option Worker × Memory
update_worker_data worker_id u m = update_found worker_id u (Dict.get worker_id m.workers) m

unfoldable pub update_worker_status :
    ℕ → String → WorkerUpdate → ℕ → Memory → Option Worker × Memory
update_worker_status now worker_id u ttl m =
    if has_key worker_id m.workers
    then update_found worker_id u (Dict.get worker_id m.workers)
        (record m { worker_ttls = Dict.put worker_id (after now ttl) m.worker_ttls })
    else (none, m)

unfoldable pub get_worker_info : String → Memory → Option Worker
get_worker_info worker_id m = Dict.get worker_id m.workers

-- Adds one to the load of a known worker.
unfoldable pub increment_worker_load : String → Memory → Memory
increment_worker_load worker_id m = elim (Dict.get worker_id m.workers) [
  | none ↦ m
  | some w ↦ record m {
    workers =
        Dict.put worker_id
          (record w { internal_load = some (suc_ℤ (or_else w.internal_load (pos 0))) }) m.workers;
  }
]

unfoldable pub decrement_worker_load : String → Memory → Memory
decrement_worker_load worker_id m = elim (Dict.get worker_id m.workers) [
  | none ↦ m
  | some w ↦
      let current = or_else w.internal_load (pos 0) in
      if ltb_ℤ (pos 0) current
      then record m {
        workers = Dict.put worker_id (record w { internal_load = some (pred_ℤ current) }) m.workers;
      }
      else m
]

-- The worker's deadline is after `now`; a missing one reads as 0.
abbrev pub is_live : ℕ → String → Memory → Bool
is_live now worker_id m = ltb now (get_or worker_id 0 m.worker_ttls)

unfoldable get_available_workers : ℕ → Memory → List Worker
get_available_workers now m = values_where (λ worker_id _. is_live now worker_id m) m.workers

unfoldable get_active_worker_ids : ℕ → Memory → List String
get_active_worker_ids now m = keys_where (λ _ ttl. ltb now ttl) m.worker_ttls

unfoldable cleanup_expired_workers : ℕ → Memory → Memory
cleanup_expired_workers now m = clean_expired now m

unfoldable get_active_worker_count : ℕ → Memory → ℕ × Memory
get_active_worker_count now m = let m' = clean_expired now m in (length m'.workers, m')

unfoldable get_workers : List String → Memory → List Worker
get_workers [] m = []
get_workers (wid ∷ wids) m =
    let rest = get_workers wids m in
    elim (Dict.get wid m.workers) [ none ↦ rest | some w ↦ w ∷ rest ]

-- `info.get("status", "idle") == "idle"`
abbrev pub is_idle : Worker → Bool
is_idle w = elim w.status [ none ↦ true | some s ↦ str_eq s "idle" ]

abbrev is_text : String → Option String → Bool
is_text s none = false
is_text s (some t) = str_eq t s

-- `skill_name in (name, skill_type)`
abbrev pub offers : String → Skill → Bool
offers skill_name skill = is_text skill_name skill.name || is_text skill_name skill.kind

abbrev pub is_hot : String → HotSkill → Bool
is_hot skill_name (plain name) = str_eq name skill_name
is_hot skill_name (described name) = is_text skill_name name

unfoldable pub find_workers_for_skill : ℕ → String → Memory → List String
find_workers_for_skill now skill_name m =
    keys_where
      (λ worker_id info.
        is_live now worker_id m && is_idle info && any (offers skill_name) info.supported_skills)
      m.workers

unfoldable pub find_workers_by_hot_skill : ℕ → String → Memory → List String
find_workers_by_hot_skill now skill_name m =
    keys_where
      (λ worker_id info.
        is_live now worker_id m && is_idle info && any (is_hot skill_name) info.hot_skills)
      m.workers
