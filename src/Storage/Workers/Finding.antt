-- ===== src/Storage/Workers/Finding.antt =====
-- storage/memory.py: which workers the searches by skill find.
use avtomatika.Prelude.{
  ℕ, ◌<◌, ◌≡◌, ◌↔◌, refl, sym, ◌∙◌, String, Bool, true, ◌&&◌, Option, none, some, arith, has, any,
}
use avtomatika.Dict.{get, get_or, keys_where}
use avtomatika.Dict.Unique.{IsUnique, holds_at, has-keys_where}
use avtomatika.Storage.{Memory, Worker}
use avtomatika.Storage.Workers.{
  is_live, is_idle, offers, is_hot, find_workers_for_skill, find_workers_by_hot_skill,
}

-- The store knows the worker, its deadline is after `now`, it is idle, and its dict passes the test.
pub record IsCandidate (now : ℕ) (m : Memory) (test : Worker → Bool) (wid : String) : Type 0 where
  pub info : Worker
  pub known : get wid m.workers ≡ some info
  pub live : now < get_or wid 0 m.worker_ttls
  pub idle : is_idle info ≡ true
  pub passes : test info ≡ true

module _ (now : ℕ) (m : Memory) (u : IsUnique m.workers) (wid : String) where
  candidate :
      (test : Worker → Bool)
      → (has wid (keys_where (λ w info. is_live now w m && is_idle info && test info) m.workers)
          ≡ true)
        ↔ IsCandidate now m test wid
  candidate test = (found, listed)
    where
      entry :
          has wid (keys_where (λ w info. is_live now w m && is_idle info && test info) m.workers)
          ≡ holds_at
              (λ w info. is_live now w m && is_idle info && test info)
              wid
              (get wid m.workers)
      entry =
          has-keys_where (λ w info. is_live now w m && is_idle info && test info) wid m.workers u

      by_entry :
          (o : Option Worker)
          → get wid m.workers ≡ o
          → holds_at (λ w info. is_live now w m && is_idle info && test info) wid o ≡ true
          → IsCandidate now m test wid
      by_entry none e h = cc
      by_entry (some info) e h = record {
        info = info;
        known = e;
        live = ground arith;
        idle = ground arith;
        passes = ground arith;
      }

      found :
          has wid (keys_where (λ w info. is_live now w m && is_idle info && test info) m.workers)
            ≡ true
          → IsCandidate now m test wid
      found h = by_entry (get wid m.workers) refl (sym entry ∙ h)

      listed :
          IsCandidate now m test wid
          → has wid (keys_where (λ w info. is_live now w m && is_idle info && test info) m.workers)
            ≡ true
      listed c = rw (entry, c.known) (ground (arith, c.live, c.idle, c.passes))

  -- Exactly the candidates that list the skill by its name or by its type are found.
  pub find_workers_for_skill_iff :
      (skill_name : String)
      → (has wid (find_workers_for_skill now skill_name m) ≡ true)
        ↔ IsCandidate now m (λ info. any (offers skill_name) info.supported_skills) wid
  unfolding find_workers_for_skill
  find_workers_for_skill_iff skill_name =
      candidate (λ info. any (offers skill_name) info.supported_skills)

  -- Exactly the candidates that list the skill as hot are found.
  pub find_workers_by_hot_skill_iff :
      (skill_name : String)
      → (has wid (find_workers_by_hot_skill now skill_name m) ≡ true)
        ↔ IsCandidate now m (λ info. any (is_hot skill_name) info.hot_skills) wid
  unfolding find_workers_by_hot_skill
  find_workers_by_hot_skill_iff skill_name =
      candidate (λ info. any (is_hot skill_name) info.hot_skills)
