-- ===== src/Watcher/Keys.antt =====
-- watcher.py: the keys under which jobs and branches are watched.
use Prim.Native.Char.{Char, code}
use Prim.Native.String.{◌++◌ as str_append}
use Prim.Native.String.append.{nil, cons}
use avtomatika.Prelude.{
  ◌≡◌, refl, ap, ◌∙◌, String, Bool, true, false, none, some, arith, ◌==◌, Bool-cases, inl, inr,
  if◌then◌else◌,
}
use avtomatika.Orchestrator.{watch_key}
use avtomatika.Watcher.{split_key, prefixed}

abbrev pub has_colon : String → Bool
has_colon String.[] = false
has_colon (String.◌∷◌ c rest) = let later = has_colon rest in if code c == b':' then true else later

abbrev colon : Char
colon = ":"

colon-append : (task_id : String) → str_append ":" task_id ≡ String.◌∷◌ colon task_id
colon-append task_id = cons colon "" task_id ∙ ap (String.◌∷◌ colon) (nil task_id)

split_key-colon :
    (job_id task_id : String)
    → has_colon job_id ≡ false
    → split_key (str_append job_id (String.◌∷◌ colon task_id)) ≡ some (job_id, task_id)
unfolding split_key
split_key-colon String.[] task_id h = ap split_key (nil (String.◌∷◌ colon task_id))
split_key-colon (String.◌∷◌ c job_id) task_id h = elim (Bool-cases (code c == b':')) [
  | inl is_colon ↦ absurd (ground arith)
  | inr other ↦
      ap split_key (cons c job_id (String.◌∷◌ colon task_id))
      ∙ rw other (ap (prefixed c) (split_key-colon job_id task_id (ground arith)))
]

split_key-none : (job_id : String) → has_colon job_id ≡ false → split_key job_id ≡ none
unfolding split_key
split_key-none String.[] h = refl
split_key-none (String.◌∷◌ c job_id) h = elim (Bool-cases (code c == b':')) [
  | inl is_colon ↦ absurd (ground arith)
  | inr other ↦ rw other (ap (prefixed c) (split_key-none job_id (ground arith)))
]

-- From a key that the dispatcher, the engine or the worker service watches, the watcher gets back
-- the job and, for a branch, its task, if the job's identifier has no colon; the task's may have.
pub split_key-watch_key :
    (is_parallel : Bool) (job_id task_id : String)
    → has_colon job_id ≡ false
    → split_key (watch_key is_parallel job_id task_id)
      ≡ (if is_parallel then some (job_id, task_id) else none)
split_key-watch_key true job_id task_id h =
    ap (λ s. split_key (str_append job_id s)) (colon-append task_id)
    ∙ split_key-colon job_id task_id h
split_key-watch_key false job_id task_id h = split_key-none job_id h
