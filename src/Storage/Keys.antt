-- ===== src/Storage/Keys.antt =====
-- storage/memory.py: the generic keys, counters and texts with a time to live.
pub mod Window
use Prim.Native.Char.{code}
use Prim.Native.String.{◌++◌ as str_append}
use avtomatika.Prelude.{
  ℕ, ◌+◌, ◌-◌, ◌/◌, String, Bool, true, false, ◌||◌, not, Option, none, some, List, [], ◌∷◌, map,
  str_eq, ltb, ◌==◌, if◌then◌else◌,
}
use avtomatika.Prelude.Int.{ℤ, pos, negsuc}
use avtomatika.Dict
use avtomatika.Dict.{Dict, get_or, has_key}
use avtomatika.Value.{Value, null, num, text, obj, Job, from_dict, as_int}
use avtomatika.Storage.{Memory}
use avtomatika.Storage.Workers.{after, clean_expired}

-- `key not in generic_keys or generic_key_ttls.get(key, 0) < now`
abbrev pub is_stale : ℕ → String → Memory → Bool
is_stale now key m = not (has_key key m.generic_keys) || ltb (get_or key 0 m.generic_key_ttls) now

-- The number that the increment starts from; `none` where adding 1 raises `TypeError`.
unfoldable counter_base : ℕ → String → Memory → Option ℕ
counter_base now key m =
    if is_stale now key m
    then some 0
    else elim (Dict.get key m.generic_keys) [ none ↦ some 0 | some v ↦ as_int v ]

unfoldable pub increment_key_with_ttl : ℕ → String → ℕ → Memory → Option ℕ × Memory
unfolding counter_base
increment_key_with_ttl now key ttl m = elim (counter_base now key m) [
  | none ↦ (none, m)
  | some n ↦ (
    some (n + 1),
    record m {
      generic_keys = Dict.put key (num (n + 1)) m.generic_keys;
      generic_key_ttls = Dict.put key (after now ttl) m.generic_key_ttls;
    },
  )
]

-- A value that is no integer counts as 0.
abbrev int_or_zero : Option Value → ℕ
int_or_zero none = 0
int_or_zero (some v) = elim (as_int v) [ none ↦ 0 | some n ↦ n ]

unfoldable pub increment_key : String → Memory → ℕ × Memory
increment_key key m =
    let val = int_or_zero (Dict.get key m.generic_keys) + 1 in
    (val, record m { generic_keys = Dict.put key (num val) m.generic_keys })

unfoldable pub set_nx_ttl : ℕ → String → String → ℕ → Memory → Bool × Memory
set_nx_ttl now key value ttl m =
    let m' = clean_expired now m in
    if has_key key m'.generic_keys then (false, m') else (
      true,
      record m' {
        generic_keys = Dict.put key (text value) m'.generic_keys;
        generic_key_ttls = Dict.put key (after now ttl) m'.generic_key_ttls;
      },
    )

-- No time to live, or 0, makes the key last.
unfoldable pub set_str : ℕ → String → String → Option ℕ → Memory → Memory
set_str now key value ttl m = record m {
  generic_keys = Dict.put key (text value) m.generic_keys;
  generic_key_ttls = elim ttl [
    | none ↦ Dict.pop key m.generic_key_ttls
    | some t ↦
        if t == 0
        then Dict.pop key m.generic_key_ttls
        else Dict.put key (after now t) m.generic_key_ttls
  ];
}

-- `str(v) if v is not None else None`; `str` is Python's.
abbrev text_or_none : (Value → String) → Option Value → Option String
text_or_none str none = none
text_or_none str (some null) = none
text_or_none str (some v) = some (str v)

module _ (str : Value → String) where
  unfoldable get_str : ℕ → String → Memory → Option String × Memory
  get_str now key m =
      let m' = clean_expired now m in (text_or_none str (Dict.get key m'.generic_keys), m')

  unfoldable pub mget : ℕ → List String → Memory → List (Option String) × Memory
  mget now keys m =
      let m' = clean_expired now m in
      (map (λ k. text_or_none str (Dict.get k m'.generic_keys)) keys, m')

-- What is left of `key` behind the prefix, if it starts with it.
unfoldable pub strip_prefix : String → String → Option String
strip_prefix String.[] key = some key
strip_prefix (String.◌∷◌ c prefix) String.[] = none
strip_prefix (String.◌∷◌ c prefix) (String.◌∷◌ d key) =
    let rest = strip_prefix prefix key in if code c == code d then rest else none

-- Whole seconds from `now` to the deadline, and -2 if it is past.
abbrev seconds_left : ℕ → ℕ → ℤ
seconds_left now t = if ltb now t then pos ((t - now) / 1000) else negsuc 1

abbrev worker_ttl : ℕ → Option String → Memory → Option ℤ
worker_ttl now none m = none
worker_ttl now (some worker_id) m = elim (Dict.get worker_id m.worker_ttls) [
  | none ↦ none
  | some t ↦ some (seconds_left now t)
]

unfoldable get_ttl : ℕ → String → Memory → ℤ
unfolding strip_prefix
get_ttl now key m = elim (Dict.get key m.generic_key_ttls) [
  | some t ↦ seconds_left now t
  | none ↦ elim (worker_ttl now (strip_prefix "orchestrator:worker:info:" key) m) [
    | some t ↦ t
    | none ↦ elim (worker_ttl now (strip_prefix "orchestrator:worker:heartbeat:" key) m) [
      | some t ↦ t
      | none ↦ negsuc 1
    ]
  ]
]

unfoldable pub set_task_cancellation_flag : ℕ → String → Memory → Memory
unfolding increment_key_with_ttl
set_task_cancellation_flag now task_id m =
    (increment_key_with_ttl now (str_append "task_cancel:" task_id) 3600 m).1

unfoldable pub save_blueprint_contract : String → Job → Memory → Memory
save_blueprint_contract name contract m = record m {
  generic_keys =
      Dict.put (str_append "blueprint:contract:" name) (obj (from_dict contract)) m.generic_keys;
}

unfoldable get_blueprint_contract : String → Memory → Option Value
get_blueprint_contract name m = Dict.get (str_append "blueprint:contract:" name) m.generic_keys
