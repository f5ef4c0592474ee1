-- ===== src/Storage/Tasks/Order.antt =====
-- storage/memory.py: the order in which a worker receives its tasks.
use mathlib.Core.List.{Perm, perm_middle, perm-append_left_iff}
use mathlib.Core.List.Perm
use avtomatika.Prelude.{
  ℕ, ◌+◌, ◌≤◌, ◌<◌, ◌≡◌, refl, sym, ap, ◌∙◌, zero, suc, ◌++◌, map, length, String, true, false,
  Option, none, some, List, [], ◌∷◌, All, arith, str_eq, str_ne, eq_refl, ◌≢◌, ◌⊎◌, Bool-cases, inl,
  inr, if◌then◌else◌,
}
use avtomatika.Prelude.Int.{ℤ, ltb_ℤ, ltb_ℤ_trans, eq_of_not-ltb_ℤ}
use avtomatika.Dict.{get_or, get-put, get-put_self}
use avtomatika.Value.{Job}
use avtomatika.Storage.{Memory, Item}
use avtomatika.Storage.Tasks.{before, insert, enqueue_task_for_worker, receive}

-- Of greater priority, or of the same priority and earlier.
abbrev pub Precedes : Item → Item → Type 0
Precedes x y =
    (ltb_ℤ y.priority x.priority ≡ true) ⊎ ((x.priority ≡ y.priority) × (x.counter < y.counter))

Precedes-trans : (a b c : Item) → Precedes a b → Precedes b c → Precedes a c
Precedes-trans a b c (inl h) (inl k) = inl (ltb_ℤ_trans c.priority b.priority a.priority k h)
Precedes-trans a b c (inl h) (inr (same, k)) = inl (rw (sym same) h)
Precedes-trans a b c (inr (same, h)) (inl k) = inl (rw same k)
Precedes-trans a b c (inr (same, h)) (inr (same', k)) = inr (same ∙ same', omega arith)

before-Precedes : (a b : Item) → before a b ≡ true → Precedes a b
before-Precedes a b h = elim (Bool-cases (ltb_ℤ b.priority a.priority)) [
  | inl above ↦ inl above
  | inr below ↦ elim (Bool-cases (ltb_ℤ a.priority b.priority)) [
    | inl under ↦ absurd (ground arith)
    | inr level ↦ inr (eq_of_not-ltb_ℤ a.priority b.priority level below, ground arith)
  ]
]

-- Each item comes before all behind it.
abbrev pub IsOrdered : List Item → Type 0
IsOrdered [] = Unit
IsOrdered (x ∷ q) = All (Precedes x) q × IsOrdered q

-- No counter in the queue is beyond `n`.
abbrev IsNumbered : ℕ → List Item → Type 0
IsNumbered n q = All (λ x. x.counter ≤ n) q

All-insert : (P : Item → Type 0) (e : Item) (q : List Item) → P e → All P q → All P (insert e q)
unfolding insert
All-insert P e [] h k = (h, tt)
All-insert P e (y ∷ q) h k = elim (Bool-cases (before e y)) [
  | inl first ↦ rw first (h, k)
  | inr later ↦ rw later (k.0, All-insert P e q h k.1)
]

All-Precedes_trans :
    (e x : Item) (q : List Item) → Precedes e x → All (Precedes x) q → All (Precedes e) q
All-Precedes_trans e x [] h k = tt
All-Precedes_trans e x (y ∷ q) h k = (Precedes-trans e x y h k.0, All-Precedes_trans e x q h k.1)

-- Different counters: one of the two comes first.
not_before-Precedes : (e x : Item) → x.counter < e.counter → before e x ≡ false → Precedes x e
not_before-Precedes e x h k = elim (Bool-cases (ltb_ℤ e.priority x.priority)) [
  | inl above ↦ inl above
  | inr below ↦ inr (eq_of_not-ltb_ℤ x.priority e.priority (ground arith) below, h)
]

insert-IsOrdered :
    (n : ℕ) (e : Item) (q : List Item)
    → n < e.counter
    → IsNumbered n q
    → IsOrdered q
    → IsOrdered (insert e q)
unfolding insert
insert-IsOrdered n e [] h k o = (tt, tt)
insert-IsOrdered n e (x ∷ q) h k o = elim (Bool-cases (before e x)) [
  | inl first ↦
      rw first
        ((before-Precedes e x first, All-Precedes_trans e x q (before-Precedes e x first) o.0), o)
  | inr later ↦ rw later (
    All-insert (Precedes x) e q (not_before-Precedes e x (omega arith) later) o.0,
    insert-IsOrdered n e q h k.1 o.1,
  )
]

insert-IsNumbered :
    (n : ℕ) (e : Item) (q : List Item) → e.counter ≤ n → IsNumbered n q → IsNumbered n (insert e q)
unfolding insert
insert-IsNumbered n e [] h k = (h, tt)
insert-IsNumbered n e (x ∷ q) h k = ground (arith, insert-IsNumbered n e q h k.1)

pub IsNumbered-mono : (n k : ℕ) (q : List Item) → n ≤ k → IsNumbered n q → IsNumbered k q
IsNumbered-mono n k [] h i = tt
IsNumbered-mono n k (x ∷ q) h i = (omega arith, IsNumbered-mono n k q h i.1)

-- A queue that is in order, with counters up to the store's.
pub record IsQueue (n : ℕ) (q : List Item) : Type 0 where
  pub ordered : IsOrdered q
  pub numbered : IsNumbered n q

pub insert-IsQueue :
    (n : ℕ) (e : Item) (q : List Item)
    → e.counter ≡ n + 1
    → IsQueue n q
    → IsQueue (n + 1) (insert e q)
insert-IsQueue n e q h v = record {
  ordered = insert-IsOrdered n e q (omega arith) v.numbered v.ordered;
  numbered =
      insert-IsNumbered (n + 1) e q (omega arith)
        (IsNumbered-mono n (n + 1) q (omega arith) v.numbered);
}

pub insert-perm : (e : Item) (q : List Item) → Perm (insert e q) (e ∷ q)
unfolding insert
insert-perm e [] = Perm.refl (e ∷ [])
insert-perm e (x ∷ q) = elim (Bool-cases (before e x)) [
  | inl first ↦ rw first (Perm.refl (e ∷ (x ∷ q)))
  | inr later ↦ rw later (Perm.trans (Perm.cons x (insert-perm e q)) (Perm.swap e x q))
]

unfoldable pub queue_of : String → Memory → List Item
queue_of worker_id m = get_or worker_id [] m.worker_task_queues

pub queue_of-enqueue :
    (worker_id : String) (task : Job) (priority : ℤ) (m : Memory) (j : String)
    → queue_of j (enqueue_task_for_worker worker_id task priority m) ≡ (
        if str_eq worker_id j
        then insert
            (record { priority = priority; counter = m.queue_counter + 1; payload = task })
            (queue_of worker_id m)
        else queue_of j m)
unfolding queue_of enqueue_task_for_worker
queue_of-enqueue worker_id task priority m j = ground (
  arith,
  get-put worker_id j
      (insert (record { priority = priority; counter = m.queue_counter + 1; payload = task })
        (get_or worker_id [] m.worker_task_queues))
      m.worker_task_queues,
)

-- Enqueueing a task for a worker whose queue is in order keeps it in order, adds exactly that task,
-- and leaves the queue of every other worker as it was.
enqueue_task_lem :
    (worker_id : String) (task : Job) (priority : ℤ) (m : Memory)
    → IsQueue m.queue_counter (queue_of worker_id m)
    → let m' = enqueue_task_for_worker worker_id task priority m in
      IsQueue m'.queue_counter (queue_of worker_id m')
      × Perm (queue_of worker_id m') (
          record { priority = priority; counter = m.queue_counter + 1; payload = task }
          ∷ queue_of worker_id m)
      × ((other : String) → worker_id ≢ other → queue_of other m' ≡ queue_of other m)
enqueue_task_lem worker_id task priority m v =
    let e : Item = record { priority = priority; counter = m.queue_counter + 1; payload = task } in
    (
      rw (queue_of-enqueue, eq_refl)
          (unfold enqueue_task_for_worker in
            insert-IsQueue m.queue_counter e (queue_of worker_id m) refl v),
      rw (queue_of-enqueue, eq_refl) (insert-perm e (queue_of worker_id m)),
      λ other h. rw (queue_of-enqueue, str_ne worker_id other h),
    )

receive_from :
    (worker_id : String) (m : Memory) (item : Item) (q : List Item)
    → queue_of worker_id m ≡ item ∷ q
    → ((receive worker_id m).0 ≡ some item.payload)
      × ((receive worker_id m).1.queue_counter ≡ m.queue_counter)
      × (queue_of worker_id (receive worker_id m).1 ≡ q)
unfolding queue_of receive
receive_from worker_id m item q h =
    let put_q = get-put_self worker_id q m.worker_task_queues in
    (ground (arith, h), ground (arith, h), ground (arith, h, put_q))

receive_nothing :
    (worker_id : String) (m : Memory) → queue_of worker_id m ≡ [] → (receive worker_id m).0 ≡ none
unfolding queue_of receive
receive_nothing worker_id m h = ground (arith, h)

-- What comes out of a queue: the payloads, one for each call.
unfoldable pub receive_all : ℕ → String → Memory → List (Option Job)
receive_all zero worker_id m = []
receive_all (suc n) worker_id m =
    (receive worker_id m).0 ∷ receive_all n worker_id (receive worker_id m).1

unfoldable pub enqueue_all : String → List (Job × ℤ) → Memory → Memory
enqueue_all worker_id [] m = m
enqueue_all worker_id ((task, priority) ∷ tasks) m =
    enqueue_all worker_id tasks (enqueue_task_for_worker worker_id task priority m)

-- The tasks as items, numbered from `n + 1` in the order of their arrival.
abbrev pub numbered_from : ℕ → List (Job × ℤ) → List Item
numbered_from n [] = []
numbered_from n ((task, priority) ∷ tasks) =
    record { priority = priority; counter = n + 1; payload = task } ∷ numbered_from (n + 1) tasks

receive_all-queue :
    (worker_id : String) (q : List Item) (m : Memory)
    → queue_of worker_id m ≡ q
    → receive_all (length q) worker_id m ≡ map (λ x. some x.payload) q
unfolding receive_all
receive_all-queue worker_id [] m e = refl
receive_all-queue worker_id (item ∷ q) m e =
    let (got, same, left) = receive_from worker_id m item q e in
    rw (got, receive_all-queue worker_id q (receive worker_id m).1 left) refl

length-insert : (e : Item) (q : List Item) → length (insert e q) ≡ length q + 1
unfolding insert
length-insert e [] = refl
length-insert e (x ∷ q) = ground (arith, length-insert e q)

-- The queue after the tasks are enqueued.
abbrev Filled : String → List (Job × ℤ) → Memory → List Item → Memory → Type 0
Filled worker_id tasks m q m' =
    IsOrdered (queue_of worker_id m')
    × Perm (queue_of worker_id m') (numbered_from m.queue_counter tasks ++ q)
    × (length (queue_of worker_id m') ≡ length tasks + length q)

enqueue_all-Filled :
    (worker_id : String) (tasks : List (Job × ℤ)) (m : Memory)
    → IsQueue m.queue_counter (queue_of worker_id m)
    → Filled worker_id tasks m (queue_of worker_id m) (enqueue_all worker_id tasks m)
unfolding enqueue_all enqueue_task_for_worker
enqueue_all-Filled worker_id [] m v = (v.ordered, Perm.refl (queue_of worker_id m), omega arith)
enqueue_all-Filled worker_id ((task, priority) ∷ tasks) m v =
    let m₁ = enqueue_task_for_worker worker_id task priority m in
    let e : Item = record { priority = priority; counter = m.queue_counter + 1; payload = task } in
    let (v₁, added, others) = enqueue_task_lem worker_id task priority m v in
    let (ordered, same, size) = enqueue_all-Filled worker_id tasks m₁ v₁ in
    let rest = numbered_from m₁.queue_counter tasks in
    let longer : length (queue_of worker_id m₁) ≡ length (queue_of worker_id m) + 1 =
      rw (queue_of-enqueue, eq_refl) (length-insert e (queue_of worker_id m)) in
    (
      ordered,
      Perm.trans same (
          Perm.trans ((perm-append_left_iff rest).1 added)
            (perm_middle rest (queue_of worker_id m))),
      size ∙ omega (arith, longer),
    )

-- Round trip of a worker's queue. A worker with a queue in order is given any tasks, in any order of
-- their priorities, and then takes as many as there are. It receives each of the old and the new
-- tasks once, those of greater priority first, and tasks of one priority in the order in which they
-- came, the old ones first.
pub receive_all-enqueue_all :
    (worker_id : String) (tasks : List (Job × ℤ)) (m : Memory)
    → IsQueue m.queue_counter (queue_of worker_id m)
    → let m' = enqueue_all worker_id tasks m in
      (items : List Item) × Perm items (numbered_from m.queue_counter tasks ++ queue_of worker_id m)
      × IsOrdered items
      × (receive_all (length tasks + length (queue_of worker_id m)) worker_id m'
          ≡ map (λ x. some x.payload) items)
receive_all-enqueue_all worker_id tasks m v =
    let m' = enqueue_all worker_id tasks m in
    let (ordered, same, size) = enqueue_all-Filled worker_id tasks m v in
    (
      queue_of worker_id m',
      same,
      ordered,
      ap (λ n. receive_all n worker_id m') (sym size)
          ∙ receive_all-queue worker_id (queue_of worker_id m') m' refl,
    )
