-- ===== src/Storage/Invariant/Run.antt =====
-- storage/memory.py: the invariant over any sequence of calls.
use avtomatika.Prelude.{arith, refl, List, [], ◌∷◌}
use avtomatika.Dict.{get}
use avtomatika.Storage.{Memory, empty}
use avtomatika.Storage.Tasks.Order.{queue_of}
use avtomatika.Storage.Operations.{Op, perform, perform_all}
use avtomatika.Storage.Invariant.Tidy.{IsTidy, perform-IsTidy}
use avtomatika.Storage.Invariant.Registry.{IsRegistry, perform-IsRegistry}
use avtomatika.Storage.Invariant.Queues.{AreQueues, perform-AreQueues}

pub record IsValid (m : Memory) : Type 0 where
  pub tidy : IsTidy m
  pub registry : IsRegistry m
  pub queues : AreQueues m

pub empty-IsValid : IsValid empty
unfolding queue_of get
empty-IsValid = record {
  tidy = omega arith;
  registry = record { paired = λ k. refl; queued = λ k h. h };
  queues = record { at = λ k. record { ordered = tt; numbered = tt } };
}

perform-IsValid : (op : Op) (m : Memory) → IsValid m → IsValid (perform op m)
perform-IsValid op m v = record {
  tidy = perform-IsTidy op m v.tidy;
  registry = perform-IsRegistry op m v.tidy v.registry;
  queues = perform-AreQueues op m v.queues;
}

-- Whatever calls of the storage's methods are made in whatever order, a well-formed store stays
-- well formed: the dicts that the methods go through have one entry for a key, a worker is known
-- exactly when it has a deadline, a known worker has a queue, and every queue is ordered by priority and
-- then by arrival.
pub perform_all-IsValid : (ops : List Op) (m : Memory) → IsValid m → IsValid (perform_all ops m)
unfolding perform_all
perform_all-IsValid [] m v = v
perform_all-IsValid (op ∷ ops) m v = perform_all-IsValid ops (perform op m) (perform-IsValid op m v)
