-- ===== src/Storage/Reset.antt =====
-- storage/memory.py: `flush_all`. The tokens of workers and the queue's counter are left as they are.
use avtomatika.Prelude.{[]}
use avtomatika.Storage.{Memory}

unfoldable pub flush_all : Memory → Memory
flush_all m = record m {
  jobs = [];
  workers = [];
  worker_ttls = [];
  worker_task_queues = [];
  job_queue = [];
  quarantine_queue = [];
  watched_jobs = [];
  client_configs = [];
  quotas = [];
  generic_keys = [];
  generic_key_ttls = [];
  locks = [];
}
