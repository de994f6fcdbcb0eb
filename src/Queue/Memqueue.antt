-- ===== src/Queue/Memqueue.antt =====
-- provider/queue/memqueue/memqueue.go: the work queue in memory. Every method runs under the
-- queue's mutex. A slice of entries is a list, and what the code writes through a pointer into the
-- slice is the list with that entry replaced; no other slice shares the array.
pub mod Delivery
pub mod Identities
pub mod Jobs
pub mod Valid
pub mod Acked
pub mod History
pub mod Entrywise
pub mod Lease
pub mod Redelivery
pub mod Finality
pub mod Drain
pub mod Order
pub mod Handed
use flames.Prelude.{
  String, Bool, ◌||◌, Option, none, some, List, [], ◌∷◌, ◌++◌, pos, ◌+ℤ◌, ◌==◌, string_eq,
  integer_eq, if◌then◌else◌,
}
use flames.Dict.{Dict, lookup, insert, erase}
use flames.Runtime.{Env, Time, Duration, Bytes, zero_time, is_zero, after, int_succ, new_id}
use flames.Model.{Job}
use flames.Providererr.{not_found, err_no_jobs}
use flames.Result.{ok, err, Exec}
use flames.Queue.{WorkQueue}

pub record QueueEntry : Type 0 where
  pub job : Job

pub record TopicRef : Type 0 where
  pub topic : String

pub record Queue : Type 0 where
  pub topics : Dict (List QueueEntry)
  pub index : Dict TopicRef

-- `New`
abbrev pub new : Queue
new = record { topics = []; index = [] }

abbrev pub or_empty : Option (List QueueEntry) → List QueueEntry
or_empty none = []
or_empty (some es) = es

-- `q.topics[topic]`, which is nil for a topic that is not there
unfoldable pub entries : Queue → String → List QueueEntry
entries q topic = or_empty (lookup topic q.topics)

unfoldable pub enqueue : Env → String → Bytes → Exec Queue String
enqueue e topic payload q =
    let id = new_id e.random in
    let job : Job = record {
      id = id;
      topic = topic;
      payload = payload;
      lease_expires_at = zero_time;
      enqueued_at = e.now;
      dequeue_count = pos 0;
    } in
    let entry : QueueEntry = record { job = job } in
    (
      ok id,
      record {
        topics = insert topic (entries q topic ++ entry ∷ []) q.topics;
        index = insert id (record { topic = topic }) q.index;
      },
    )

-- The test of the loop in `Dequeue`.
abbrev pub available : Time → Job → Bool
available now job = is_zero job.lease_expires_at || after now job.lease_expires_at

abbrev pub leased : Time → Duration → Job → Job
leased now lease_timeout job = record job {
  lease_expires_at = now +ℤ lease_timeout;
  dequeue_count = int_succ job.dequeue_count;
}

abbrev pub behind : QueueEntry → Option (Job × List QueueEntry) → Option (Job × List QueueEntry)
behind e none = none
behind e (some (job, es)) = some (job, e ∷ es)

-- The loop of `Dequeue`: the job that it returns, and the slice after it.
unfoldable pub take_available : Time → Duration → List QueueEntry → Option (Job × List QueueEntry)
take_available now lease_timeout [] = none
take_available now lease_timeout (e ∷ es) =
    let rest = take_available now lease_timeout es in
    let job = leased now lease_timeout e.job in
    if available now e.job then some (job, record e { job = job } ∷ es) else behind e rest

unfoldable pub dequeue : Env → String → Duration → Exec Queue Job
dequeue e topic lease_timeout q = elim (take_available e.now lease_timeout (entries q topic)) [
  | none ↦ (err err_no_jobs, q)
  | some (job, es) ↦ (ok job, record q { topics = insert topic es q.topics })
]

abbrev pub after_entry : QueueEntry → Option (List QueueEntry) → Option (List QueueEntry)
after_entry e none = none
after_entry e (some es) = some (e ∷ es)

-- The loop of `Ack`: the slice without the job, if the job is in it.
unfoldable pub remove_job : String → List QueueEntry → Option (List QueueEntry)
remove_job job_id [] = none
remove_job job_id (e ∷ es) =
    let rest = remove_job job_id es in if e.job.id == job_id then some es else after_entry e rest

unfoldable pub ack : String → Exec Queue (Unit {0})
ack job_id q = elim (lookup job_id q.index) [
  | none ↦ (err (not_found "job" job_id), q)
  | some ref ↦ elim (remove_job job_id (entries q ref.topic)) [
    | none ↦ (err (not_found "job" job_id), q)
    | some es ↦
        (ok tt, record { topics = insert ref.topic es q.topics; index = erase job_id q.index })
  ]
]

-- The loop of `Nack`: the slice with the job's lease set, if the job is in it.
unfoldable pub release_job : String → Time → List QueueEntry → Option (List QueueEntry)
release_job job_id retry_at [] = none
release_job job_id retry_at (e ∷ es) =
    let rest = release_job job_id retry_at es in
    if e.job.id == job_id
    then some (record e { job = record e.job { lease_expires_at = retry_at } } ∷ es)
    else after_entry e rest

unfoldable pub nack : String → Time → Exec Queue (Unit {0})
nack job_id retry_at q = elim (lookup job_id q.index) [
  | none ↦ (err (not_found "job" job_id), q)
  | some ref ↦ elim (release_job job_id retry_at (entries q ref.topic)) [
    | none ↦ (err (not_found "job" job_id), q)
    | some es ↦ (ok tt, record q { topics = insert ref.topic es q.topics })
  ]
]

-- `var _ queue.WorkQueue = (*Queue)(nil)`
abbrev pub memqueue : WorkQueue
memqueue = record { State = Queue; enqueue = enqueue; dequeue = dequeue; ack = ack; nack = nack }
