-- ===== src/Queue/Memqueue/Handed.antt =====
-- What `Dequeue` hands out, by the numbers that a job holds.
use flames.Prelude.{
  String, ◌≡◌, ◌≢◌, true, false, List, ◌∷◌, ◌++◌, All, All-map, arith, inl, inr, ◌⊎◌, pos, negsuc,
  ◌+ℤ◌, ◌<ℤ◌, ◌≤ℤ◌, ◌==◌, string_eq, integer_eq, if◌then◌else◌,
}
use flames.Runtime.{Env, Time, Duration, zero_time, max_int, int_succ}
use flames.Model.{Job}
use flames.Providererr.{err_no_jobs}
use flames.Result.{ok, err}
use flames.Queue.Memqueue.{QueueEntry, Queue, entries, available, dequeue}
use flames.Queue.Memqueue.Delivery.{dequeue-First}

-- The job was never leased or released, or the end of its lease lies in the past.
abbrev pub IsFree : Time → QueueEntry → Type 0
IsFree now e = (e.job.lease_expires_at ≡ zero_time) ⊎ (e.job.lease_expires_at <ℤ now)

-- The job has a lease that ends now or later.
abbrev pub IsHeld : Time → QueueEntry → Type 0
IsHeld now e = (e.job.lease_expires_at ≢ zero_time) × (now ≤ℤ e.job.lease_expires_at)

-- The job that is handed out, and where it stands.
pub record Handed (now : Time) (es : List QueueEntry) : Type 0 where
  pub before : List QueueEntry
  pub hit : QueueEntry
  pub behind : List QueueEntry
  pub split : es ≡ before ++ hit ∷ behind
  pub held : All (IsHeld now) before
  pub free : IsFree now hit

available-IsFree : (now : Time) (e : QueueEntry) → available now e.job ≡ true → IsFree now e
available-IsFree now e h = elim (integer_eq.dec e.job.lease_expires_at zero_time) [
  | yes never ↦ inl never
  | no set ↦ inr (ground arith)
]

available-IsHeld : (now : Time) (e : QueueEntry) → available now e.job ≡ false → IsHeld now e
available-IsHeld now e h = (
  (λ (never : e.job.lease_expires_at ≡ zero_time). absurd (ground (arith, never, h))),
  ground arith,
)

-- The job as it is handed out: its lease ends the given time after the present, and it was handed out
-- once more, where the count wraps around at 2 ^ 63.
abbrev pub handed : Time → Duration → Job → Job
handed now lease_timeout job = record {
  id = job.id;
  topic = job.topic;
  payload = job.payload;
  lease_expires_at = now +ℤ lease_timeout;
  enqueued_at = job.enqueued_at;
  dequeue_count =
      if job.dequeue_count == pos max_int then negsuc max_int else job.dequeue_count +ℤ pos 1;
}

-- Either every job of the topic has a lease that ends now or later, and `Dequeue` returns `ErrNoJobs`
-- and changes nothing; or some job was never leased or its lease ended in the past, and `Dequeue`
-- returns the first such job, with a lease that ends the given time after the present and a count one
-- higher, which wraps around at 2 ^ 63, and changes that entry alone.
pub dequeue-handed :
    (e : Env) (topic : String) (d : Duration) (q : Queue)
    → (All (IsHeld e.now) (entries q topic) × (dequeue e topic d q ≡ (err err_no_jobs, q)))
      ⊎ ((f : Handed e.now (entries q topic)) × ((dequeue e topic d q).0
            ≡ ok (handed e.now d f.hit.job))
          × ((dequeue e topic d q).1.index ≡ q.index)
          × ((u : String)
              → entries (dequeue e topic d q).1 u ≡ (
                  if topic == u
                  then f.before ++ record { job = handed e.now d f.hit.job } ∷ f.behind
                  else entries q u)))
unfolding int_succ
dequeue-handed e topic d q = elim (dequeue-First e topic d q) [
  | inl (none_free, p) ↦ inl (All-map (available-IsHeld e.now) (entries q topic) none_free, p)
  | inr (f, reply, index, rest) ↦ inr (
    record {
      before = f.before;
      hit = f.hit;
      behind = f.behind;
      split = f.split;
      held = All-map (available-IsHeld e.now) f.before f.all_leased;
      free = available-IsFree e.now f.hit f.is_available;
    },
    reply,
    index,
    rest,
  )
]
