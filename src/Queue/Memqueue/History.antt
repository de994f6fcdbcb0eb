-- ===== src/Queue/Memqueue/History.antt =====
-- Histories of calls on the queue, from any callers in any order.
use flames.Prelude.{String, ◌≡◌, none}
use flames.Dict.{lookup}
use flames.Runtime.{Env, Time, Duration, Bytes, new_id}
use flames.Queue.Memqueue.{Queue, new, enqueue, dequeue, ack, nack}
use flames.Queue.Memqueue.Jobs.{jobs-dequeue, jobs-nack, index-dequeue, index-nack}
use flames.Queue.Memqueue.Valid.{IsValid, new-IsValid, same-IsValid, enqueue-IsValid}
use flames.Queue.Memqueue.Acked.{ack-IsValid}

pub data Call : Type 0 where
  enqueues : String → Bytes → Call
  dequeues : String → Duration → Call
  acks : String → Call
  nacks : String → Time → Call

unfoldable pub step : Queue → Env × Call → Queue
step q (e, enqueues topic payload) = (enqueue e topic payload q).1
step q (e, dequeues topic d) = (dequeue e topic d q).1
step q (e, acks id) = (ack id q).1
step q (e, nacks id retry_at) = (nack id retry_at q).1

-- The queues that calls can lead to, each call made where `Allowed` permits it.
pub data Reach (Allowed : Queue → Env × Call → Type 0) (q : Queue) : Queue → Type 0 where
  here : Reach Allowed q q
  next : {r : Queue} (c : Env × Call) → Reach Allowed q r → Allowed r c → Reach Allowed q (step r c)

-- `Enqueue` draws no ID of a job that is still there.
abbrev pub IsFresh : Queue → Env × Call → Type 0
IsFresh q (e, enqueues topic payload) = lookup (new_id e.random) q.index ≡ none
IsFresh q (e, _) = Unit

pub step-IsValid : (q : Queue) (c : Env × Call) → IsFresh q c → IsValid q → IsValid (step q c)
unfolding step
step-IsValid q (e, enqueues topic payload) f v = enqueue-IsValid e topic payload q v f
step-IsValid q (e, dequeues topic d) f v =
    same-IsValid q _ (index-dequeue e topic d q) (jobs-dequeue e topic d q) v
step-IsValid q (e, acks id) f v = ack-IsValid id q v
step-IsValid q (e, nacks id retry_at) f v =
    same-IsValid q _ (index-nack id retry_at q) (jobs-nack id retry_at q) v

Reach-IsValid : {q r : Queue} → IsValid q → Reach IsFresh q r → IsValid r
Reach-IsValid v here = v
Reach-IsValid v (next {r = r} c reach fresh) = step-IsValid r c fresh (Reach-IsValid v reach)

-- On every queue that calls on a new one lead to, the index has a job's ID exactly where the job is
-- in the topic that the index names, every job stands in its own topic, and no ID is twice in one,
-- if no `Enqueue` draws the ID of a job that is still there.
pub Reach-new-IsValid : {q : Queue} → Reach IsFresh new q → IsValid q
Reach-new-IsValid = Reach-IsValid new-IsValid
