-- ===== src/Tests/Memqueue.antt =====
-- Runs of the work queue.
use flames.Prelude.{
  All, different, some, length, ◌<◌, ◌+◌, arith, ◌⊎◌, ◌++◌, if◌then◌else◌, String, pos, ◌≡◌, refl,
  ◌≢◌, [], ◌∷◌, Mem, ◌+ℤ◌, ◌==◌, string_eq, integer_eq,
}
use mathlib.Core.List.{mem-cons_self}
use flames.Dict.{lookup, insert, erase, lookup-nil}
use flames.Runtime.{new_id, int_succ}
use flames.Runtime.Hex.{encode_to_string}
use flames.Model.{Job}
use flames.Result.{ok, err}
use flames.Queue.Memqueue.{Queue, new, entries, enqueue, dequeue, take_available, ack, remove_job}
use flames.Queue.Memqueue.Jobs.{jobs, created}
use flames.Queue.Memqueue.Valid.{IsValid}
use flames.Queue.Memqueue.Handed.{IsHeld, Handed, handed, dequeue-handed}
use flames.Providererr.{err_no_jobs}
use flames.Queue.Memqueue.History.{
  step, Reach, here, next, IsFresh, Reach-new-IsValid, enqueues, dequeues, nacks,
}
use flames.Queue.Memqueue.Drain.{drain, drain-stops}
use flames.Queue.Memqueue.Lease.{dequeue_exclusive, WithinLease}
use flames.Queue.Memqueue.Redelivery.{Keeps, Reach-mem, Outstanding, dequeue_again}
use flames.Queue.Memqueue.Finality.{Unused, ack_final}
use flames.Tests.Data.{at}

abbrev id_of_first : String
id_of_first = "01010101010101010101010101010101"

-- One job, put in at time 5.
one : Queue
unfolding step
one = step new (at 5 1, enqueues "vm" (7 ∷ []))

one_reached : Reach IsFresh new one
unfolding one
one_reached = next (at 5 1, enqueues "vm" (7 ∷ [])) here (lookup-nil _)

one-IsValid : IsValid one
one-IsValid = Reach-new-IsValid one_reached

-- The job under the lease of a `Dequeue` at time 10 for 20 nanoseconds.
abbrev handed_out : Job
handed_out = record {
  id = id_of_first;
  topic = "vm";
  payload = 7 ∷ [];
  lease_expires_at = pos 30;
  enqueued_at = pos 5;
  dequeue_count = pos 1;
}

handed_out_lem : (dequeue (at 10 2) "vm" (pos 20) one).0 ≡ ok handed_out
unfolding one step enqueue dequeue take_available entries lookup insert new_id encode_to_string
    int_succ ◌+ℤ◌ string_eq integer_eq
handed_out_lem = refl

-- A second job in another topic, put in while the first is under its lease.
two : Queue
unfolding step
two = step (dequeue (at 10 2) "vm" (pos 20) one).1 (at 11 3, enqueues "image" [])

two_reached :
    Reach
      (Outstanding handed_out.id handed_out.lease_expires_at)
      (dequeue (at 10 2) "vm" (pos 20) one).1
      two
unfolding two one step enqueue dequeue take_available entries lookup insert new_id encode_to_string
    int_succ ◌+ℤ◌ string_eq integer_eq
two_reached = next (at 11 3, enqueues "image" []) here (different _ _ refl, refl)

two_within :
    Reach
      (WithinLease handed_out.id handed_out.lease_expires_at)
      (dequeue (at 10 2) "vm" (pos 20) one).1
      two
unfolding two new_id encode_to_string string_eq
two_within = next (at 11 3, enqueues "image" []) here (different _ _ refl)

abbrev the_other : Job
the_other = record {
  id = "03030303030303030303030303030303";
  topic = "image";
  payload = [];
  lease_expires_at = pos 32;
  enqueued_at = pos 11;
  dequeue_count = pos 1;
}

the_other_lem : (dequeue (at 12 2) "image" (pos 20) two).0 ≡ ok the_other
unfolding two one step enqueue dequeue take_available entries lookup insert new_id encode_to_string
    int_succ ◌+ℤ◌ string_eq integer_eq
the_other_lem = refl

dequeue_exclusive_example : the_other.id ≢ handed_out.id
unfolding integer_eq
dequeue_exclusive_example =
    dequeue_exclusive (at 10 2) (at 12 2) "vm" "image" (pos 20) (pos 20) handed_out the_other
      one-IsValid handed_out_lem refl two_within refl the_other_lem

dequeue_again_example : (j : Job) × ((dequeue (at 31 2) "vm" (pos 20) two).0 ≡ ok j)
unfolding integer_eq
dequeue_again_example =
    dequeue_again (at 10 2) (at 31 2) "vm" (pos 20) (pos 20) handed_out one-IsValid handed_out_lem
      refl two_reached refl

-- A job is still there after a `Dequeue` and a `Nack`.
after_nack :
    Reach
      (Keeps (new_id (at 5 1).random))
      one
      (step (step one (at 10 2, dequeues "vm" (pos 20))) (at 11 2, nacks id_of_first (pos 50)))
after_nack =
    next (at 11 2, nacks id_of_first (pos 50)) (next (at 10 2, dequeues "vm" (pos 20)) here tt) tt

one_mem : Mem (created (at 5 1) "vm" (7 ∷ [])) (jobs one "vm")
unfolding one step enqueue entries lookup insert string_eq
one_mem = mem-cons_self

Reach-mem_example : Mem (created (at 5 1) "vm" (7 ∷ [])) (
    jobs
      (step (step one (at 10 2, dequeues "vm" (pos 20))) (at 11 2, nacks id_of_first (pos 50)))
      "vm")
Reach-mem_example = Reach-mem (created (at 5 1) "vm" (7 ∷ [])) "vm" one-IsValid one_mem after_nack

-- The first job of two, acknowledged.
acked : (ack id_of_first two).0 ≡ ok tt
unfolding two one step enqueue dequeue take_available entries lookup insert new_id encode_to_string
    int_succ ◌+ℤ◌ string_eq integer_eq ack remove_job
acked = refl

acked_reached : Reach (Unused id_of_first) (ack id_of_first two).1 (ack id_of_first two).1
acked_reached = here

the_other_later : (dequeue (at 12 2) "image" (pos 20) (ack id_of_first two).1).0 ≡ ok the_other
unfolding two one step enqueue dequeue take_available entries lookup insert new_id encode_to_string
    int_succ ◌+ℤ◌ string_eq integer_eq ack remove_job erase
the_other_later = refl

two-IsValid : IsValid two
unfolding two one step enqueue dequeue take_available entries lookup insert new_id encode_to_string
    int_succ ◌+ℤ◌ string_eq integer_eq
two-IsValid = Reach-new-IsValid (
    next (at 11 3, enqueues "image" []) (next (at 10 2, dequeues "vm" (pos 20)) one_reached tt)
      refl)

ack_final_example : the_other.id ≢ id_of_first
ack_final_example =
    ack_final id_of_first (at 12 2) "image" (pos 20) the_other two-IsValid acked acked_reached
      the_other_later

Reach-new-IsValid_example : IsValid one
Reach-new-IsValid_example = Reach-new-IsValid one_reached

dequeue-handed_example :
    (All (IsHeld (pos 10)) (entries one "vm")
      × (dequeue (at 10 2) "vm" (pos 20) one ≡ (err err_no_jobs, one)))
    ⊎ ((f : Handed (pos 10) (entries one "vm")) × ((dequeue (at 10 2) "vm" (pos 20) one).0
          ≡ ok (handed (pos 10) (pos 20) f.hit.job))
        × ((dequeue (at 10 2) "vm" (pos 20) one).1.index ≡ one.index)
        × ((u : String)
            → entries (dequeue (at 10 2) "vm" (pos 20) one).1 u ≡ (
                if "vm" == u
                then f.before ++ record { job = handed (pos 10) (pos 20) f.hit.job } ∷ f.behind
                else entries one u)))
dequeue-handed_example = dequeue-handed (at 10 2) "vm" (pos 20) one

one_job : length (jobs one "vm") < 2
unfolding one step enqueue entries lookup insert
one_job = ground arith

drain-stops_example :
    let (told, handed, r) = drain "vm" (pos 20) (at 10 2 ∷ at 11 2 ∷ []) one in
    (told ≡ some err_no_jobs) × (length handed + length (jobs r "vm") ≡ length (jobs one "vm"))
drain-stops_example = drain-stops "vm" (pos 20) (at 10 2 ∷ at 11 2 ∷ []) one one-IsValid one_job
