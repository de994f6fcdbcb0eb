-- ===== src/Providertest/Queuetest.antt =====
-- providertest/queuetest/queuetest.go: the conformance suite of a work queue. The calls of a subtest
-- are numbered; the runtime supplies the clock and the random bytes to each.
pub mod Passes
use flames.Prelude.{ℕ, ◌*◌, ◌^◌, String, Bool, not, pos, List, [], ◌∷◌, ◌==◌, string_eq, integer_eq}
use flames.Runtime.{Env, Duration, Bytes, bytes_eq, to_bytes, milliseconds}
use flames.Providererr.{err_no_jobs}
use flames.Queue.{WorkQueue}
use flames.Providertest.{
  Check, try, must, value_or, expect, require, fails_with, ◌>>=◌, ◌>>◌, Outcome, subtest,
}

abbrev pub seconds : ℕ → Duration
seconds n = milliseconds (n * 1000)

module _ (Q : WorkQueue) where
  unfoldable pub test_enqueue_and_dequeue : (ℕ → Env) → Check Q.State (Unit {0})
  test_enqueue_and_dequeue e = do
    let payload = to_bytes "{\"action\":\"test\"}"
    id ← must "Enqueue: %v" (Q.enqueue (e 0) "tasks" payload)
    require (not (id == "")) "Enqueue returned empty ID"
    job ← must "Dequeue: %v" (Q.dequeue (e 1) "tasks" (seconds 5))
    expect (job.id == id) "got job ID %q, want %q"
    expect (job.payload == payload) "got payload %q, want %q"
    expect (job.topic == "tasks") "got topic %q, want %q"
    expect (job.dequeue_count == pos 1) "got DequeueCount %d, want 1"

  unfoldable pub test_no_jobs : (ℕ → Env) → Check Q.State (Unit {0})
  test_no_jobs e = do
    got ← try (Q.dequeue (e 0) "empty-topic" (seconds 5))
    expect (fails_with err_no_jobs got) "expected ErrNoJobs, got %v"

  unfoldable pub test_ack : (ℕ → Env) → Check Q.State (Unit {0})
  test_ack e = do
    id ← value_or "" (Q.enqueue (e 0) "ack-topic" (to_bytes "data"))
    _ ← try (Q.dequeue (e 1) "ack-topic" (seconds 5))
    must "Ack: %v" (Q.ack id)
    got ← try (Q.dequeue (e 2) "ack-topic" (seconds 5))
    expect (fails_with err_no_jobs got) "expected ErrNoJobs after ack, got %v"

  unfoldable pub test_nack : (ℕ → Env) → Check Q.State (Unit {0})
  test_nack e = do
    id ← value_or "" (Q.enqueue (e 0) "nack-topic" (to_bytes "data"))
    _ ← try (Q.dequeue (e 1) "nack-topic" (seconds 5))
    must "Nack: %v" (Q.nack id (e 2).now)
    job ← must "Dequeue after nack: %v" (Q.dequeue (e 3) "nack-topic" (seconds 5))
    expect (job.id == id) "got job ID %q, want %q"
    expect (job.dequeue_count == pos 2) "got DequeueCount %d, want 2"

  -- The test sleeps between the calls 2 and 3.
  unfoldable pub test_lease_expiry : (ℕ → Env) → Check Q.State (Unit {0})
  test_lease_expiry e = do
    id ← value_or "" (Q.enqueue (e 0) "lease-topic" (to_bytes "data"))
    must "Dequeue: %v" (Q.dequeue (e 1) "lease-topic" (milliseconds 50))
    got ← try (Q.dequeue (e 2) "lease-topic" (seconds 5))
    expect (fails_with err_no_jobs got) "expected ErrNoJobs during lease, got %v"
    job ← must "Dequeue after lease expiry: %v" (Q.dequeue (e 3) "lease-topic" (seconds 5))
    expect (job.id == id) "got job ID %q, want %q"
    expect (job.dequeue_count == pos 2) "got DequeueCount %d, want 2"

  unfoldable pub test_multi_topic : (ℕ → Env) → Check Q.State (Unit {0})
  test_multi_topic e = do
    id1 ← value_or "" (Q.enqueue (e 0) "topic-a" (to_bytes "a"))
    id2 ← value_or "" (Q.enqueue (e 1) "topic-b" (to_bytes "b"))
    job_a ← must "Dequeue topic-a: %v" (Q.dequeue (e 2) "topic-a" (seconds 5))
    expect (job_a.id == id1) "topic-a: got ID %q, want %q"
    job_b ← must "Dequeue topic-b: %v" (Q.dequeue (e 3) "topic-b" (seconds 5))
    expect (job_b.id == id2) "topic-b: got ID %q, want %q"

  -- `Run`: every subtest has a new queue.
  unfoldable pub run : (String → ℕ → Env) → Q.State → List Outcome
  run e new =
      subtest "EnqueueAndDequeue" (test_enqueue_and_dequeue (e "EnqueueAndDequeue")) new
      ∷ subtest "NoJobs" (test_no_jobs (e "NoJobs")) new
      ∷ subtest "Ack" (test_ack (e "Ack")) new
      ∷ subtest "Nack" (test_nack (e "Nack")) new
      ∷ subtest "LeaseExpiry" (test_lease_expiry (e "LeaseExpiry")) new
      ∷ subtest "MultiTopic" (test_multi_topic (e "MultiTopic")) new
      ∷ []
