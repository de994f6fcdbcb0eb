-- ===== src/Providertest/Queuetest/Passes.antt =====
-- The conformance suite of a work queue, run on the queue in memory.
use flames.Prelude.{
  ℕ, String, ◌≡◌, refl, [], ◌<ℤ◌, ◌≤ℤ◌, ◌+ℤ◌, +ℤ_parts, pos, arith, string_eq, integer_eq, ◌↔◌,
  same_text,
}
use flames.Dict.{lookup, insert, erase}
use flames.Runtime.{Env, IsEnv, bytes_eq, int_succ, new_id, milliseconds}
use flames.Queue.Memqueue.{
  new, entries, enqueue, dequeue, ack, nack, take_available, remove_job, release_job, memqueue,
}
use native.Mathlib.Decide.{ℕ_discrete}
use flames.Providererr.{errors_is, provider_is}
use flames.State.Memstate.Valid.{new_id-ne-empty}
use flames.Providertest.{AllPass}
use flames.Providertest.Queuetest.{
  test_enqueue_and_dequeue, test_no_jobs, test_ack, test_nack, test_lease_expiry, test_multi_topic,
  run,
}

first_count : int_succ (pos 0) ≡ pos 1
unfolding int_succ integer_eq ℕ_discrete ◌+ℤ◌
first_count = refl

second_count : int_succ (pos 1) ≡ pos 2
unfolding int_succ integer_eq ℕ_discrete ◌+ℤ◌
second_count = refl

module _ (e : ℕ → Env) where
  no_jobs-passes : (test_no_jobs memqueue e new).0 ≡ []
  unfolding test_no_jobs dequeue entries lookup take_available errors_is provider_is string_eq
  no_jobs-passes = refl

  ack-passes : (test_ack memqueue e new).0 ≡ []
  unfolding test_ack enqueue dequeue ack entries lookup insert erase take_available remove_job
      errors_is provider_is string_eq integer_eq
  ack-passes = ground (arith, same_text (new_id (e 0).random))

module _ (e : ℕ → Env) (h : (i : ℕ) → IsEnv (e i)) where
  enqueue_and_dequeue-passes : (test_enqueue_and_dequeue memqueue e new).0 ≡ []
  unfolding test_enqueue_and_dequeue enqueue dequeue entries lookup insert take_available errors_is
      provider_is
  enqueue_and_dequeue-passes = ground (arith, new_id-ne-empty (e 0) (h 0), first_count)

  nack-passes : (test_nack memqueue e new).0 ≡ [] ↔ ((e 2).now <ℤ (e 3).now)
  unfolding test_nack enqueue dequeue nack entries lookup insert take_available release_job
      errors_is provider_is string_eq
  nack-passes =
      ground (arith, same_text (new_id (e 0).random), first_count, second_count, (h 2).clock_set)

  lease_expiry-passes :
      (test_lease_expiry memqueue e new).0 ≡ []
      ↔ (((e 2).now ≤ℤ (e 1).now +ℤ milliseconds 50) × ((e 1).now +ℤ milliseconds 50 <ℤ (e 3).now))
  unfolding test_lease_expiry enqueue dequeue entries lookup insert take_available errors_is
      provider_is string_eq
  lease_expiry-passes = ground (
    arith,
    same_text (new_id (e 0).random),
    first_count,
    second_count,
    (h 1).clock_set,
    +ℤ_parts (e 1).now (milliseconds 50),
  )

  multi_topic-passes : (test_multi_topic memqueue e new).0 ≡ []
  unfolding test_multi_topic enqueue dequeue entries lookup insert take_available errors_is
      provider_is string_eq
  multi_topic-passes =
      ground (arith, same_text (new_id (e 0).random), same_text (new_id (e 1).random))

-- What the suite needs of the clock. "Nack" reads it before and after the job is released, and the
-- lease of 50 ms in "LeaseExpiry" is to run out between the calls 2 and 3.
abbrev pub Timely : (String → ℕ → Env) → Type 0
Timely e =
    ((e "Nack" 2).now <ℤ (e "Nack" 3).now)
    × ((e "LeaseExpiry" 2).now ≤ℤ (e "LeaseExpiry" 1).now +ℤ milliseconds 50)
    × ((e "LeaseExpiry" 1).now +ℤ milliseconds 50 <ℤ (e "LeaseExpiry" 3).now)

-- The conformance suite, run on the queue in memory, reports nothing exactly if the clock advances
-- between the release of the job in "Nack" and the call of `Dequeue` behind it, and if in
-- "LeaseExpiry" the second `Dequeue` comes no later than 50 ms after the first and the third comes
-- later than that; the clock is set and the random source fills its buffer in every call.
pub queuetest-AllPass :
    (e : String → ℕ → Env)
    → ((name : String) (i : ℕ) → IsEnv (e name i))
    → AllPass (run memqueue e new) ↔ Timely e
unfolding run
queuetest-AllPass e h =
    let nack = nack-passes (e "Nack") (h "Nack") in
    let lease = lease_expiry-passes (e "LeaseExpiry") (h "LeaseExpiry") in
    (
      (λ all. let (running, over) = lease.0 all.1.1.1.1.0 in (nack.0 all.1.1.1.0, running, over)),
      λ timely. (
        enqueue_and_dequeue-passes (e "EnqueueAndDequeue") (h "EnqueueAndDequeue"),
        (
          no_jobs-passes (e "NoJobs"),
          (
            ack-passes (e "Ack"),
            (
              nack.1 timely.0,
              (
                lease.1 (timely.1, timely.2),
                (multi_topic-passes (e "MultiTopic") (h "MultiTopic"), tt),
              ),
            ),
          ),
        ),
      ),
    )
