-- ===== src/Tests/Suites.antt =====
-- Runs of the conformance suites on the stores in memory.
use mathlib.Core.List.Perm
use flames.Prelude.{ℕ, ◌*◌, ◌+◌, ◌%◌, ◌+ℤ◌, ◌^◌, String, [], ◌∷◌, ◌≢◌, ◌↔◌, arith}
use flames.Runtime.{Env, IsEnv, Bytes, new_id}
use flames.Queue.Memqueue
use flames.Cache.Memcache
use flames.State.Memstate
use flames.Providertest.{AllPass}
use flames.Providertest.Queuetest
use flames.Providertest.Queuetest.Passes as Queue
use flames.Providertest.Cachetest
use flames.Providertest.Cachetest.Passes as Cache
use flames.Providertest.Statetest
use flames.Providertest.Statetest.{Conditions, Schedule}
use flames.Providertest.Statetest.Passes as State
use flames.Tests.Data.{at, at-IsEnv, in_order}

-- The calls come 30 milliseconds apart.
abbrev clock : String → ℕ → Env
clock _ i = at (1 + i * (30 * 10 ^ 6)) (i % 2)

clock-IsEnv : (name : String) (i : ℕ) → IsEnv (clock name i)
clock-IsEnv name i = at-IsEnv (1 + i * (30 * 10 ^ 6)) (i % 2) (omega arith) (omega arith)

queuetest-AllPass_example :
    AllPass (Queuetest.run Memqueue.memqueue clock Memqueue.new) ↔ Queue.Timely clock
queuetest-AllPass_example = Queue.queuetest-AllPass clock clock-IsEnv

queue_passes : AllPass (Queuetest.run Memqueue.memqueue clock Memqueue.new)
unfolding ◌+ℤ◌
queue_passes = queuetest-AllPass_example.1 (omega arith, omega arith, omega arith)

cachetest-AllPass_example :
    (AllPass (Cachetest.run Memcache.memcache.store clock Memcache.new) ↔ Cache.Timely clock)
    × AllPass (Cachetest.run_atomic Memcache.memcache clock Memcache.new)
cachetest-AllPass_example = Cache.cachetest-AllPass clock (clock-IsEnv "TTLExpiry" 0)

cache_passes : AllPass (Cachetest.run Memcache.memcache.store clock Memcache.new)
unfolding ◌+ℤ◌
cache_passes = cachetest-AllPass_example.0.1 (omega arith, omega arith)

-- A stand-in for SHA-256.
abbrev one_byte : Bytes → Bytes
one_byte _ = 7 ∷ []

-- The second goroutine goes first.
second_first : Schedule
second_first = record {
  order = 1 ∷ 0 ∷ 2 ∷ 3 ∷ 4 ∷ 5 ∷ 6 ∷ 7 ∷ 8 ∷ 9 ∷ [];
  order-perm = Perm.swap 0 1 (2 ∷ 3 ∷ 4 ∷ 5 ∷ 6 ∷ 7 ∷ 8 ∷ 9 ∷ []);
}

conditions : Conditions
conditions = record {
  env = clock;
  goroutines = second_first;
  vms = in_order;
  controllers = λ _. in_order;
}

statetest-AllPass_example : AllPass (Statetest.run Memstate.memstate conditions Memstate.new) ↔ (
    new_id (conditions.env "ListPendingVMs" 0).random
    ≢ new_id (conditions.env "ListPendingVMs" 1).random)
unfolding conditions
statetest-AllPass_example = State.statetest-AllPass conditions (clock-IsEnv "CreateAndGet" 0)
