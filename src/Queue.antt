-- ===== src/Queue.antt =====
-- provider/queue/queue.go: the interface of a work queue with leases.
pub mod Memqueue
use flames.Prelude.{String}
use flames.Runtime.{Env, Time, Duration, Bytes}
use flames.Model.{Job}
use flames.Result.{Exec}

pub record WorkQueue : Type 1 where
  pub State : Type 0
  pub enqueue : Env → String → Bytes → Exec State String
  pub dequeue : Env → String → Duration → Exec State Job
  pub ack : String → Exec State (Unit {0})
  pub nack : String → Time → Exec State (Unit {0})
