-- ===== src/Cache.antt =====
-- provider/cache/cache.go: the interface of a cache whose entries have a time to live.
pub mod Contract
pub mod Memcache
use flames.Prelude.{String, Bool, Option}
use flames.Runtime.{Env, Duration, Bytes}
use flames.Result.{Exec}

pub record CacheStore : Type 1 where
  pub State : Type 0
  pub get : Env → String → Exec State Bytes
  pub set : Env → String → Bytes → Duration → Exec State (Unit {0})
  pub delete : String → Exec State (Unit {0})

-- `CompareAndSet` reads the clock twice; the old value may be nil, which is `none`.
pub record AtomicCacheStore : Type 1 where
  pub store : CacheStore
  pub compare_and_set : Env → Env → String → Option Bytes → Bytes → Duration → Exec store.State Bool
