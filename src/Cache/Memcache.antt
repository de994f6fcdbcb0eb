-- ===== src/Cache/Memcache.antt =====
-- provider/cache/memcache/memcache.go: the cache in memory. An expired entry is evicted when a call
-- comes across it.
pub mod Live
pub mod Refinement
pub mod Exclusion
pub mod Slices
use flames.Prelude.{
  ℕ, String, Bool, true, false, not, ◌&&◌, Option, none, some, List, [], ◌==◌, ◌+ℤ◌, pos, ltb_ℤ,
  string_eq, integer_eq, if◌then◌else◌, Eq,
}
use flames.Dict.{Dict, lookup, insert, erase}
use flames.Runtime.{bytes_eq, Env, Time, Duration, Bytes, zero_time, is_zero, after}
use flames.Providererr.{err_cache_miss}
use flames.Result.{ok, err, Exec}
use flames.Cache.{CacheStore, AtomicCacheStore}

pub record CacheEntry : Type 0 where
  pub value : Bytes
  pub expires_at : Time

pub record Store : Type 0 where
  pub entries : Dict CacheEntry

-- `New`
abbrev pub new : Store
new = record { entries = [] }

abbrev pub or_nil : Option Bytes → Bytes
or_nil none = []
or_nil (some b) = b

abbrev pub is_nil : Option Bytes → Bool
is_nil none = true
is_nil (some _) = false

abbrev pub expired : Time → CacheEntry → Bool
expired now entry = not (is_zero entry.expires_at) && after now entry.expires_at

-- The entry that `Set` and `CompareAndSet` build: without a time to live it never expires.
unfoldable pub new_entry : Env → Bytes → Duration → CacheEntry
new_entry e value ttl =
    if ltb_ℤ (pos 0) ttl
    then record { value = value; expires_at = e.now +ℤ ttl }
    else record { value = value; expires_at = zero_time }

-- What `Get` does with the entry that it read under the lock; other calls may come in between, since
-- it evicts under a second lock.
unfoldable pub conclude : Env → String → Option CacheEntry → Exec Store Bytes
conclude e key none s = (err err_cache_miss, s)
conclude e key (some entry) s =
    if expired e.now entry
    then (err err_cache_miss, record { entries = erase key s.entries })
    else (ok entry.value, s)

unfoldable pub get : Env → String → Exec Store Bytes
get e key s = conclude e key (lookup key s.entries) s

unfoldable pub set : Env → String → Bytes → Duration → Exec Store (Unit {0})
set e key value ttl s = (ok tt, record { entries = insert key (new_entry e value ttl) s.entries })

unfoldable pub delete : String → Exec Store (Unit {0})
delete key s = (ok tt, record { entries = erase key s.entries })

-- The end of `CompareAndSet`, from line 102.
abbrev swap : Env → String → Bytes → Duration → Exec Store Bool
swap e key new ttl s = (ok true, record { entries = insert key (new_entry e new ttl) s.entries })

unfoldable pub compare_and_set :
    Env → Env → String → Option Bytes → Bytes → Duration → Exec Store Bool
compare_and_set e e' key old new ttl s = elim (lookup key s.entries) [
  | none ↦ if not (is_nil old) then (ok false, s) else swap e' key new ttl s
  | some entry ↦
      if expired e.now entry
      then (let s' : Store = record { entries = erase key s.entries } in
          if not (is_nil old) then (ok false, s') else swap e' key new ttl s')
      else if not (entry.value == or_nil old)
      then (ok false, s)
      else swap e' key new ttl s
]

-- `_ cache.CacheStore = (*Store)(nil)`, `_ cache.AtomicCacheStore = (*Store)(nil)`
abbrev pub memcache : AtomicCacheStore
memcache = record {
  store = record { State = Store; get = get; set = set; delete = delete };
  compare_and_set = compare_and_set;
}
