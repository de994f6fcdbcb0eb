-- ===== src/Cache/Memcache/Slices.antt =====
-- provider/cache/memcache/memcache.go with the slices that it shares with its callers: `Set` and
-- `CompareAndSet` copy the value into an array of their own, `Get` hands out the slice that the entry
-- holds. A slice spans its whole array here.
pub mod Values
pub mod Acts
pub mod Kept
pub mod Histories
pub mod Owners
use flames.Prelude.{
  ℕ, suc, ◌<◌, String, Bool, true, false, not, ◌&&◌, number_eq, Option, none, some, List, [], ◌∷◌,
  ◌==◌, ◌+ℤ◌, pos, ltb_ℤ, string_eq, integer_eq, if◌then◌else◌, Eq,
}
use flames.Dict.{Dict, lookup, insert, erase}
use flames.Runtime.{bytes_eq, Env, Time, Duration, Bytes, zero_time, is_zero, after}
use flames.Providererr.{err_cache_miss}
use flames.Result.{ok, err, Exec}
use flames.Cache.Memcache.{is_nil}

-- What each array holds, and the first that is not made yet.
pub record Heap : Type 0 where
  pub bytes_at : ℕ → Bytes
  pub next : ℕ

-- The array holds the bytes from now on.
abbrev pub write : ℕ → Bytes → Heap → Heap
write array bytes h = record h {
  bytes_at = λ other. if other == array then bytes else h.bytes_at other;
}

-- A new array with these bytes.
abbrev pub make : Bytes → Heap → Heap
make bytes h = record (write h.next bytes h) { next = suc h.next }

-- `make` and `copy`
abbrev pub make_copy : ℕ → Heap → Heap
make_copy array h = make (h.bytes_at array) h

pub record SliceEntry : Type 0 where
  pub value : ℕ
  pub expires_at : Time

pub record SliceStore : Type 0 where
  pub entries : Dict SliceEntry
  pub heap : Heap

abbrev pub slice_expired : Time → SliceEntry → Bool
slice_expired now entry = not (is_zero entry.expires_at) && after now entry.expires_at

-- The end of `Set` and of `CompareAndSet`: an entry with a copy of the value.
unfoldable pub store_copy : Env → String → ℕ → Duration → SliceStore → SliceStore
store_copy e key value ttl s =
    let expires_at = if ltb_ℤ (pos 0) ttl then e.now +ℤ ttl else zero_time in
    record {
      entries = insert key (record { value = s.heap.next; expires_at = expires_at }) s.entries;
      heap = make_copy value s.heap;
    }

-- `Get` from the entry that it read.
abbrev pub conclude_slice : Env → String → Option SliceEntry → Exec SliceStore ℕ
conclude_slice e key none s = (err err_cache_miss, s)
conclude_slice e key (some entry) s =
    if slice_expired e.now entry
    then (err err_cache_miss, record s { entries = erase key s.entries })
    else (ok entry.value, s)

unfoldable pub get_slice : Env → String → Exec SliceStore ℕ
get_slice e key s = conclude_slice e key (lookup key s.entries) s

unfoldable pub set_slice : Env → String → ℕ → Duration → Exec SliceStore (Unit {0})
set_slice e key value ttl s = (ok tt, store_copy e key value ttl s)

unfoldable pub delete_slice : String → Exec SliceStore (Unit {0})
delete_slice key s = (ok tt, record s { entries = erase key s.entries })

abbrev pub bytes_or_nil : Option ℕ → Heap → Bytes
bytes_or_nil none h = []
bytes_or_nil (some array) h = h.bytes_at array

abbrev pub is_nil_slice : Option ℕ → Bool
is_nil_slice none = true
is_nil_slice (some _) = false

unfoldable pub compare_and_set_slice :
    Env → Env → String → Option ℕ → ℕ → Duration → Exec SliceStore Bool
compare_and_set_slice e e' key old new ttl s = elim (lookup key s.entries) [
  | none ↦ if not (is_nil_slice old) then (ok false, s) else (ok true, store_copy e' key new ttl s)
  | some entry ↦
      if slice_expired e.now entry
      then (let s' : SliceStore = record s { entries = erase key s.entries } in
          if not (is_nil_slice old)
          then (ok false, s')
          else (ok true, store_copy e' key new ttl s'))
      else if not (s.heap.bytes_at entry.value == bytes_or_nil old s.heap)
      then (ok false, s)
      else (ok true, store_copy e' key new ttl s)
]
