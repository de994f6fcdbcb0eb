-- ===== src/Cache/Memcache/Live.antt =====
-- What a client of the cache can see: the value of each key at a time.
use flames.Prelude.{
  String, true, ◌&&◌, Option, none, some, Option-cases, inl, inr, ◌==◌, +ℤ_parts, ◌≤ℤ◌, string_eq,
  integer_eq, if◌then◌else◌, ◌≡◌, ◌∙◌, arith, refl,
}
use flames.Dict.{lookup, erase, lookup-insert, lookup-erase}
use flames.Runtime.{bytes_eq, Env, IsEnv, Time, Duration, Bytes}
use flames.Result.{ok}
use flames.Cache.Contract.{hit_or_miss, kept, matches_old}
use flames.Cache.Memcache.{
  CacheEntry, Store, expired, new_entry, conclude, get, set, delete, compare_and_set,
}

abbrev live_value : Time → Option CacheEntry → Option Bytes
live_value now none = none
live_value now (some entry) = if expired now entry then none else some entry.value

-- The value of a key at a time.
abbrev pub live : Time → Store → String → Option Bytes
live now s key = live_value now (lookup key s.entries)

expired_later :
    (now later : Time) (entry : CacheEntry)
    → now ≤ℤ later
    → expired now entry ≡ true
    → expired later entry ≡ true
expired_later now later entry h p = ground arith

-- `Get` returns the value that the key has at the time of the call, or `ErrCacheMiss` if it has none.
-- It changes no key's value at that time or later.
pub get-live :
    (e : Env) (key : String) (s : Store) (later : Time) (k : String)
    → e.now ≤ℤ later
    → ((get e key s).0 ≡ hit_or_miss (live e.now s key))
      × (live later (get e key s).1 k ≡ live later s k)
unfolding get conclude
get-live e key s later k h = elim (Option-cases (lookup key s.entries)) [
  | inl p ↦ rw p (refl, refl)
  | inr (entry, p) ↦
      ground (arith, p, lookup-erase key k s.entries, expired_later e.now later entry h)
]

new_entry-kept :
    (e : Env) (value : Bytes) (ttl : Duration) (now : Time)
    → IsEnv e
    → live_value now (some (new_entry e value ttl)) ≡ kept now e.now ttl value
unfolding new_entry
new_entry-kept e value ttl now h = ground (arith, h.clock_set, +ℤ_parts e.now ttl)

-- After `Set`, if the clock is set, the key has the value until its time to live has passed, and no
-- other key changes.
pub set-live :
    (e : Env) (key : String) (value : Bytes) (ttl : Duration) (s : Store) (now : Time) (k : String)
    → IsEnv e
    → live now (set e key value ttl s).1 k
      ≡ (if key == k then kept now e.now ttl value else live now s k)
unfolding set
set-live e key value ttl s now k h =
    ground (
      arith,
      lookup-insert key k (new_entry e value ttl) s.entries,
      new_entry-kept e value ttl now h,
    )

-- A `Get` that read an expired entry of a key under its first lock and deletes it under its second
-- removes what a `Set` of that key stored in between: the key has no value at any time. Had the `Get`
-- come after the `Set` as a whole, the key would keep the value until its time to live has passed; the
-- clock is set at the `Set`, and the `Get` reads it no later than the time that is asked for.
pub conclude-set :
    (e e' : Env) (key : String) (entry : CacheEntry) (value : Bytes) (ttl : Duration) (s : Store)
    (later : Time)
    → IsEnv e'
    → expired e.now entry ≡ true
    → e.now ≤ℤ later
    → let s' = (set e' key value ttl s).1 in
      (live later (conclude e key (some entry) s').1 key ≡ none)
      × (live later (get e key s').1 key ≡ kept later e'.now ttl value)
unfolding conclude
conclude-set e e' key entry value ttl s later h old order =
    let s' = (set e' key value ttl s).1 in
    (
      ground (arith, old, lookup-erase key key s'.entries),
      (get-live e key s' later key order).1
          ∙ ground (arith, set-live e' key value ttl s later key h),
    )

-- After `Delete` the key has no value, and no other key changes.
pub delete-live :
    (key : String) (s : Store) (now : Time) (k : String)
    → live now (delete key s).1 k ≡ (if key == k then none else live now s k)
unfolding delete
delete-live key s now k = ground (arith, lookup-erase key k s.entries)

-- `CompareAndSet` answers whether the value that the key has at the time of the call is the old one,
-- where nil stands for no value and for an empty one. If it is, the key has the new value until its
-- time to live has passed. It changes no other key, and if it is not, no key, at that time or later.
-- The clock is set at its second reading.
pub compare_and_set-live :
    (e e' : Env) (key : String) (old : Option Bytes) (new : Bytes) (ttl : Duration) (s : Store)
    (later : Time) (k : String)
    → IsEnv e'
    → e.now ≤ℤ later
    → let swaps = matches_old old (live e.now s key) in
      ((compare_and_set e e' key old new ttl s).0 ≡ ok swaps)
      × (live later (compare_and_set e e' key old new ttl s).1 k
          ≡ (if swaps && key == k then kept later e'.now ttl new else live later s k))
unfolding compare_and_set
compare_and_set-live e e' key none new ttl s later k set h =
    elim (Option-cases (lookup key s.entries)) [
      | inl p ↦ ground (
        arith,
        p,
        lookup-insert key k (new_entry e' new ttl) s.entries,
        new_entry-kept e' new ttl later set,
      )
      | inr (entry, p) ↦ ground (
        arith,
        p,
        lookup-erase key k s.entries,
        lookup-insert key k (new_entry e' new ttl) s.entries,
        lookup-insert key k (new_entry e' new ttl) (erase key s.entries),
        new_entry-kept e' new ttl later set,
        expired_later e.now later entry h,
      )
    ]
compare_and_set-live e e' key (some o) new ttl s later k set h =
    elim (Option-cases (lookup key s.entries)) [
      | inl p ↦ ground (
        arith,
        p,
        lookup-insert key k (new_entry e' new ttl) s.entries,
        new_entry-kept e' new ttl later set,
      )
      | inr (entry, p) ↦ ground (
        arith,
        p,
        lookup-erase key k s.entries,
        lookup-insert key k (new_entry e' new ttl) s.entries,
        lookup-insert key k (new_entry e' new ttl) (erase key s.entries),
        new_entry-kept e' new ttl later set,
        expired_later e.now later entry h,
      )
    ]
