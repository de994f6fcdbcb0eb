-- ===== src/Cache/Memcache/Slices/Acts.antt =====
-- One step of a caller or of the cache: a call, or what a caller does with its slices.
use flames.Prelude.{
  ℕ, String, Bool, Option, Option-cases, none, some, string_eq, number_eq, integer_eq, ◌≡◌, ◌∙◌,
  sym, ap, arith, refl, inl, inr,
}
use flames.Dict.{lookup}
use flames.Runtime.{bytes_eq, Env, Duration, Bytes}
use flames.Result.{Result, ok, err, pure, continue, ◌>>=◌, ◌>>◌}
use flames.Cache.Contract.{Call, call, Reply, done, a_value, swapped}
use flames.Cache.Memcache.{memcache, Store, conclude, get, set, delete}
use flames.Cache.Memcache.Slices.{
  Heap, write, make, SliceStore, get_slice, set_slice, delete_slice, compare_and_set_slice,
}
use flames.Cache.Memcache.Slices.Values.{
  view, Unheld, IsMade, old_value, found, lookup-values_in, erase-values_in, made-view, write-view,
  view-store_copy, compare-values,
}

-- What the callers and the cache do: a caller makes an array, or writes into one, or calls a method.
pub data Act : Type 0 where
  makes : Bytes → Act
  writes : ℕ → Bytes → Act
  gets : String → Act
  sets : String → ℕ → Duration → Act
  deletes : String → Act
  compares : Env → String → Option ℕ → ℕ → Duration → Act

abbrev bytes_read : Heap → Result ℕ → Result Reply
bytes_read h (ok array) = ok (a_value (h.bytes_at array))
bytes_read h (err x) = err x

-- The reply of a method, where the slice that `Get` returns is read at once.
unfoldable pub act : Env → Act → SliceStore → Option (Result Reply) × SliceStore
act e (makes bytes) s = (none, record s { heap = make bytes s.heap })
act e (writes array bytes) s = (none, record s { heap = write array bytes s.heap })
act e (gets key) s = let (r, s') = get_slice e key s in (some (bytes_read s'.heap r), s')
act e (sets key array ttl) s =
    let (r, s') = (do set_slice e key array ttl; pure done) s in (some r, s')
act e (deletes key) s = let (r, s') = (do delete_slice key; pure done) s in (some r, s')
act e (compares e' key old array ttl) s =
    let (r, s') = (do b ← compare_and_set_slice e e' key old array ttl; pure (swapped b)) s in
    (some r, s')

-- The call that the values make: each argument as its array is at the time.
abbrev pub value_call : Act → SliceStore → Option Call
value_call (makes bytes) s = none
value_call (writes array bytes) s = none
value_call (gets key) s = some (Call.gets key)
value_call (sets key array ttl) s = some (Call.sets key (s.heap.bytes_at array) ttl)
value_call (deletes key) s = some (Call.deletes key)
value_call (compares e' key old array ttl) s =
    some (Call.compares e' key (old_value s.heap old) (s.heap.bytes_at array) ttl)

abbrev pub value_act : Env → Option Call → Store → Option (Result Reply) × Store
value_act e none s = (none, s)
value_act e (some c) s = let (r, s') = call memcache e c s in (some r, s')

-- A write goes to an array that no entry holds.
abbrev pub IsOwnWrite : Act → SliceStore → Type 0
IsOwnWrite (writes array bytes) s = Unheld array s
IsOwnWrite _ s = Unit

pub swapped-state :
    {S : Type 0} (r : Result Bool) (s : S) → (continue r (λ b. pure (swapped b)) s).1 ≡ s
swapped-state (ok b) s = refl
swapped-state (err x) s = refl

pub act-values :
    (e : Env) (a : Act) (s : SliceStore)
    → IsMade s
    → IsOwnWrite a s
    → ((act e a s).0 ≡ (value_act e (value_call a s) (view s)).0)
      × (view (act e a s).1 ≡ (value_act e (value_call a s) (view s)).1)
unfolding act call get get_slice conclude set set_slice delete delete_slice
act-values e (makes bytes) s m own = (refl, made-view bytes s m)
act-values e (writes array bytes) s m own = (refl, write-view array bytes s own)
act-values e (gets key) s m own = elim (Option-cases (lookup key s.entries)) [
  | inl p ↦
      let q = lookup-values_in key s.heap s.entries ∙ ap (found s.heap) p in rw (p, q) (refl, refl)
  | inr (entry, p) ↦
      let q = lookup-values_in key s.heap s.entries ∙ ap (found s.heap) p in
      (rw (p, q) (ground arith), rw (p, q) (ground (arith, erase-values_in key s.heap s.entries)))
]
act-values e (sets key array ttl) s m own = (refl, view-store_copy e key array ttl s m)
act-values e (deletes key) s m own =
    (refl, ap (λ d. record { entries = d }) (erase-values_in key s.heap s.entries))
act-values e (compares e' key old array ttl) s m own =
    let (reply, after_it) = compare-values e e' key old array ttl s m in
    (ground (arith, reply), ap view (swapped-state _ _) ∙ after_it ∙ sym (swapped-state _ _))
