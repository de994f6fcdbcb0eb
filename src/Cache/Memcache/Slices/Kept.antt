-- ===== src/Cache/Memcache/Slices/Kept.antt =====
-- What every act keeps: the entries hold arrays that are made, and no array of a caller.
use flames.Prelude.{
  ℕ, ◌<◌, String, Bool, true, false, not, Option, Option-cases, [], ◌∷◌, All, All-map, ◌==◌,
  string_eq, number_eq, integer_eq, if◌then◌else◌, ◌≡◌, sym, subst, arith, inl, inr,
}
use flames.Dict.{Dict, lookup, insert, erase}
use flames.Runtime.{bytes_eq, Env, Duration, Bytes}
use flames.Providererr.{err_cache_miss}
use flames.Result.{Result, ok, err}
use flames.Cache.Memcache.Slices.{
  write, make, SliceEntry, SliceStore, slice_expired, store_copy, get_slice, set_slice,
  delete_slice, compare_and_set_slice, is_nil_slice, bytes_or_nil,
}
use flames.Cache.Memcache.Slices.Values.{Unheld, IsMade, All-erase}
use flames.Cache.Memcache.Slices.Acts.{
  Act, makes, writes, gets, sets, deletes, compares, act, swapped-state,
}

All-insert :
    (P : String × SliceEntry → Type 0) (key : String) (entry : SliceEntry) (d : Dict SliceEntry)
    → P (key, entry)
    → All P d
    → All P (insert key entry d)
unfolding insert
All-insert P key entry [] h a = (h, tt)
All-insert P key entry ((j, other) ∷ d) h a = ground (arith, All-insert P key entry d h a.1)

-- A predicate that each kind of change keeps is kept by every act.
module _ (P : SliceStore → Type 0)
    (made : (bytes : Bytes) (s : SliceStore) → P s → P (record s { heap = make bytes s.heap }))
    (written : (array : ℕ) (bytes : Bytes) (s : SliceStore)
      → P s
      → P (record s { heap = write array bytes s.heap }))
    (erased : (key : String) (s : SliceStore)
      → P s
      → P (record s { entries = erase key s.entries }))
    (copied : (e : Env) (key : String) (array : ℕ) (ttl : Duration) (s : SliceStore)
      → P s
      → P (store_copy e key array ttl s)) where
  either : {A : Type 0} (b : Bool) (x y : A × SliceStore) → P x.1 → P y.1 → P (if b then x else y).1
  either true x y p q = p
  either false x y p q = q

  get_slice-keeps : (e : Env) (key : String) (s : SliceStore) → P s → P (get_slice e key s).1
  unfolding get_slice
  get_slice-keeps e key s h = elim (Option-cases (lookup key s.entries)) [
    | inl p ↦ rw (p, get_slice) h
    | inr (entry, p) ↦
        rw (p, get_slice)
          (either (slice_expired e.now entry)
            (err err_cache_miss, record s { entries = erase key s.entries }) (ok entry.value, s)
            (erased key s h) h)
  ]

  swap-keeps :
      (b : Bool) (e : Env) (key : String) (array : ℕ) (ttl : Duration) (s : SliceStore)
      → P s
      → P
          (if◌then◌else◌ {A = Result Bool × SliceStore} b
            (ok false, s)
            (ok true, store_copy e key array ttl s)).1
  swap-keeps b e key array ttl s h =
      either b (ok false, s) (ok true, store_copy e key array ttl s) h (copied e key array ttl s h)

  compare_and_set_slice-keeps :
      (e e' : Env) (key : String) (old : Option ℕ) (array : ℕ) (ttl : Duration) (s : SliceStore)
      → P s
      → P (compare_and_set_slice e e' key old array ttl s).1
  unfolding compare_and_set_slice
  compare_and_set_slice-keeps e e' key old array ttl s h =
      let s' : SliceStore = record s { entries = erase key s.entries } in
      let b = not (is_nil_slice old) in
      elim (Option-cases (lookup key s.entries)) [
        | inl p ↦ rw (p, compare_and_set_slice) (swap-keeps b e' key array ttl s h)
        | inr (entry, p) ↦
            let c = not (s.heap.bytes_at entry.value == bytes_or_nil old s.heap) in
            rw (p, compare_and_set_slice)
              (either (slice_expired e.now entry)
                (if b then (ok false, s') else (ok true, store_copy e' key array ttl s'))
                (if c then (ok false, s) else (ok true, store_copy e' key array ttl s))
                (swap-keeps b e' key array ttl s' (erased key s h))
                (swap-keeps c e' key array ttl s h))
      ]

  act-keeps : (e : Env) (a : Act) (s : SliceStore) → P s → P (act e a s).1
  unfolding act set_slice delete_slice
  act-keeps e (makes bytes) s h = made bytes s h
  act-keeps e (writes array bytes) s h = written array bytes s h
  act-keeps e (gets key) s h = get_slice-keeps e key s h
  act-keeps e (sets key array ttl) s h = copied e key array ttl s h
  act-keeps e (deletes key) s h = erased key s h
  act-keeps e (compares e' key old array ttl) s h =
      subst P (sym (swapped-state _ _)) (compare_and_set_slice-keeps e e' key old array ttl s h)

store_copy-IsMade :
    (e : Env) (key : String) (array : ℕ) (ttl : Duration) (s : SliceStore)
    → IsMade s
    → IsMade (store_copy e key array ttl s)
unfolding store_copy
store_copy-IsMade e key array ttl s m =
    All-insert _ key _ s.entries (omega arith)
      (All-map (λ p (h : p.1.value < s.heap.next). omega (arith, h)) s.entries m)

pub act-IsMade : (e : Env) (a : Act) (s : SliceStore) → IsMade s → IsMade (act e a s).1
act-IsMade =
    act-keeps IsMade
      (λ bytes s. All-map (λ p (h : p.1.value < s.heap.next). omega (arith, h)) s.entries)
      (λ array bytes s m. m) (λ key s. All-erase _ key s.entries) store_copy-IsMade

-- The array is made and no entry holds it.
abbrev pub Owned : ℕ → SliceStore → Type 0
Owned array s = (array < s.heap.next) × Unheld array s

store_copy-Owned :
    (array : ℕ) (e : Env) (key : String) (value : ℕ) (ttl : Duration) (s : SliceStore)
    → Owned array s
    → Owned array (store_copy e key value ttl s)
unfolding store_copy
store_copy-Owned array e key value ttl s (l, u) = (
  omega (arith, l),
  All-insert _ key _ s.entries (λ (same : s.heap.next ≡ array). absurd (omega (arith, l, same))) u,
)

pub act-Owned :
    (array : ℕ) (e : Env) (a : Act) (s : SliceStore) → Owned array s → Owned array (act e a s).1
act-Owned array =
    act-keeps (Owned array) (λ bytes s o. (omega (arith, o.0), o.1)) (λ other bytes s o. o)
      (λ key s o. (o.0, All-erase _ key s.entries o.1)) (store_copy-Owned array)
