-- ===== src/Cache/Memcache/Slices/Values.antt =====
-- The cache of slices against the cache of values.
use flames.Prelude.{
  ℕ, ◌<◌, String, Option, Option-cases, none, some, [], ◌∷◌, map, All, All-map, string_eq,
  number_eq, integer_eq, ◌≡◌, ◌≢◌, ◌∙◌, ap, arith, refl, inl, inr,
}
use flames.Dict.{Dict, lookup, insert, erase}
use flames.Runtime.{bytes_eq, Env, Duration, Bytes}
use flames.Cache.Memcache.{CacheEntry, Store, compare_and_set, new_entry}
use flames.Cache.Memcache.Slices.{
  Heap, write, make, make_copy, SliceEntry, SliceStore, store_copy, compare_and_set_slice,
}

abbrev pub value_of : Heap → SliceEntry → CacheEntry
value_of h entry = record { value = h.bytes_at entry.value; expires_at = entry.expires_at }

abbrev pub values_in : Heap → Dict SliceEntry → Dict CacheEntry
values_in h = map (λ (p : String × SliceEntry). (p.0, value_of h p.1))

-- The cache of values that the slices hold.
abbrev pub view : SliceStore → Store
view s = record { entries = values_in s.heap s.entries }

-- No entry holds the array.
abbrev pub Unheld : ℕ → SliceStore → Type 0
Unheld array s = All (λ (p : String × SliceEntry). p.1.value ≢ array) s.entries

-- The entries hold arrays that are made.
abbrev pub IsMade : SliceStore → Type 0
IsMade s = All (λ (p : String × SliceEntry). p.1.value < s.heap.next) s.entries

abbrev pub found : Heap → Option SliceEntry → Option CacheEntry
found h none = none
found h (some entry) = some (value_of h entry)

pub lookup-values_in :
    (k : String) (h : Heap) (m : Dict SliceEntry) → lookup k (values_in h m) ≡ found h (lookup k m)
unfolding lookup
lookup-values_in k h [] = refl
lookup-values_in k h ((j, entry) ∷ m) = ground (arith, lookup-values_in k h m)

pub insert-values_in :
    (k : String) (entry : SliceEntry) (h : Heap) (m : Dict SliceEntry)
    → values_in h (insert k entry m) ≡ insert k (value_of h entry) (values_in h m)
unfolding insert
insert-values_in k entry h [] = refl
insert-values_in k entry h ((j, other) ∷ m) = ground (arith, insert-values_in k entry h m)

pub erase-values_in :
    (k : String) (h : Heap) (m : Dict SliceEntry)
    → values_in h (erase k m) ≡ erase k (values_in h m)
unfolding erase
erase-values_in k h [] = refl
erase-values_in k h ((j, other) ∷ m) = ground (arith, erase-values_in k h m)

values_in-write :
    (array : ℕ) (bytes : Bytes) (h : Heap) (m : Dict SliceEntry)
    → All (λ (p : String × SliceEntry). p.1.value ≢ array) m
    → values_in (write array bytes h) m ≡ values_in h m
values_in-write array bytes h [] u = refl
values_in-write array bytes h ((j, other) ∷ m) (u, us) =
    ground (arith, values_in-write array bytes h m us)

pub IsMade-Unheld : (s : SliceStore) → IsMade s → Unheld s.heap.next s
IsMade-Unheld s m =
    All-map
      (λ (p : String × SliceEntry) (h : p.1.value < s.heap.next).
        λ (same : p.1.value ≡ s.heap.next). absurd (omega arith))
      s.entries m

pub view-store_copy :
    (e : Env) (key : String) (array : ℕ) (ttl : Duration) (s : SliceStore)
    → IsMade s
    → view (store_copy e key array ttl s)
      ≡ record { entries = insert key (new_entry e (s.heap.bytes_at array) ttl) (view s).entries }
unfolding store_copy new_entry
view-store_copy e key array ttl s m =
    ap (λ d. record { entries = d })
      (insert-values_in key _ (make_copy array s.heap) s.entries
        ∙ ground (
          arith,
          values_in-write s.heap.next (s.heap.bytes_at array) s.heap s.entries (IsMade-Unheld s m),
        ))

pub made-view :
    (bytes : Bytes) (s : SliceStore)
    → IsMade s
    → view (record s { heap = make bytes s.heap }) ≡ view s
made-view bytes s m =
    ap (λ d. record { entries = d })
      (values_in-write s.heap.next bytes s.heap s.entries (IsMade-Unheld s m))

-- A caller's writes into an array that no entry holds change no value.
pub write-view :
    (array : ℕ) (bytes : Bytes) (s : SliceStore)
    → Unheld array s
    → view (record s { heap = write array bytes s.heap }) ≡ view s
write-view array bytes s u =
    ap (λ m. record { entries = m }) (values_in-write array bytes s.heap s.entries u)

abbrev pub old_value : Heap → Option ℕ → Option Bytes
old_value h none = none
old_value h (some array) = some (h.bytes_at array)

pub All-erase :
    (P : String × SliceEntry → Type 0) (key : String) (d : Dict SliceEntry)
    → All P d
    → All P (erase key d)
unfolding erase
All-erase P key [] a = tt
All-erase P key ((j, entry) ∷ d) a = ground (arith, All-erase P key d a.1)

pub compare-values :
    (e e' : Env) (key : String) (old : Option ℕ) (array : ℕ) (ttl : Duration) (s : SliceStore)
    → IsMade s
    → let values =
        compare_and_set e e' key (old_value s.heap old) (s.heap.bytes_at array) ttl (view s) in
      ((compare_and_set_slice e e' key old array ttl s).0 ≡ values.0)
      × (view (compare_and_set_slice e e' key old array ttl s).1 ≡ values.1)
unfolding compare_and_set compare_and_set_slice
compare-values e e' key none array ttl s m = elim (Option-cases (lookup key s.entries)) [
  | inl p ↦
      let q = lookup-values_in key s.heap s.entries ∙ ap (found s.heap) p in
      ground (arith, p, q, view-store_copy e' key array ttl s m)
  | inr (entry, p) ↦
      let q = lookup-values_in key s.heap s.entries ∙ ap (found s.heap) p in
      let s' : SliceStore = record s { entries = erase key s.entries } in
      ground (
        arith,
        p,
        q,
        view-store_copy e' key array ttl s m,
        view-store_copy e' key array ttl s' (All-erase _ key s.entries m),
        erase-values_in key s.heap s.entries,
      )
]
compare-values e e' key (some o) array ttl s m = elim (Option-cases (lookup key s.entries)) [
  | inl p ↦
      let q = lookup-values_in key s.heap s.entries ∙ ap (found s.heap) p in
      ground (arith, p, q, view-store_copy e' key array ttl s m)
  | inr (entry, p) ↦
      let q = lookup-values_in key s.heap s.entries ∙ ap (found s.heap) p in
      let s' : SliceStore = record s { entries = erase key s.entries } in
      ground (
        arith,
        p,
        q,
        view-store_copy e' key array ttl s m,
        view-store_copy e' key array ttl s' (All-erase _ key s.entries m),
        erase-values_in key s.heap s.entries,
      )
]
