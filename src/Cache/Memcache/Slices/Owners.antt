-- ===== src/Cache/Memcache/Slices/Owners.antt =====
-- Callers that write only into the arrays that they made themselves.
use flames.Prelude.{
  ℕ, List, [], ◌∷◌, All, All-map, Bool, true, false, ◌||◌, ◌==◌, number_eq, subst, ◌≡◌, arith,
}
use flames.Runtime.{Env}
use flames.Cache.Contract.{run}
use flames.Cache.Memcache.{memcache}
use flames.Cache.Memcache.Slices.{SliceStore}
use flames.Cache.Memcache.Slices.Values.{view, IsMade, IsMade-Unheld}
use flames.Cache.Memcache.Slices.Acts.{
  Act, makes, writes, gets, sets, deletes, compares, act, IsOwnWrite,
}
use flames.Cache.Memcache.Slices.Kept.{Owned, act-Owned, act-IsMade}
use flames.Cache.Memcache.Slices.Histories.{act_all, value_calls, OwnWrites, act_all-values}

unfoldable pub among : ℕ → List ℕ → Bool
among array [] = false
among array (other ∷ rest) = let behind = among array rest in other == array || behind

-- The arrays that callers made, after an act.
abbrev pub own_after : Act → SliceStore → List ℕ → List ℕ
own_after (makes bytes) s own = s.heap.next ∷ own
own_after _ s own = own

abbrev pub IsWriteTo : List ℕ → Act → Type 0
IsWriteTo own (writes array bytes) = among array own ≡ true
IsWriteTo own _ = Unit

-- Callers that have made the arrays write only into these and into those that they make later.
unfoldable pub WritesOwn : List ℕ → List (Env × Act) → SliceStore → Type 0
WritesOwn own [] s = Unit
WritesOwn own ((e, a) ∷ rest) s = IsWriteTo own a × WritesOwn (own_after a s own) rest (act e a s).1

All-among :
    (P : ℕ → Type 0) (array : ℕ) (own : List ℕ) → among array own ≡ true → All P own → P array
unfolding among
All-among P array [] h a = absurd (ground arith)
All-among P array (other ∷ rest) h a = elim (number_eq.dec other array) [
  | yes same ↦ subst P same a.0
  | no differs ↦ All-among P array rest (ground arith) a.1
]

All-Owned :
    (e : Env) (a : Act) (s : SliceStore) (own : List ℕ)
    → All (λ array. Owned array s) own
    → All (λ array. Owned array (act e a s).1) own
All-Owned e a s own = All-map (λ array. act-Owned array e a s) own

made-Owned :
    (e : Env) (a : Act) (s : SliceStore) (own : List ℕ)
    → IsMade s
    → All (λ array. Owned array s) own
    → All (λ array. Owned array (act e a s).1) (own_after a s own)
unfolding act
made-Owned e (makes bytes) s own m o =
    ((omega arith, IsMade-Unheld s m), All-Owned e (makes bytes) s own o)
made-Owned e (writes array bytes) s own m o = o
made-Owned e (gets key) s own m o = All-Owned e (gets key) s own o
made-Owned e (sets key array ttl) s own m o = All-Owned e (sets key array ttl) s own o
made-Owned e (deletes key) s own m o = All-Owned e (deletes key) s own o
made-Owned e (compares e' key old array ttl) s own m o =
    All-Owned e (compares e' key old array ttl) s own o

own_write :
    (a : Act) (s : SliceStore) (own : List ℕ)
    → All (λ array. Owned array s) own
    → IsWriteTo own a
    → IsOwnWrite a s
own_write (makes bytes) s own o w = tt
own_write (writes array bytes) s own o w = (All-among (λ x. Owned x s) array own w o).1
own_write (gets key) s own o w = tt
own_write (sets key array ttl) s own o w = tt
own_write (deletes key) s own o w = tt
own_write (compares e' key old array ttl) s own o w = tt

WritesOwn-OwnWrites :
    (own : List ℕ) (acts : List (Env × Act)) (s : SliceStore)
    → IsMade s
    → All (λ array. Owned array s) own
    → WritesOwn own acts s
    → OwnWrites acts s
unfolding WritesOwn OwnWrites
WritesOwn-OwnWrites own [] s m o w = tt
WritesOwn-OwnWrites own ((e, a) ∷ rest) s m o (w, ws) = (
  own_write a s own o w,
  WritesOwn-OwnWrites (own_after a s own) rest (act e a s).1 (act-IsMade e a s m)
      (made-Owned e a s own m o) ws,
)

-- Over any history in which callers make arrays, write into them and pass them to the cache, the
-- cache that copies on `Set` and `CompareAndSet` and hands out its own slice on `Get` replies as the
-- cache of values does to the values that the slices have at each call: if callers write only into
-- arrays that they made, none of which an entry holds at the start, where all that are held or
-- theirs are made.
pub act_all-isolated :
    (own : List ℕ) (acts : List (Env × Act)) (s : SliceStore)
    → IsMade s
    → All (λ array. Owned array s) own
    → WritesOwn own acts s
    → act_all acts s ≡ (run memcache (value_calls acts s) (view s)).0
act_all-isolated own acts s m o w = act_all-values acts s m (WritesOwn-OwnWrites own acts s m o w)
