-- ===== src/Cache/Memcache/Exclusion.antt =====
-- `CompareAndSet` as a lock: what holds from a swap until the time to live of the new value.
use flames.Prelude.{
  String, true, false, Option, some, List, [], ◌∷◌, ◌++◌, All, +ℤ_parts, ◌≤ℤ◌, string_eq,
  integer_eq, ◌≡◌, ◌≢◌, ◌∙◌, ap, arith, refl, equal_self,
}
use flames.Runtime.{bytes_eq, Env, IsEnv, Time, Duration, Bytes}
use flames.Result.{ok}
use flames.Cache.Contract.{
  Call, gets, sets, deletes, compares, call, run, Values, promised, InOrder, IsTimed, matches_old,
  hit_or_miss, kept,
}
use flames.Cache.Memcache.{Store, memcache, get, compare_and_set}
use flames.Cache.Memcache.Live.{live, get-live, compare_and_set-live}
use flames.Cache.Memcache.Refinement.{later, self, step-Agrees}

-- The call neither sets nor deletes the key, nor compares it with an old value that the holder's
-- value matches.
abbrev pub Spares : String → Bytes → Env × Call → Type 0
Spares key holder (e, gets k) = Unit
Spares key holder (e, sets k value ttl) = k ≢ key
Spares key holder (e, deletes k) = k ≢ key
Spares key holder (e, compares e' k old value ttl) = k ≡ key → matches_old old (some holder) ≡ false

kept_before :
    (now until start : Time) (ttl : Duration) (value : Bytes)
    → now ≤ℤ until
    → kept until start ttl value ≡ some value
    → kept now start ttl value ≡ some value
kept_before now until start ttl value o k = ground (arith, +ℤ_parts start ttl)

InOrder-last :
    (t : Time) (cs : List (Env × Call)) (e : Env) (c : Call)
    → InOrder t (cs ++ (e, c) ∷ [])
    → (t ≤ℤ e.now) × IsTimed c
unfolding InOrder
InOrder-last t [] e c (o, _, clock, _) = (o, clock)
InOrder-last t ((e', c') ∷ cs) e c (o, _, _, os) =
    let (o', clock) = InOrder-last e'.now cs e c os in (later t e'.now e.now o o', clock)

module _ (key : String) (holder : Bytes) (start : Time) (ttl : Duration) where
  -- From a time on the key has the holder's value for as long as it was stored.
  abbrev Holds : Time → Values → Type 0
  Holds t v = (now : Time) → t ≤ℤ now → v now key ≡ kept now start ttl holder

  step-Holds :
      (t : Time) (e : Env) (c : Call) (v : Values)
      → t ≤ℤ e.now
      → Spares key holder (e, c)
      → kept e.now start ttl holder ≡ some holder
      → Holds t v
      → Holds e.now (promised e c v).1
  unfolding promised
  step-Holds t e (gets k) v o spares still h now l = h now (later t e.now now o l)
  step-Holds t e (sets k value d) v o spares still h now l =
      ground (arith, h now (later t e.now now o l))
  step-Holds t e (deletes k) v o spares still h now l =
      ground (arith, h now (later t e.now now o l))
  step-Holds t e (compares e' k old value d) v o spares still h now l = elim (string_eq.dec k key) [
    | yes same ↦ rw (same, h e.now o, still, spares same) (h now (later t e.now now o l))
    | no other ↦ ground (arith, h now (later t e.now now o l))
  ]

  -- The cache at its end has the holder's value still.
  run-Holds :
      (t : Time) (cs : List (Env × Call)) (e : Env) (c : Call) (s : Store)
      → InOrder t (cs ++ (e, c) ∷ [])
      → All (Spares key holder) cs
      → kept e.now start ttl holder ≡ some holder
      → Holds t (λ now k. live now s k)
      → live e.now (run memcache cs s).1 key ≡ some holder
  unfolding run InOrder
  run-Holds t [] e c s (o, _, _, _) a still h = h e.now o ∙ still
  run-Holds t ((e', c') ∷ cs) e c s (o, env, clock, os) (spares, a) still h =
      let still' =
        kept_before e'.now e.now start ttl holder (InOrder-last e'.now cs e c os).0 still in
      let agrees =
        (step-Agrees t e' c' s (λ now k. live now s k) o env clock (λ now k l. refl)).1 in
      run-Holds e'.now cs e c (call memcache e' c' s).1 os a still
        (λ now l. agrees now key l ∙ step-Holds t e' c' _ o spares still' h now l)

swap-Holds :
    (e e' : Env) (key : String) (old : Option Bytes) (value : Bytes) (ttl : Duration) (s : Store)
    → IsEnv e'
    → (compare_and_set e e' key old value ttl s).0 ≡ ok true
    → Holds key value e'.now ttl e.now
        (λ now k. live now (compare_and_set e e' key old value ttl s).1 k)
swap-Holds e e' key old value ttl s clock swaps now l =
    let (answer, kept_after) = compare_and_set-live e e' key old value ttl s now key clock l in
    kept_after ∙ ground (arith, answer, swaps, equal_self key)

-- After a `CompareAndSet` that swapped, and until the time to live of its new value has passed, `Get`
-- of the key returns that value, and a `CompareAndSet` of the key does not swap if that value does
-- not match its old one, where nil matches an empty value alone. Any calls may come between that
-- neither set nor delete the key nor compare it with an old value that the new one matches; the calls
-- come one after the other, each with its clock set, as at the second reading of the swap.
pub compare_and_set_exclusive :
    (e e' : Env) (key : String) (old : Option Bytes) (holder : Bytes) (ttl : Duration) (s : Store)
    (cs : List (Env × Call)) (f f' : Env) (old' : Option Bytes) (other : Bytes) (ttl' : Duration)
    → IsEnv e'
    → (compare_and_set e e' key old holder ttl s).0 ≡ ok true
    → InOrder e.now (cs ++ (f, compares f' key old' other ttl') ∷ [])
    → All (Spares key holder) cs
    → matches_old old' (some holder) ≡ false
    → kept f.now e'.now ttl holder ≡ some holder
    → let r = (run memcache cs (compare_and_set e e' key old holder ttl s).1).1 in
      ((compare_and_set f f' key old' other ttl' r).0 ≡ ok false) × ((get f key r).0 ≡ ok holder)
compare_and_set_exclusive e e' key old holder ttl s cs f f' old' other ttl' clock swaps o a differs
      still =
    let s' = (compare_and_set e e' key old holder ttl s).1 in
    let r = (run memcache cs s').1 in
    let now_held : live f.now r key ≡ some holder =
      run-Holds key holder e'.now ttl e.now cs f (compares f' key old' other ttl') s' o a still
        (swap-Holds e e' key old holder ttl s clock swaps) in
    (
      (compare_and_set-live f f' key old' other ttl' r f.now key (InOrder-last e.now cs f _ o).1
            (self f.now)).0
          ∙ ap (λ b. ok b) (rw now_held differs),
      (get-live f key r f.now key (self f.now)).0 ∙ ap hit_or_miss now_held,
    )
