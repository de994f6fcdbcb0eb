-- ===== src/Cache/Contract.antt =====
-- What a cache with `CompareAndSet` promises, over the values that its keys have as time passes: what
-- each call answers and which value each key has from then on. How entries are stored and when the
-- expired ones are evicted is left open.
use flames.Prelude.{
  String, Bool, true, false, ◌&&◌, Option, none, some, List, [], ◌∷◌, ◌==◌, ◌+ℤ◌, pos, ltb_ℤ, ◌≤ℤ◌,
  string_eq, integer_eq, if◌then◌else◌,
}
use flames.Runtime.{bytes_eq, Env, IsEnv, Time, Duration, Bytes, after}
use flames.Providererr.{err_cache_miss}
use flames.Result.{Result, ok, err, Exec, pure, ◌>>=◌, ◌>>◌}
use flames.Cache.{AtomicCacheStore}

abbrev pub hit_or_miss : Option Bytes → Result Bytes
hit_or_miss none = err err_cache_miss
hit_or_miss (some value) = ok value

-- A value that was stored at a time, with a time to live, as it is later: there is no end to a time
-- to live that is not positive.
abbrev pub kept : Time → Time → Duration → Bytes → Option Bytes
kept now stored ttl value =
    if ltb_ℤ (pos 0) ttl && after now (stored +ℤ ttl) then none else some value

-- Whether `CompareAndSet` swaps: nil stands for no value, and for an empty one.
abbrev pub matches_old : Option Bytes → Option Bytes → Bool
matches_old none none = true
matches_old none (some value) = value == []
matches_old (some old) none = false
matches_old (some old) (some value) = value == old

-- One call of a method, and what it returns besides an error. `CompareAndSet` reads the clock again
-- where it swaps.
pub data Call : Type 0 where
  gets : String → Call
  sets : String → Bytes → Duration → Call
  deletes : String → Call
  compares : Env → String → Option Bytes → Bytes → Duration → Call

pub data Reply : Type 0 where
  done : Reply
  a_value : Bytes → Reply
  swapped : Bool → Reply

module _ (C : AtomicCacheStore) where
  unfoldable pub call : Env → Call → Exec C.store.State Reply
  call e (gets key) = do value ← C.store.get e key; pure (a_value value)
  call e (sets key value ttl) = do C.store.set e key value ttl; pure done
  call e (deletes key) = do C.store.delete key; pure done
  call e (compares e' key old new ttl) = do
    swaps ← C.compare_and_set e e' key old new ttl
    pure (swapped swaps)

  -- The replies to a history of calls, and the cache after it.
  unfoldable pub run : List (Env × Call) → C.store.State → List (Result Reply) × C.store.State
  run [] s = ([], s)
  run ((e, c) ∷ cs) s =
      let (reply, s') = call e c s in let (replies, s'') = run cs s' in (reply ∷ replies, s'')

-- The value that each key has at a time, if no call comes in between.
abbrev pub Values : Type 0
Values = Time → String → Option Bytes

abbrev pub put : String → (Time → Option Bytes) → Values → Values
put key value v now k = if key == k then value now else v now k

abbrev pub value_or_miss : Option Bytes → Result Reply
value_or_miss none = err err_cache_miss
value_or_miss (some value) = ok (a_value value)

unfoldable pub promised : Env → Call → Values → Result Reply × Values
promised e (gets key) v = (value_or_miss (v e.now key), v)
promised e (sets key value ttl) v = (ok done, put key (λ now. kept now e.now ttl value) v)
promised e (deletes key) v = (ok done, put key (λ now. none) v)
promised e (compares e' key old new ttl) v =
    if matches_old old (v e.now key)
    then (ok (swapped true), put key (λ now. kept now e'.now ttl new) v)
    else (ok (swapped false), v)

-- The replies to a history of calls, from the values of the keys alone.
unfoldable pub promised_all : List (Env × Call) → Values → List (Result Reply)
promised_all [] v = []
promised_all ((e, c) ∷ cs) v = (promised e c v).0 ∷ promised_all cs (promised e c v).1

-- The clock is set at the second reading too.
abbrev pub IsTimed : Call → Type 0
IsTimed (compares e' key old new ttl) = IsEnv e'
IsTimed _ = Unit

-- The calls come one after the other: no call reads a clock earlier than the one before it.
unfoldable pub InOrder : Time → List (Env × Call) → Type 0
InOrder now [] = Unit
InOrder now ((e, c) ∷ cs) = (now ≤ℤ e.now) × IsEnv e × IsTimed c × InOrder e.now cs
