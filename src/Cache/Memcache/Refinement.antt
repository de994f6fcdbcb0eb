-- ===== src/Cache/Memcache/Refinement.antt =====
-- The in-memory cache against the contract of a cache, along histories of calls.
use flames.Prelude.{String, none, List, [], ◌∷◌, ◌≤ℤ◌, string_eq, integer_eq, ◌≡◌, ap, arith, refl}
use flames.Runtime.{bytes_eq, Env, IsEnv, Time, Duration, Bytes, zero_time}
use flames.Dict.{lookup}
use flames.Result.{ok}
use flames.Cache.Contract.{
  Call, gets, sets, deletes, compares, call, run, Values, promised, promised_all, IsTimed, InOrder,
}
use flames.Cache.Memcache.{Store, memcache, new, set, delete}
use flames.Cache.Memcache.Live.{live, get-live, set-live, delete-live, compare_and_set-live}

-- From a time on, every key has the value that the contract gives it.
abbrev pub Agrees : Time → Store → Values → Type 0
Agrees t s v = (now : Time) (k : String) → t ≤ℤ now → live now s k ≡ v now k

pub later : (t u now : Time) → t ≤ℤ u → u ≤ℤ now → t ≤ℤ now
later t u now a b = omega arith

pub self : (t : Time) → t ≤ℤ t
self t = omega arith

set-replies :
    (e : Env) (key : String) (value : Bytes) (ttl : Duration) (s : Store)
    → (set e key value ttl s).0 ≡ ok tt
unfolding set
set-replies e key value ttl s = refl

delete-replies : (key : String) (s : Store) → (delete key s).0 ≡ ok tt
unfolding delete
delete-replies key s = refl

pub step-Agrees :
    (t : Time) (e : Env) (c : Call) (s : Store) (v : Values)
    → t ≤ℤ e.now
    → IsEnv e
    → IsTimed c
    → Agrees t s v
    → ((call memcache e c s).0 ≡ (promised e c v).0)
      × Agrees e.now (call memcache e c s).1 (promised e c v).1
unfolding call promised
step-Agrees t e (gets key) s v o h clock a = (
  ground (arith, (get-live e key s e.now key (self e.now)).0, a e.now key o),
  λ now k l. ground (
    arith,
    (get-live e key s now k l).0,
    (get-live e key s now k l).1,
    a now k (later t e.now now o l),
  ),
)
step-Agrees t e (sets key value ttl) s v o h clock a = (
  rw (set-replies e key value ttl s) refl,
  λ now k l. ground (
    arith,
    set-replies e key value ttl s,
    set-live e key value ttl s now k h,
    a now k (later t e.now now o l),
  ),
)
step-Agrees t e (deletes key) s v o h clock a = (
  rw (delete-replies key s) refl,
  λ now k l.
      ground
        (arith, delete-replies key s, delete-live key s now k, a now k (later t e.now now o l)),
)
step-Agrees t e (compares e' key old value ttl) s v o h clock a = (
  ground (
    arith,
    (compare_and_set-live e e' key old value ttl s e.now key clock (self e.now)).0,
    a e.now key o,
  ),
  λ now k l. ground (
    arith,
    (compare_and_set-live e e' key old value ttl s now k clock l).0,
    (compare_and_set-live e e' key old value ttl s now k clock l).1,
    a now k (later t e.now now o l),
    a e.now key o,
  ),
)

run-Agrees :
    (t : Time) (cs : List (Env × Call)) (s : Store) (v : Values)
    → InOrder t cs
    → Agrees t s v
    → (run memcache cs s).0 ≡ promised_all cs v
unfolding run promised_all InOrder
run-Agrees t [] s v o a = refl
run-Agrees t ((e, c) ∷ cs) s v (o, h, clock, os) a =
    let (reply, a') = step-Agrees t e c s v o h clock a in
    rw reply (ap (λ rs. (promised e c v).0 ∷ rs) (run-Agrees e.now cs _ _ os a'))

-- The replies of a new in-memory cache to any history of calls are those that the contract gives
-- from the values of the keys alone, though the cache evicts expired entries only where a call comes
-- across them: if the calls come one after the other, each with its clock set and reading no earlier
-- than the call before it, and `Get` is one step.
pub memcache-promised_all :
    (cs : List (Env × Call))
    → InOrder zero_time cs
    → (run memcache cs new).0 ≡ promised_all cs (λ now key. none)
unfolding lookup
memcache-promised_all cs o = run-Agrees zero_time cs new (λ now key. none) o (λ now k l. refl)
