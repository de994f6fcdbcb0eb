-- ===== src/Tests/Cache.antt =====
-- Histories of calls on the in-memory cache.
use flames.Prelude.{
  ℕ, ◌<◌, ◌++◌, ◌+ℤ◌, ◌≢◌, sym, true, String, pos, none, some, List, [], ◌∷◌, ◌≡◌, refl, arith,
  different, string_eq, false,
}
use flames.Runtime.{Env, IsEnv, bytes_eq}
use flames.Dict.{lookup}
use flames.Result.{ok}
use flames.Cache.Contract.{
  Call, gets, deletes, compares, run, promised_all, InOrder, promised, kept, matches_old, done,
  swapped, a_value,
}
use flames.Cache.Memcache.{memcache, new, get, compare_and_set}
use flames.Cache.Memcache.Refinement.{memcache-promised_all}
use flames.Cache.Memcache.Exclusion.{compare_and_set_exclusive}
use flames.Tests.Data.{at, at-IsEnv}

abbrev a_lock : String
a_lock = "lock"

-- A second try to take the lock, among other calls.
abbrev busy : List (Env × Call)
busy =
    (at 20 1, gets a_lock)
    ∷ (at 30 1, compares (at 31 1) a_lock none (8 ∷ []) (pos 100))
    ∷ (at 40 1, deletes "key")
    ∷ []

abbrev taken : List (Env × Call)
taken = (at 10 1, compares (at 11 1) a_lock none (7 ∷ []) (pos 100)) ∷ busy

set_at : (now : ℕ) → 0 < now → IsEnv (at now 1)
set_at now h = at-IsEnv now 1 h (omega arith)

taken-InOrder : InOrder (pos 0) taken
unfolding InOrder
taken-InOrder =
    let e10 = set_at 10 (omega arith) in
    let e11 = set_at 11 (omega arith) in
    let e20 = set_at 20 (omega arith) in
    let e30 = set_at 30 (omega arith) in
    let e31 = set_at 31 (omega arith) in
    let e40 = set_at 40 (omega arith) in
    (
      omega arith,
      e10,
      e11,
      (omega arith, e20, tt, (omega arith, e30, e31, (omega arith, e40, tt, tt))),
    )

memcache-promised_all_example : (run memcache taken new).0 ≡ promised_all taken (λ now key. none)
memcache-promised_all_example = memcache-promised_all taken taken-InOrder

-- The contract's replies to the same history.
taken_replies :
    promised_all taken (λ now key. none)
    ≡ ok (swapped true) ∷ ok (a_value (7 ∷ [])) ∷ ok (swapped false) ∷ ok done ∷ []
unfolding promised_all promised bytes_eq string_eq ◌+ℤ◌
taken_replies = refl

takes : (compare_and_set (at 10 1) (at 11 1) a_lock none (7 ∷ []) (pos 100) new).0 ≡ ok true
unfolding compare_and_set lookup
takes = refl

busy-InOrder :
    InOrder (pos 10) (busy ++ (at 50 1, compares (at 51 1) a_lock none (9 ∷ []) (pos 100)) ∷ [])
unfolding InOrder
busy-InOrder =
    let e20 = set_at 20 (omega arith) in
    let e30 = set_at 30 (omega arith) in
    let e31 = set_at 31 (omega arith) in
    let e40 = set_at 40 (omega arith) in
    let e50 = set_at 50 (omega arith) in
    let e51 = set_at 51 (omega arith) in
    (
      omega arith,
      e20,
      tt,
      (omega arith, e30, e31, (omega arith, e40, tt, (omega arith, e50, e51, tt))),
    )

no_match : matches_old none (some (7 ∷ [])) ≡ false
unfolding bytes_eq
no_match = refl

another_key : a_lock ≢ "key"
unfolding string_eq
another_key = different a_lock "key" refl

still_held : kept (pos 50) (pos 11) (pos 100) (7 ∷ []) ≡ some (7 ∷ [])
unfolding ◌+ℤ◌
still_held = refl

compare_and_set_exclusive_example :
    let s = (compare_and_set (at 10 1) (at 11 1) a_lock none (7 ∷ []) (pos 100) new).1 in
    let r = (run memcache busy s).1 in
    ((compare_and_set (at 50 1) (at 51 1) a_lock none (9 ∷ []) (pos 100) r).0 ≡ ok false)
    × ((get (at 50 1) a_lock r).0 ≡ ok (7 ∷ []))
compare_and_set_exclusive_example =
    compare_and_set_exclusive (at 10 1) (at 11 1) a_lock none (7 ∷ []) (pos 100) new busy (at 50 1)
      (at 51 1) none (9 ∷ []) (pos 100) (set_at 11 (omega arith)) takes busy-InOrder
      (tt, ((λ same. no_match), ((λ same. another_key (sym same)), tt))) no_match still_held
