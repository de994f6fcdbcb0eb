-- ===== src/Providertest/Cachetest.antt =====
-- providertest/cachetest/cachetest.go: the conformance suites of a cache. The calls of a subtest are
-- numbered; the runtime supplies the clock to each.
pub mod Passes
use flames.Prelude.{ℕ, String, Bool, true, not, some, pos, List, [], ◌∷◌, ◌==◌}
use flames.Runtime.{Env, Bytes, bytes_eq, to_bytes, milliseconds}
use flames.Providererr.{err_cache_miss}
use flames.Cache.{CacheStore, AtomicCacheStore}
use flames.Providertest.{
  Check, try, must, value_or, expect, fails_with, ◌>>=◌, ◌>>◌, Outcome, subtest,
}

module _ (C : CacheStore) where
  unfoldable pub test_set_and_get : (ℕ → Env) → Check C.State (Unit {0})
  test_set_and_get e = do
    let val = to_bytes "hello"
    must "Set: %v" (C.set (e 0) "key1" val (pos 0))
    got ← must "Get: %v" (C.get (e 1) "key1")
    expect (got == val) "got %q, want %q"

  unfoldable pub test_cache_miss : (ℕ → Env) → Check C.State (Unit {0})
  test_cache_miss e = do
    got ← try (C.get (e 0) "nonexistent")
    expect (fails_with err_cache_miss got) "expected ErrCacheMiss, got %v"

  -- The test sleeps between the calls 1 and 2.
  unfoldable pub test_ttl_expiry : (ℕ → Env) → Check C.State (Unit {0})
  test_ttl_expiry e = do
    let val = to_bytes "ephemeral"
    must "Set: %v" (C.set (e 0) "ttl-key" val (milliseconds 50))
    got ← must "Get before expiry: %v" (C.get (e 1) "ttl-key")
    expect (got == val) "got %q, want %q"
    missed ← try (C.get (e 2) "ttl-key")
    expect (fails_with err_cache_miss missed) "expected ErrCacheMiss after TTL expiry, got %v"

  unfoldable pub test_delete : (ℕ → Env) → Check C.State (Unit {0})
  test_delete e = do
    _ ← try (C.set (e 0) "del-key" (to_bytes "data") (pos 0))
    must "Delete: %v" (C.delete "del-key")
    got ← try (C.get (e 1) "del-key")
    expect (fails_with err_cache_miss got) "expected ErrCacheMiss after delete, got %v"

  unfoldable pub test_overwrite : (ℕ → Env) → Check C.State (Unit {0})
  test_overwrite e = do
    _ ← try (C.set (e 0) "ow-key" (to_bytes "v1") (pos 0))
    _ ← try (C.set (e 1) "ow-key" (to_bytes "v2") (pos 0))
    got ← must "Get: %v" (C.get (e 2) "ow-key")
    expect (got == to_bytes "v2") "got %q, want %q"

  -- `Run`: every subtest has a new store.
  unfoldable pub run : (String → ℕ → Env) → C.State → List Outcome
  run e new =
      subtest "SetAndGet" (test_set_and_get (e "SetAndGet")) new
      ∷ subtest "CacheMiss" (test_cache_miss (e "CacheMiss")) new
      ∷ subtest "TTLExpiry" (test_ttl_expiry (e "TTLExpiry")) new
      ∷ subtest "Delete" (test_delete (e "Delete")) new
      ∷ subtest "Overwrite" (test_overwrite (e "Overwrite")) new
      ∷ []

module _ (C : AtomicCacheStore) where
  unfoldable pub test_compare_and_set : (ℕ → Env) → Check C.store.State (Unit {0})
  test_compare_and_set e = do
    _ ← try (C.store.set (e 0) "cas-key" (to_bytes "old") (pos 0))
    swapped ←
        must "CompareAndSet: %v"
          (C.compare_and_set (e 1) (e 2) "cas-key" (some (to_bytes "old")) (to_bytes "new") (pos 0))
    expect swapped "CompareAndSet should have succeeded"
    got ← value_or [] (C.store.get (e 3) "cas-key")
    expect (got == to_bytes "new") "got %q, want %q"

  unfoldable pub test_compare_and_set_mismatch : (ℕ → Env) → Check C.store.State (Unit {0})
  test_compare_and_set_mismatch e = do
    _ ← try (C.store.set (e 0) "cas-key" (to_bytes "current") (pos 0))
    swapped ←
        must "CompareAndSet: %v" (
          C.compare_and_set (e 1) (e 2) "cas-key" (some (to_bytes "wrong")) (to_bytes "new")
            (pos 0))
    expect (not swapped) "CompareAndSet should have failed with mismatched old value"
    got ← value_or [] (C.store.get (e 3) "cas-key")
    expect (got == to_bytes "current") "value should not have changed, got %q"

  unfoldable pub run_atomic : (String → ℕ → Env) → C.store.State → List Outcome
  run_atomic e new =
      subtest "CompareAndSet" (test_compare_and_set (e "CompareAndSet")) new
      ∷ subtest "CompareAndSetMismatch" (test_compare_and_set_mismatch (e "CompareAndSetMismatch"))
          new
      ∷ []
