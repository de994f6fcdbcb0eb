-- ===== src/Providertest/Cachetest/Passes.antt =====
-- The conformance suites of a cache, run on the cache in memory.
use flames.Prelude.{
  ℕ, String, ◌≡◌, refl, ◌↔◌, ◌≢◌, [], ◌<ℤ◌, ◌≤ℤ◌, ◌+ℤ◌, +ℤ_parts, arith, string_eq, integer_eq,
}
use flames.Dict.{lookup, insert, erase}
use flames.Runtime.{Env, IsEnv, bytes_eq, to_bytes, milliseconds}
use flames.Providererr.{errors_is, provider_is}
use flames.Cache.Memcache.{new, conclude, get, set, delete, compare_and_set, new_entry, memcache}
use flames.Providertest.{AllPass}
use flames.Providertest.Cachetest.{
  test_set_and_get, test_cache_miss, test_ttl_expiry, test_delete, test_overwrite, run,
  test_compare_and_set, test_compare_and_set_mismatch, run_atomic,
}

module _ (e : ℕ → Env) where
  set_and_get-passes : (test_set_and_get memcache.store e new).0 ≡ []
  unfolding test_set_and_get conclude get set new_entry lookup insert string_eq
  set_and_get-passes = ground arith

  cache_miss-passes : (test_cache_miss memcache.store e new).0 ≡ []
  unfolding test_cache_miss conclude get lookup errors_is provider_is string_eq
  cache_miss-passes = refl

  ttl_expiry-passes :
      IsEnv (e 0)
      → (test_ttl_expiry memcache.store e new).0 ≡ [] ↔ (
          ((e 1).now ≤ℤ (e 0).now +ℤ milliseconds 50) × ((e 0).now +ℤ milliseconds 50 <ℤ (e 2).now))
  unfolding test_ttl_expiry conclude get set new_entry lookup insert errors_is provider_is string_eq
  ttl_expiry-passes h = ground (arith, h.clock_set, +ℤ_parts (e 0).now (milliseconds 50))

  delete-passes : (test_delete memcache.store e new).0 ≡ []
  unfolding test_delete conclude get set delete new_entry lookup insert erase errors_is provider_is
      string_eq
  delete-passes = refl

  overwrite-passes : (test_overwrite memcache.store e new).0 ≡ []
  unfolding test_overwrite conclude get set new_entry lookup insert string_eq
  overwrite-passes = ground arith

  compare_and_set-passes : (test_compare_and_set memcache e new).0 ≡ []
  unfolding test_compare_and_set compare_and_set conclude get set new_entry lookup insert string_eq
  compare_and_set-passes = ground arith

  wrong-current : to_bytes "current" ≢ to_bytes "wrong"
  unfolding to_bytes
  wrong-current = λ p. cc p

  compare_and_set_mismatch-passes : (test_compare_and_set_mismatch memcache e new).0 ≡ []
  unfolding test_compare_and_set_mismatch compare_and_set conclude get set new_entry lookup insert
      string_eq
  compare_and_set_mismatch-passes = ground (arith, wrong-current)

-- What "TTLExpiry" needs of the clock: the value is read within its 50 ms, and again behind them.
abbrev pub Timely : (String → ℕ → Env) → Type 0
Timely e =
    ((e "TTLExpiry" 1).now ≤ℤ (e "TTLExpiry" 0).now +ℤ milliseconds 50)
    × ((e "TTLExpiry" 0).now +ℤ milliseconds 50 <ℤ (e "TTLExpiry" 2).now)

-- The conformance suite, run on the cache in memory, reports nothing exactly if in "TTLExpiry" the
-- first `Get` comes no later than 50 ms after the `Set` and the second comes later than that, where
-- the clock is set at that `Set`; the suite of `CompareAndSet` reports nothing whatever the clock
-- shows.
pub cachetest-AllPass :
    (e : String → ℕ → Env)
    → IsEnv (e "TTLExpiry" 0)
    → (AllPass (run memcache.store e new) ↔ Timely e) × AllPass (run_atomic memcache e new)
unfolding run run_atomic
cachetest-AllPass e h =
    let ttl = ttl_expiry-passes (e "TTLExpiry") h in
    (
      (
        (λ all. ttl.0 all.1.1.0),
        λ timely. (
          set_and_get-passes (e "SetAndGet"),
          (
            cache_miss-passes (e "CacheMiss"),
            (ttl.1 timely, (delete-passes (e "Delete"), (overwrite-passes (e "Overwrite"), tt))),
          ),
        ),
      ),
      (
        compare_and_set-passes (e "CompareAndSet"),
        (compare_and_set_mismatch-passes (e "CompareAndSetMismatch"), tt),
      ),
    )
