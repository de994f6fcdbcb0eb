-- ===== src/Providertest/Blobtest/Passes.antt =====
-- The conformance suite of a blob store, run on the store in memory.
use flames.Prelude.{
  ℕ, String, ◌≡◌, ◌≢◌, refl, ◌<◌, [], length, arith, string_eq, integer_eq, number_eq,
}
use flames.Dict.{Range, lookup, insert, erase}
use flames.Runtime.{Env, Bytes, bytes_eq, to_bytes}
use flames.Runtime.Hex.{encode_to_string, encode_to_string-ne-empty}
use flames.Providererr.{errors_is, provider_is, not_found}
use flames.Result.{ok, ◌>>◌}
use flames.Blob.Memblob.Stored.{length-collect_blobs}
use flames.Blob.Memblob.{
  StoredBlob, new, has_prefix, get, head, delete, exists, list, put, put_meta, memblob,
}
use flames.Providertest.{AllPass}
use flames.Providertest.Blobtest.{
  test_put_and_get, test_head, test_delete, test_exists, test_list, test_not_found_errors, run,
  typed,
}

module _ (sum256 : Bytes → Bytes) where
  not_found_errors-passes : (test_not_found_errors (memblob sum256) new).0 ≡ []
  unfolding test_not_found_errors get head delete lookup errors_is provider_is not_found string_eq
  not_found_errors-passes = refl

  module _ (e : ℕ → Env) where
    put_and_get-passes : (test_put_and_get (memblob sum256) e new).0 ≡ []
    unfolding test_put_and_get put get lookup insert string_eq
    put_and_get-passes = ground arith

    head-passes :
        ((bytes : Bytes) → encode_to_string (sum256 bytes) ≢ "")
        → (test_head (memblob sum256) e new).0 ≡ []
    unfolding test_head put head put_meta lookup insert
    head-passes h = ground (arith, h (to_bytes "head test data"))

    delete-passes : (test_delete (memblob sum256) e new).0 ≡ []
    unfolding test_delete put delete exists lookup insert erase string_eq
    delete-passes = refl

    exists-passes : (test_exists (memblob sum256) e new).0 ≡ []
    unfolding test_exists put exists lookup insert string_eq
    exists-passes = refl

    list-passes : (order : ℕ → Range StoredBlob) → (test_list (memblob sum256) e order new).0 ≡ []
    unfolding test_list put list lookup insert string_eq has_prefix
    list-passes order =
        let stored =
          ((do
            put sum256 (e 0) "images/a.png" (ok (to_bytes "a")) (typed "")
            put sum256 (e 1) "images/b.png" (ok (to_bytes "b")) (typed "")
            put sum256 (e 2) "docs/c.txt" (ok (to_bytes "c")) (typed ""))
            new).1.blobs in
        ground (
          arith,
          length-collect_blobs (order 0) "images/" stored,
          length-collect_blobs (order 1) "" stored,
        )

-- The conformance suite, run on the store in memory, reports nothing, whatever the clock shows and in
-- whatever orders the loops run, if no SHA-256 sum is empty.
pub blobtest-AllPass :
    (sum256 : Bytes → Bytes) (e : String → ℕ → Env) (order : ℕ → Range StoredBlob)
    → ((bytes : Bytes) → 0 < length (sum256 bytes))
    → AllPass (run (memblob sum256) e order new)
unfolding run
blobtest-AllPass sum256 e order h = (
  put_and_get-passes sum256 (e "PutAndGet"),
  (
    head-passes sum256 (e "Head") (λ b. encode_to_string-ne-empty (sum256 b) (h b)),
    (
      delete-passes sum256 (e "Delete"),
      (
        exists-passes sum256 (e "Exists"),
        (list-passes sum256 (e "List") order, (not_found_errors-passes sum256, tt)),
      ),
    ),
  ),
)
