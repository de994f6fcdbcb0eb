-- ===== src/Providertest/Blobtest.antt =====
-- providertest/blobtest/blobtest.go: the conformance suite of a blob store. The calls of a subtest are
-- numbered; the runtime supplies the clock to each, and the order of each `range`.
pub mod Passes
use flames.Prelude.{
  ℕ, String, Bool, false, not, ℤ, pos, List, [], ◌∷◌, length, ◌==◌, string_eq, number_eq,
  integer_eq,
}
use flames.Dict.{Range}
use flames.Runtime.{Env, Bytes, bytes_eq, to_bytes, zero_time}
use flames.Model.{BlobMeta}
use flames.Providererr.{err_not_found}
use flames.Result.{ok}
use flames.Blob.{BlobStore}
use flames.Providertest.{
  Check, try, must, value_or, expect, fails_with, ◌>>=◌, ◌>>◌, Outcome, subtest,
}

-- model.BlobMeta{ContentType: …}
abbrev pub typed : String → BlobMeta
typed content_type = record {
  key = "";
  size = pos 0;
  checksum = "";
  content_type = content_type;
  metadata = [];
  created_at = zero_time;
}

module _ {B : Type 0} (S : BlobStore B) where
  unfoldable pub test_put_and_get : (ℕ → Env) → Check S.State (Unit {0})
  test_put_and_get e = do
    let data_bytes = to_bytes "hello, blobs!"
    must "Put: %v" (S.put (e 0) "test/key" (ok data_bytes) (typed "text/plain"))
    got ← must "Get: %v" (S.get "test/key")
    expect (got == data_bytes) "got %q, want %q"

  unfoldable pub test_head : (ℕ → Env) → Check S.State (Unit {0})
  test_head e = do
    let data_bytes = to_bytes "head test data"
    must "Put: %v" (S.put (e 0) "head/key" (ok data_bytes) (typed "application/octet-stream"))
    m ← must "Head: %v" (S.head "head/key")
    expect (m.key == "head/key") "got Key %q, want %q"
    expect (m.size == pos (length data_bytes)) "got Size %d, want %d"
    expect (m.content_type == "application/octet-stream") "got ContentType %q, want %q"
    expect (not (m.checksum == "")) "Checksum is empty"

  unfoldable pub test_delete : (ℕ → Env) → Check S.State (Unit {0})
  test_delete e = do
    _ ← try (S.put (e 0) "del/key" (ok (to_bytes "x")) (typed ""))
    must "Delete: %v" (S.delete "del/key")
    exists ← value_or false (S.exists "del/key")
    expect (not exists) "blob still exists after delete"

  unfoldable pub test_exists : (ℕ → Env) → Check S.State (Unit {0})
  test_exists e = do
    missing ← must "Exists: %v" (S.exists "nonexistent")
    expect (not missing) "expected false for nonexistent key"
    _ ← try (S.put (e 0) "exists/key" (ok (to_bytes "data")) (typed ""))
    exists ← must "Exists: %v" (S.exists "exists/key")
    expect exists "expected true for existing key"

  unfoldable pub test_list : (ℕ → Env) → (ℕ → Range B) → Check S.State (Unit {0})
  test_list e order = do
    _ ← try (S.put (e 0) "images/a.png" (ok (to_bytes "a")) (typed ""))
    _ ← try (S.put (e 1) "images/b.png" (ok (to_bytes "b")) (typed ""))
    _ ← try (S.put (e 2) "docs/c.txt" (ok (to_bytes "c")) (typed ""))
    images ← must "List: %v" (S.list (order 0) "images/")
    expect (length images == 2) "expected 2 blobs with prefix images/, got %d"
    everything ← must "List all: %v" (S.list (order 1) "")
    expect (length everything == 3) "expected 3 total blobs, got %d"

  unfoldable pub test_not_found_errors : Check S.State (Unit {0})
  test_not_found_errors = do
    got ← try (S.get "missing")
    expect (fails_with err_not_found got) "Get: expected ErrNotFound, got %v"
    seen ← try (S.head "missing")
    expect (fails_with err_not_found seen) "Head: expected ErrNotFound, got %v"
    deleted ← try (S.delete "missing")
    expect (fails_with err_not_found deleted) "Delete: expected ErrNotFound, got %v"

  -- `Run`: every subtest has a new store.
  unfoldable pub run : (String → ℕ → Env) → (ℕ → Range B) → S.State → List Outcome
  run e order new =
      subtest "PutAndGet" (test_put_and_get (e "PutAndGet")) new
      ∷ subtest "Head" (test_head (e "Head")) new
      ∷ subtest "Delete" (test_delete (e "Delete")) new
      ∷ subtest "Exists" (test_exists (e "Exists")) new
      ∷ subtest "List" (test_list (e "List") order) new
      ∷ subtest "NotFoundErrors" test_not_found_errors new
      ∷ []
