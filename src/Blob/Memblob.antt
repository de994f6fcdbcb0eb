-- ===== src/Blob/Memblob.antt =====
-- provider/blob/memblob/memblob.go: the blob store in memory. SHA-256 is a parameter.
pub mod Stored
use flames.Prelude.{
  ℕ, String, Bool, true, false, none, some, List, [], ◌∷◌, ◌++◌, pos, length, ◌==◌, string_eq,
  integer_eq, if◌then◌else◌,
}
use Prim.Native.Char.{Char}
use flames.Dict.{Dict, Range, lookup, insert, erase}
use flames.Runtime.{Env, Bytes, is_zero}
use flames.Runtime.Hex.{encode_to_string}
use flames.Model.{BlobMeta}
use flames.Providererr.{not_found}
use flames.Result.{Result, ok, err, Exec}
use flames.Blob.{BlobStore}

pub record StoredBlob : Type 0 where
  pub data_bytes : Bytes
  pub meta : BlobMeta

pub record Store : Type 0 where
  pub blobs : Dict StoredBlob

-- `New`
abbrev pub new : Store
new = record { blobs = [] }

-- `strings.HasPrefix`
unfoldable pub has_prefix : String → String → Bool
has_prefix s String.[] = true
has_prefix String.[] (String.◌∷◌ c prefix) = false
has_prefix (String.◌∷◌ d s) (String.◌∷◌ c prefix) =
    let rest = has_prefix s prefix in
    if String.◌∷◌ d String.[] == String.◌∷◌ c String.[] then rest else false

-- The loop of `List` over the entries as `range` visits them.
unfoldable pub collect_blobs : String → List BlobMeta → Dict StoredBlob → List BlobMeta
collect_blobs prefix result [] = result
collect_blobs prefix result ((k, b) ∷ rest) =
    collect_blobs prefix (if has_prefix k prefix then result ++ b.meta ∷ [] else result) rest

unfoldable pub get : String → Exec Store Bytes
get key s = elim (lookup key s.blobs) [
  | none ↦ (err (not_found "blob" key), s)
  | some b ↦ (ok b.data_bytes, s)
]

unfoldable pub head : String → Exec Store BlobMeta
head key s = elim (lookup key s.blobs) [
  | none ↦ (err (not_found "blob" key), s)
  | some b ↦ (ok b.meta, s)
]

unfoldable pub delete : String → Exec Store (Unit {0})
delete key s = elim (lookup key s.blobs) [
  | none ↦ (err (not_found "blob" key), s)
  | some _ ↦ (ok tt, record { blobs = erase key s.blobs })
]

unfoldable pub exists : String → Exec Store Bool
exists key s = elim (lookup key s.blobs) [ none ↦ (ok false, s) | some _ ↦ (ok true, s) ]

unfoldable pub list : Range StoredBlob → String → Exec Store (List BlobMeta)
list r prefix s = (ok (collect_blobs prefix [] (r.visit s.blobs)), s)

module _ (sum256 : Bytes → Bytes) where
  -- The metadata that `Put` stores.
  unfoldable pub put_meta : Env → String → Bytes → BlobMeta → BlobMeta
  put_meta e key bytes meta = record meta {
    key = key;
    size = pos (length bytes);
    checksum = encode_to_string (sum256 bytes);
    created_at = if is_zero meta.created_at then e.now else meta.created_at;
  }

  unfoldable pub put : Env → String → Result Bytes → BlobMeta → Exec Store (Unit {0})
  put e key (err x) meta s = (err x, s)
  put e key (ok bytes) meta s = (
    ok tt,
    record {
      blobs = insert key (record { data_bytes = bytes; meta = put_meta e key bytes meta }) s.blobs;
    },
  )

  -- `var _ blob.BlobStore = (*Store)(nil)`
  abbrev pub memblob : BlobStore StoredBlob
  memblob = record {
    State = Store;
    put = put;
    get = get;
    head = head;
    delete = delete;
    exists = exists;
    list = list;
  }
