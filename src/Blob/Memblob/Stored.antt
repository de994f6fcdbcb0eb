-- ===== src/Blob/Memblob/Stored.antt =====
-- What can be read of the blob store after a write, and what a listing holds.
use flames.Prelude.{
  pos, ◌↔◌, ◌⊎◌, inl, inr, Option-cases, String, ◌<>◌, Bool, true, false, List, [], ◌∷◌, ◌++◌, map,
  filter, Perm, length, length-perm, ◌≡◌, refl, sym, ap, arith, ◌==◌, string_eq, integer_eq,
  if◌then◌else◌,
}
use mathlib.Core.List.{append-nil, append_assoc}
use mathlib.Core.List.Perm
use text.Mathlib.TextLemmas.{cons-append, nil-append}
use flames.Dict.{Dict, Range, lookup, lookup-insert, lookup-erase}
use flames.Runtime.{Env, Bytes, zero_time}
use flames.Runtime.Hex.{encode_to_string}
use flames.Model.{BlobMeta}
use flames.Providererr.{not_found}
use flames.Result.{Result, ok, err}
use flames.Blob.Memblob.{
  StoredBlob, Store, has_prefix, collect_blobs, get, head, delete, exists, list, put, put_meta,
}

-- What `Get`, `Head` and `Exists` return for a key.
abbrev pub reads : String → Store → Result Bytes × Result BlobMeta × Result Bool
reads key s = ((get key s).0, (head key s).0, (exists key s).0)

-- After a `Put` whose reader can be read to its end, which succeeds, the key has the bytes that were
-- read; its metadata are those given, but for the key, the number of the bytes, the checksum of the
-- bytes in hexadecimal, and where the time of creation is the zero time, the present for it. Every
-- other key reads as before.
pub reads-put :
    (sum256 : Bytes → Bytes) (e : Env) (key : String) (bytes : Bytes) (meta : BlobMeta) (s : Store)
    (k : String)
    → let stored : BlobMeta = record {
      key = key;
      size = pos (length bytes);
      checksum = encode_to_string (sum256 bytes);
      content_type = meta.content_type;
      metadata = meta.metadata;
      created_at = if meta.created_at == zero_time then e.now else meta.created_at;
    } in
      let (reply, after) = put sum256 e key (ok bytes) meta s in
      (reply ≡ ok tt)
      × (reads k after ≡ (if key == k then (ok bytes, ok stored, ok true) else reads k s))
unfolding put put_meta get head exists
reads-put sum256 e key bytes meta s k = (
  refl,
  ground (
    arith,
    lookup-insert key k (record { data_bytes = bytes; meta = put_meta sum256 e key bytes meta })
        s.blobs,
  ),
)

-- `Delete` of a key that is there succeeds, and the key is not found afterwards; every other key
-- reads as before. `Delete` of any other key answers not-found and changes nothing.
pub reads-delete :
    (key : String) (s : Store) (k : String)
    → (((exists key s).0 ≡ ok true)
        × ((delete key s).0 ≡ ok tt)
        × (reads k (delete key s).1 ≡ (
            if key == k
            then (err (not_found "blob" k), err (not_found "blob" k), ok false)
            else reads k s)))
      ⊎ (((exists key s).0 ≡ ok false) × (delete key s ≡ (err (not_found "blob" key), s)))
unfolding delete get head exists
reads-delete key s k = elim (Option-cases (lookup key s.blobs)) [
  | inl p ↦ inr (ground (arith, p))
  | inr (b, p) ↦ inl (ground (arith, p, lookup-erase key k s.blobs))
]

-- The metadata of the keys with the prefix.
abbrev pub with_prefix : String → Dict StoredBlob → List BlobMeta
with_prefix prefix m = map (λ e. e.1.meta) (filter (λ e. has_prefix e.0 prefix) m)

collect_blobs-with_prefix :
    (prefix : String) (result : List BlobMeta) (m : Dict StoredBlob)
    → collect_blobs prefix result m ≡ result ++ with_prefix prefix m
unfolding collect_blobs
collect_blobs-with_prefix prefix result [] = sym (append-nil result)
collect_blobs-with_prefix prefix result ((k, b) ∷ m) = ground (
  arith,
  collect_blobs-with_prefix prefix result m,
  collect_blobs-with_prefix prefix (result ++ b.meta ∷ []) m,
  append_assoc result (b.meta ∷ []) (with_prefix prefix m),
)

-- `List` succeeds, changes nothing, and returns the metadata of the blobs whose keys have the prefix,
-- each once.
pub list-perm :
    (r : Range StoredBlob) (prefix : String) (s : Store)
    → (metas : List BlobMeta) × (list r prefix s ≡ (ok metas, s))
      × Perm metas (with_prefix prefix s.blobs)
unfolding list
list-perm r prefix s = (
  collect_blobs prefix [] (r.visit s.blobs),
  refl,
  rw collect_blobs-with_prefix (Perm.map (λ e. e.1.meta) (Perm.filter _ (r.visit-perm s.blobs))),
)

pub length-collect_blobs :
    (r : Range StoredBlob) (prefix : String) (m : Dict StoredBlob)
    → length (collect_blobs prefix [] (r.visit m)) ≡ length (with_prefix prefix m)
length-collect_blobs r prefix m =
    rw collect_blobs-with_prefix
      (length-perm (Perm.map (λ e. e.1.meta) (Perm.filter _ (r.visit-perm m))))

has_prefix-append : (prefix rest : String) → has_prefix (prefix <> rest) prefix ≡ true
unfolding has_prefix
has_prefix-append String.[] rest = refl
has_prefix-append (String.◌∷◌ c prefix) rest =
    rw (cons-append c prefix rest) (ground (arith, has_prefix-append prefix rest))

rest_of : (s prefix : String) → has_prefix s prefix ≡ true → (rest : String) × (s ≡ prefix <> rest)
unfolding has_prefix
rest_of s String.[] h = (s, sym (nil-append s))
rest_of String.[] (String.◌∷◌ c prefix) h = absurd (cc h)
rest_of (String.◌∷◌ d s) (String.◌∷◌ c prefix) h =
    elim (string_eq.dec (String.◌∷◌ d String.[]) (String.◌∷◌ c String.[])) [
      | yes p ↦
          let (rest, q) = rest_of s prefix (ground (arith, p, h)) in
          let heads : d ≡ c = cc p in
          (rest, rw (heads, cons-append c prefix rest) (ap (String.◌∷◌ c) q))
      | no p ↦ absurd (ground (arith, p, h))
    ]

-- A text has a prefix exactly if it is the prefix and some text behind it.
pub has_prefix_lem :
    (s prefix : String) → (has_prefix s prefix ≡ true) ↔ ((rest : String) × (s ≡ prefix <> rest))
has_prefix_lem s prefix = (rest_of s prefix, λ (rest, p). rw p (has_prefix-append prefix rest))
