-- ===== src/Tests/Providers.antt =====
-- Runs of the blob store and the ingress.
use flames.Prelude.{integer_eq, String, pos, ◌≡◌, true, [], ◌∷◌, ◌==◌, string_eq, if◌then◌else◌}
use flames.Runtime.{Bytes}
use flames.Runtime.Hex.{encode_to_string}
use flames.Model.{BlobMeta, Endpoint}
use flames.Providererr.{not_found}
use flames.Result.{ok, err}
use flames.Blob.Memblob
use flames.Blob.Memblob.{StoredBlob, put, put_meta, exists, list, has_prefix}
use flames.Blob.Memblob.Stored.{reads, reads-put}
use flames.Ingress.Noop
use flames.Ingress.Noop.{register_endpoint, unregister_endpoint, get_endpoint}
use flames.Ingress.Noop.Registered.{get_endpoint-register_endpoint}
use flames.Tests.Data.{at}

abbrev a_blob : String
a_blob = "images/a"

abbrev a_vm : String
a_vm = "vm"

-- A checksum that can be told from the data.
abbrev first_byte : Bytes → Bytes
first_byte [] = []
first_byte (b ∷ _) = b ∷ []

abbrev no_meta : BlobMeta
no_meta = record {
  key = "";
  size = pos 0;
  checksum = "";
  content_type = "";
  metadata = [];
  created_at = pos 0;
}

reads-put_example :
    let stored : BlobMeta = record {
      key = "images/a";
      size = pos 2;
      checksum = encode_to_string (1 ∷ []);
      content_type = "";
      metadata = [];
      created_at = pos 10;
    } in
    let (reply, after) =
      put first_byte (at 10 1) "images/a" (ok (1 ∷ 2 ∷ [])) no_meta Memblob.new in
    (reply ≡ ok tt)
    × (reads "images/a" after ≡ (
        if a_blob == "images/a"
        then (ok (1 ∷ 2 ∷ []), ok stored, ok true)
        else reads "images/a" Memblob.new))
unfolding integer_eq
reads-put_example =
    reads-put first_byte (at 10 1) "images/a" (1 ∷ 2 ∷ []) no_meta Memblob.new "images/a"

abbrev site : Endpoint
site = record {
  vm_id = "vm";
  route = record { host = "example.org"; path = "/" };
  target = record { address = "10.0.0.1"; port = pos 80 };
}

get_endpoint-register_endpoint_example :
    ((register_endpoint "vm" site.route site.target Noop.new).0 ≡ ok site)
    × ((get_endpoint "vm" (register_endpoint "vm" site.route site.target Noop.new).1).0
        ≡ (if a_vm == "vm" then ok site else (get_endpoint "vm" Noop.new).0))
    × ((get_endpoint "vm" (unregister_endpoint "vm" Noop.new).1).0 ≡ (
        if a_vm == "vm" then err (not_found "endpoint" "vm") else (get_endpoint "vm" Noop.new).0))
get_endpoint-register_endpoint_example =
    get_endpoint-register_endpoint "vm" site.route site.target Noop.new "vm"
