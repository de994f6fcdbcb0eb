-- ===== src/Blob.antt =====
-- provider/blob/blob.go: the interface of a store of artifacts under flat keys.
pub mod Memblob
use flames.Prelude.{String, Bool, List}
use flames.Dict.{Range}
use flames.Runtime.{Env, Bytes}
use flames.Model.{BlobMeta}
use flames.Result.{Result, Exec}

-- A reader is the outcome of reading it to its end.
pub record BlobStore (B : Type 0) : Type 1 where
  pub State : Type 0
  pub put : Env → String → Result Bytes → BlobMeta → Exec State (Unit {0})
  pub get : String → Exec State Bytes
  pub head : String → Exec State BlobMeta
  pub delete : String → Exec State (Unit {0})
  pub exists : String → Exec State Bool
  pub list : Range B → String → Exec State (List BlobMeta)
