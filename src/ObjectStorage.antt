-- ===== src/ObjectStorage.antt =====
-- internal/pkg/objectstorage/objectstorage.go: files in a bucket.
--
-- The bucket of gocloud.dev is not part of the repository: `Bucket` stands for it, over the state of
-- the outside. A reader is known by the bytes that it gives; of the options only the metadata are
-- ever set.
pub mod Providers
use go_project_example.Base.{List, [], ◌∷◌, Bytes, codes, ℤ, if◌then◌else◌}
use go_project_example.Text.{bytes_eq}
use go_project_example.Text.Paths.{join_path}
use go_project_example.Xerrors.{Error, sentinel}
use go_project_example.Effects.{M, return, throw, ◌>>◌}

-- `map[string]string`; a key that is missing reads as the empty string.
abbrev pub Metadata : Type 0
Metadata = List (Bytes × Bytes)

unfoldable pub look_up : Bytes → Metadata → Bytes
look_up key [] = []
look_up key ((k, v) ∷ metadata) = if bytes_eq k key then v else look_up key metadata

-- The provider and its bucket: `write` is a writer made, written and closed.
pub record Bucket (S : Type 0) : Type 0 where
  pub name : Bytes
  pub bucket_url : Bytes
  pub write : Bytes → Bytes → Metadata → M S (Unit {0})
  pub attributes : Bytes → M S Metadata
  pub read : Bytes → M S Bytes
  pub signed_url : Bytes → ℤ → M S Bytes

abbrev pub storage_local : Bytes
storage_local = codes "local"

abbrev pub err_byte_empty : Error
err_byte_empty = sentinel (codes "byte content is empty")

module _ {S : Type 0} (bucket : Bucket S) where
  -- `Upload`, with `upload`
  unfoldable pub upload : Bytes → Bytes → Metadata → M S Bytes
  upload content key metadata = do
    bucket.write key content metadata
    return (join_path (bucket.bucket_url ∷ key ∷ []))

  -- `UploadByte`
  unfoldable pub upload_byte : Bytes → Bytes → Metadata → M S Bytes
  unfolding upload
  upload_byte [] key metadata = throw err_byte_empty
  upload_byte (c ∷ content) key metadata = upload (c ∷ content) key metadata

  -- `DownloadByte`, with `download`
  abbrev pub download_byte : Bytes → M S Bytes
  download_byte = bucket.read
