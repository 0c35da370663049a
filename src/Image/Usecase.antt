-- ===== src/Image/Usecase.antt =====
-- internal/usecase/image/image.go: uploads, downloads and temporary paths of images.
--
-- The id that `createID` draws, a digest of the path, a UUID and the time, is an argument. The branch
-- of `Upload` that renames the file is never taken.
use go_project_example.Base.{
  Bool, true, false, ◌&&◌, ◌||◌, List, [], ◌∷◌, ◌++◌, Option, none, some, Bytes, codes, ℤ,
  if◌then◌else◌,
}
use go_project_example.Text.{bytes_eq}
use go_project_example.Text.Parts.{split}
use go_project_example.Text.Paths.{join_path, split_after_1, trim_left}
use go_project_example.Xerrors.{Error, message, with_op}
use go_project_example.Effects.{Outcome, M, return, throw, ◌>>=◌, ◌>>◌}
use go_project_example.ObjectStorage.{Bucket, look_up, download_byte}
use go_project_example.Image.{mode_private, err_invalid_access_attribute}
use go_project_example.Image.Places.{Config, get_download_path}

-- `imageRepository`
pub record TempPaths (S : Type 0) : Type 0 where
  pub save_temp_path : Bytes → Bytes → ℤ → M S (Unit {0})
  pub get_temp_path : Bytes → M S Bytes

-- The fields that `New` sets, and `objPath`, which it leaves nil.
pub record Images (S : Type 0) : Type 0 where
  pub private_storage : Bucket S
  pub image_repo : TempPaths S
  pub obj_path : Option Config

-- `New`: the third argument is not used.
unfoldable pub new : {S : Type 0} → Bucket S → TempPaths S → Config → Images S
new private_storage image_repo obj_storage_path = record {
  private_storage = private_storage;
  image_repo = image_repo;
  obj_path = none;
}

abbrev pub invalid_access : Error
invalid_access = with_op err_invalid_access_attribute [] none

abbrev pub not_permitted : Error
not_permitted = message (codes "image: user is not permitted to view this image/file")

abbrev pub prefix_temporary : Bytes
prefix_temporary = codes "temporary"

abbrev pub prefix_file : Bytes
prefix_file = codes "file"

-- Whether one access entry grants the access; an entry of one part is an error.
unfoldable pub grants : Bool → Bytes → List Bytes → Option Bool
grants admin user_hash [] = none
grants admin user_hash (key ∷ []) = none
grants admin user_hash (key ∷ value ∷ details) = some (
    bytes_eq key (codes "allowed")
    && (admin && bytes_eq value (codes "all") || bytes_eq value user_hash))

-- The loop over the access entries, which stops at the first that grants.
unfoldable pub is_granted : Bool → Bytes → List Bytes → Option Bool
unfolding grants
is_granted admin user_hash [] = some false
is_granted admin user_hash (entry ∷ access) =
    let rest = is_granted admin user_hash access in
    elim (grants admin user_hash (split b':' entry)) [
      | none ↦ none
      | some granted ↦ if granted then some true else rest
    ]

abbrev pub permit : {S : Type 0} → Option Bool → M S (Unit {0})
permit none = throw invalid_access
permit (some granted) = if granted then return tt else throw not_permitted

abbrev pub lift : {S : Type 0} {A : Type 0} → Outcome A → M S A
lift r s = (s, r)

abbrev pub fail_if : {S : Type 0} → Option Error → M S (Unit {0})
fail_if none = return tt
fail_if (some e) = throw e

module _ {S : Type 0} (images : Images S) where
  -- `GetImageFilePath`, of the parts of the path: the prefix and the file path.
  unfoldable pub path_of_parts : List Bytes → M S (Bytes × Bytes)
  path_of_parts [] = throw (message (codes "imagepath: image path format not valid"))
  path_of_parts (file_path ∷ []) = return ([], file_path)
  path_of_parts (prefix ∷ rest ∷ parts) =
      if bytes_eq prefix prefix_temporary
      then (images.image_repo.get_temp_path rest >>= λ file_path.
          return (prefix_temporary, file_path))
      else if bytes_eq prefix prefix_file
      then return (prefix_file, rest)
      else throw (message (codes "imagepath: prefix is not valid, got " ++ prefix))

  unfoldable pub get_image_file_path : Bytes → M S (Bytes × Bytes)
  unfolding path_of_parts
  get_image_file_path image_path = path_of_parts (split b':' image_path)

  -- The part of `Download` that reads the access attributes.
  unfoldable pub check_access : Bytes → Bytes → Bool → M S (Unit {0})
  unfolding is_granted
  check_access file_path user_hash admin = do
    metadata ← images.private_storage.attributes file_path
    let key = if admin then codes "access_admin" else codes "access_owner"
    permit (is_granted admin user_hash (split b';' (look_up key metadata)))

  -- `Download`
  unfoldable pub download : Bytes → Bytes → Bool → M S Bytes
  unfolding get_image_file_path check_access
  download image_path user_hash admin = do
    (prefix, file_path) ← get_image_file_path image_path
    if bytes_eq prefix prefix_temporary then return tt else check_access file_path user_hash admin
    download_byte images.private_storage file_path

  -- `GenerateTemporaryPath`
  unfoldable pub generate_temporary_path : Bytes → Bytes → ℤ → M S Bytes
  generate_temporary_path id file_path expiry_time = do
    images.image_repo.save_temp_path id file_path expiry_time
    download_path ← lift (get_download_path images.obj_path mode_private)
    return (prefix_temporary ++ b':' ∷ join_path (download_path ∷ id ∷ []))

  -- `FilePathFromTemporaryPath`
  unfoldable pub file_path_from_temporary_path : Bytes → M S Bytes
  file_path_from_temporary_path temp_path = do
    download_path ← lift (get_download_path images.obj_path mode_private)
    elim (split_after_1 download_path temp_path) [
      | none ↦ throw (message (codes "temporary path is not valid"))
      | some file_path ↦ images.image_repo.get_temp_path (trim_left file_path)
    ]
