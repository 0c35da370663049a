-- ===== src/Image/Uploads.antt =====
-- `Upload` of internal/usecase/image/image.go.
--
-- The fields of `Image` are those of `FilePath`, less `Signed`.
use go_project_example.Base.{
  ltb, ◌*◌, Bool, not, ◌&&◌, [], ◌∷◌, length, Bytes, codes, ℤ, pos, if◌then◌else◌,
}
use go_project_example.Text.{bytes_eq}
use go_project_example.Text.Parts.{split}
use go_project_example.Text.Paths.{join_path}
use go_project_example.Effects.{M, return, throw, ◌>>=◌, ◌>>◌}
use go_project_example.Otp.{minute}
use go_project_example.ObjectStorage.{Metadata, upload, storage_local}
use go_project_example.Image.{
  FileInfo, create_access, validate_mode, validate_group, is_one_of, valid_groups, mode_private,
  mode_public, mode_signed, group_mixed, err_too_many_tags,
}
use go_project_example.Image.Places.{FilePath, Urls, generate}
use go_project_example.Image.Usecase.{Images, generate_temporary_path, lift, fail_if}

abbrev pub write_metadata : FileInfo → Metadata
write_metadata info =
    (codes "access_owner", create_access (info.user_hash ∷ []) (codes "read" ∷ []))
    ∷ (codes "access_admin", create_access (codes "all" ∷ []) (codes "read" ∷ codes "write" ∷ []))
    ∷ (codes "tags", info.tags)
    ∷ []

abbrev pub group_of : FileInfo → Bytes
group_of info = if bytes_eq info.group [] then group_mixed else info.group

abbrev pub has_many_tags : FileInfo → Bool
has_many_tags info = ltb 5 (length (split b',' info.tags))

abbrev pub image_file : Bytes → FileInfo → Bytes
image_file group info = join_path (group ∷ info.file_name ∷ [])

module _ {S : Type 0} (images : Images S) where
  -- The private part of `Upload`: the file path.
  unfoldable pub store : Bytes → FileInfo → Bytes → Bytes → M S Bytes
  store id info group content =
      if bytes_eq info.mode mode_private
      then (upload images.private_storage content (image_file group info) (write_metadata info)
          >>= λ file_path.
              if bytes_eq info.user_hash []
              then generate_temporary_path images id file_path (pos (30 * minute))
              else return file_path)
      else return []

  -- `Upload`
  unfoldable pub upload_image : Urls → Bytes → Bytes → FileInfo → M S FilePath
  unfolding store
  upload_image urls id content info =
      if has_many_tags info
      then throw err_too_many_tags
      else (fail_if (validate_mode info.mode)
          >> (fail_if (validate_group (group_of info))
              >> (store id info (group_of info) content >>= λ file_path.
                  lift (generate urls images.obj_path info.mode file_path))))

  -- `GenerateTemporaryURL`
  unfoldable pub generate_temporary_url : Urls → Bytes → Bytes → ℤ → M S Bytes
  generate_temporary_url urls id file_path expiry = do
    path ← generate_temporary_path images id file_path expiry
    img ← lift (generate urls images.obj_path mode_private path)
    return img.download_link

  -- `GenerateSignedURL`
  unfoldable pub generate_signed_url : Urls → Bytes → Bytes → ℤ → M S Bytes
  unfolding generate_temporary_url
  generate_signed_url urls id file_path expiry =
      if bytes_eq images.private_storage.name storage_local
      then generate_temporary_url urls id file_path expiry
      else images.private_storage.signed_url file_path expiry

abbrev pub is_acceptable : FileInfo → Bool
is_acceptable info =
    not (has_many_tags info)
    && (is_one_of info.mode (mode_private ∷ mode_public ∷ mode_signed ∷ [])
        && is_one_of info.group valid_groups)
