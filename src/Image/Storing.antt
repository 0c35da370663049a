-- ===== src/Image/Storing.antt =====
-- What `Upload` of internal/usecase/image/image.go stores, and who can download it.
use go_project_example.Base.{true, false, [], ◌∷◌, ◌≡◌, ◌≢◌, refl, Bytes}
use go_project_example.Text.{bytes_eq, bytes_eq_ne}
use go_project_example.Text.Paths.{join_path}
use go_project_example.Effects.{ok}
use go_project_example.ObjectStorage.{upload}
use go_project_example.Image.{FileInfo, mode_private}
use go_project_example.Image.Usecase.{Images}
use go_project_example.Image.Uploads.{write_metadata, image_file, store}

module _ {S : Type 0} (images : Images S) where
  pub store_private :
      (id content group : Bytes) (info : FileInfo) (s s₁ : S)
      → bytes_eq info.mode mode_private ≡ true
      → info.user_hash ≢ []
      → images.private_storage.write (image_file group info) content (write_metadata info) s
        ≡ (s₁, ok tt)
      → store images id info group content s
        ≡ (s₁, ok (join_path (images.private_storage.bucket_url ∷ image_file group info ∷ [])))
  unfolding store upload
  store_private id content group info s s₁ p n w = rw (p, w, bytes_eq_ne info.user_hash [] n) refl

  pub store_other :
      (id content group : Bytes) (info : FileInfo) (s : S)
      → bytes_eq info.mode mode_private ≡ false
      → store images id info group content s ≡ (s, ok [])
  unfolding store
  store_other id content group info s p = rw p refl
