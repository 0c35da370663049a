-- ===== src/Image/Temporary.antt =====
-- Temporary paths of images: `GenerateTemporaryPath` and what reads its paths.
use go_project_example.Base.{
  Bool, false, [], ◌∷◌, ◌++◌, ◌≡◌, ◌≢◌, refl, ap, ◌∙◌, arith, ◌==◌, ==_self, none, some, Bytes,
  codes, ℤ, All-append,
}
use go_project_example.Text.{bytes_eq, Lacks}
use go_project_example.Text.Parts.{split, split-append, split_whole}
use go_project_example.Text.Paths.{
  slash, join_path, split_after_1, after_first, first_after, trim_left, strip_prefix,
}
use go_project_example.Xerrors.{Error}
use go_project_example.Effects.{ok, err, continue}
use go_project_example.Image.{mode_private}
use go_project_example.Image.Places.{Config, get_download_path}
use go_project_example.Image.Usecase.{
  Images, generate_temporary_path, file_path_from_temporary_path, get_image_file_path,
  path_of_parts, download, prefix_temporary,
}

strip_prefix-append : (p s : Bytes) → strip_prefix p (p ++ s) ≡ some s
strip_prefix-append [] s = refl
strip_prefix-append (c ∷ p) s = rw (==_self c) (strip_prefix-append p s)

-- A separator that starts with a slash is found after a text without one.
after_first-append :
    (p before s : Bytes)
    → Lacks slash before
    → after_first (slash ∷ p) (before ++ ((slash ∷ p) ++ s)) ≡ some s
unfolding after_first
after_first-append p [] s h = rw (strip_prefix-append p s) refl
after_first-append p (c ∷ before) s h =
    let other : (slash == c) ≡ false = ground (arith, h) in
    ground (arith, other, after_first-append p before s h.1)

-- An id has no slash at its front.
trim_left-id : (id : Bytes) → Lacks slash id → trim_left (slash ∷ id) ≡ id
unfolding trim_left
trim_left-id [] h = refl
trim_left-id (c ∷ id) h = let other : (c == slash) ≡ false = ground (arith, h) in rw other refl

split_after_1-once :
    (path before rest : Bytes)
    → Lacks slash before
    → after_first (slash ∷ path) rest ≡ none
    → split_after_1 (slash ∷ path) (before ++ ((slash ∷ path) ++ rest)) ≡ some rest
unfolding split_after_1 first_after
split_after_1-once path before rest h once =
    rw (after_first-append path before rest h, split_after_1, once, first_after) refl

module _ {S : Type 0} (images : Images S) where
  private_path :
      (config : Config) (path : Bytes)
      → images.obj_path ≡ some config
      → config.private.download_path ≡ path
      → get_download_path images.obj_path mode_private ≡ ok path
  unfolding get_download_path bytes_eq
  private_path config path o d = rw o (ap ok d)

  file_path_of_split :
      (download_path temporary rest id file_path : Bytes) (s : S)
      → get_download_path images.obj_path mode_private ≡ ok download_path
      → split_after_1 download_path temporary ≡ some rest
      → trim_left rest ≡ id
      → images.image_repo.get_temp_path id s ≡ (s, ok file_path)
      → file_path_from_temporary_path images temporary s ≡ (s, ok file_path)
  unfolding file_path_from_temporary_path
  file_path_of_split download_path temporary rest id file_path s o p t g =
      rw (o, continue, p, t, g) refl

  download_missing :
      (id user_hash : Bytes) (admin : Bool) (s : S) (e : Error)
      → Lacks b':' id
      → images.image_repo.get_temp_path id s ≡ (s, err e)
      → download images (codes "temporary:" ++ id) user_hash admin s ≡ (s, err e)
  unfolding download get_image_file_path path_of_parts bytes_eq
  download_missing id user_hash admin s e l misses =
      let parts : split b':' (codes "temporary:" ++ id) ≡ prefix_temporary ∷ id ∷ [] =
        split-append b':' prefix_temporary id (ground arith)
        ∙ ap (λ ps. prefix_temporary ∷ ps) (split_whole b':' id l) in
      rw (parts, misses) refl

  -- For a download path that `Join` leaves as it is, that starts with a slash and does not occur in
  -- the id, and for a repository that keeps what is saved: the temporary path that is generated leads
  -- back to the file path by `FilePathFromTemporaryPath`, but `Download` looks it up under the
  -- download path and the id, so that it fails when the repository has nothing there.
  pub temporary_path_lem :
      (config : Config) (id file_path user_hash path : Bytes) (expiry_time : ℤ) (admin : Bool)
      (s s₁ : S) (e : Error)
      → images.obj_path ≡ some config
      → config.private.download_path ≡ slash ∷ path
      → join_path ((slash ∷ path) ∷ id ∷ []) ≡ (slash ∷ path) ++ (slash ∷ id)
      → Lacks slash id
      → Lacks b':' id
      → Lacks b':' path
      → after_first (slash ∷ path) (slash ∷ id) ≡ none
      → images.image_repo.save_temp_path id file_path expiry_time s ≡ (s₁, ok tt)
      → images.image_repo.get_temp_path id s₁ ≡ (s₁, ok file_path)
      → images.image_repo.get_temp_path ((slash ∷ path) ++ (slash ∷ id)) s₁ ≡ (s₁, err e)
      → let temporary = codes "temporary:" ++ ((slash ∷ path) ++ (slash ∷ id)) in
        (generate_temporary_path images id file_path expiry_time s ≡ (s₁, ok temporary))
        × (file_path_from_temporary_path images temporary s₁ ≡ (s₁, ok file_path))
        × (download images temporary user_hash admin s₁ ≡ (s₁, err e))
  unfolding generate_temporary_path
  temporary_path_lem config id file_path user_hash path expiry_time admin s s₁ e o d j ls lc lp once
        saves gets misses =
      let known = private_path config (slash ∷ path) o d in
      (
        rw (saves, known, j) refl,
        file_path_of_split (slash ∷ path) _ (slash ∷ id) id file_path s₁ known
            (split_after_1-once path (codes "temporary:") (slash ∷ id) (ground arith) once)
            (trim_left-id id ls) gets,
        download_missing ((slash ∷ path) ++ (slash ∷ id)) user_hash admin s₁ e
            (All-append (λ c. c ≢ b':') (slash ∷ path) (slash ∷ id) (ground (arith, lp))
              (ground (arith, lc)))
            misses,
      )
