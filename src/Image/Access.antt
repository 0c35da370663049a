-- ===== src/Image/Access.antt =====
-- Who can download an image: `Download` of internal/usecase/image/image.go.
use go_project_example.Base.{
  Bool, true, false, ◌&&◌, ◌||◌, List, [], ◌∷◌, ◌++◌, ◌≡◌, ◌≢◌, ◌⊎◌, inl, inr, refl, ap, ◌∙◌, arith,
  Option, none, some, Bytes, codes, All-append, if◌then◌else◌, Bool-cases,
}
use go_project_example.Text.{bytes_eq, bytes_eq_ne, eq_of_bytes_eq, Lacks}
use go_project_example.Text.Parts.{split, join, split_whole, split-append}
use go_project_example.Effects.{ok, err, M, continue}
use go_project_example.ObjectStorage.{Metadata, look_up}
use go_project_example.Image.{create_access}
use go_project_example.Image.Usecase.{
  Images, grants, is_granted, check_access, get_image_file_path, download, not_permitted,
  prefix_temporary, permit,
}

-- An entry of the form "allowed:<value>", with perhaps more parts, for the user, or for all if the
-- user is an admin.
abbrev pub Allows : Bool → Bytes → List Bytes → Type 0
Allows admin user_hash parts =
    (value : Bytes) × (details : List Bytes) × (parts ≡ codes "allowed" ∷ value ∷ details)
    × ((value ≡ user_hash) ⊎ ((admin ≡ true) × (value ≡ codes "all")))

abbrev pub AnyAllows : Bool → Bytes → List Bytes → Type 0
AnyAllows admin user_hash [] = ⊥
AnyAllows admin user_hash (entry ∷ access) =
    Allows admin user_hash (split b':' entry) ⊎ AnyAllows admin user_hash access

grants-Allows :
    (admin : Bool) (user_hash : Bytes) (parts : List Bytes)
    → grants admin user_hash parts ≡ some true
    → Allows admin user_hash parts
unfolding grants
grants-Allows admin user_hash [] h = cc
grants-Allows admin user_hash (key ∷ []) h = cc
grants-Allows admin user_hash (key ∷ value ∷ details) h =
    elim (Bool-cases (bytes_eq key (codes "allowed"))) [
      | inl k ↦ elim (Bool-cases (bytes_eq value user_hash)) [
        | inl u ↦ (
          value,
          details,
          ap (λ x. x ∷ value ∷ details) (eq_of_bytes_eq key (codes "allowed") k),
          inl (eq_of_bytes_eq value user_hash u),
        )
        | inr u ↦ elim (Bool-cases (bytes_eq value (codes "all"))) [
          | inl a ↦ (
            value,
            details,
            ap (λ x. x ∷ value ∷ details) (eq_of_bytes_eq key (codes "allowed") k),
            inr (ground arith, eq_of_bytes_eq value (codes "all") a),
          )
          | inr a ↦ absurd (ground arith)
        ]
      ]
      | inr k ↦ absurd (ground arith)
    ]

is_granted-AnyAllows :
    (admin : Bool) (user_hash : Bytes) (access : List Bytes)
    → is_granted admin user_hash access ≡ some true
    → AnyAllows admin user_hash access
unfolding is_granted
is_granted-AnyAllows admin user_hash [] h = cc
is_granted-AnyAllows admin user_hash (entry ∷ access) h = ground (
  arith,
  grants-Allows admin user_hash (split b':' entry),
  is_granted-AnyAllows admin user_hash access,
)

abbrev pub access_key : Bool → Bytes
access_key admin = if admin then codes "access_admin" else codes "access_owner"

split_access :
    (owner permission : Bytes)
    → Lacks b';' owner
    → Lacks b';' permission
    → split b';' (create_access (owner ∷ []) (permission ∷ []))
      ≡ (codes "allowed:" ++ owner) ∷ (codes "priviledge:" ++ permission) ∷ []
unfolding create_access join
split_access owner permission lo lp =
    let first : split b';' (create_access (owner ∷ []) (permission ∷ []))
        ≡ (codes "allowed:" ++ owner) ∷ split b';' (codes "priviledge:" ++ permission) =
      split-append b';' (codes "allowed:" ++ owner) (codes "priviledge:" ++ permission)
        (All-append (λ c. c ≢ b';') (codes "allowed:") owner (ground arith) lo) in
    first
    ∙ ap (λ parts. (codes "allowed:" ++ owner) ∷ parts)
        (split_whole b';' (codes "priviledge:" ++ permission)
          (All-append (λ c. c ≢ b';') (codes "priviledge:") permission (ground arith) lp))

split_detail :
    (name value : Bytes)
    → Lacks b':' name
    → Lacks b':' value
    → split b':' (name ++ b':' ∷ value) ≡ name ∷ value ∷ []
split_detail name value ln lv =
    split-append b':' name value ln ∙ ap (λ parts. name ∷ parts) (split_whole b':' value lv)

is_granted_allowed :
    (admin : Bool) (user_hash value : Bytes) (access : List Bytes)
    → Lacks b':' value
    → is_granted admin user_hash ((codes "allowed:" ++ value) ∷ access) ≡ (
        if admin && bytes_eq value (codes "all") || bytes_eq value user_hash
        then some true
        else is_granted admin user_hash access)
unfolding is_granted grants bytes_eq
is_granted_allowed admin user_hash value access l =
    let parts : split b':' (codes "allowed:" ++ value) ≡ codes "allowed" ∷ value ∷ [] =
      split_detail (codes "allowed") value (ground arith) l in
    rw (parts, is_granted) refl

is_granted_priviledge :
    (admin : Bool) (user_hash value : Bytes) (access : List Bytes)
    → Lacks b':' value
    → is_granted admin user_hash ((codes "priviledge:" ++ value) ∷ access)
      ≡ is_granted admin user_hash access
unfolding is_granted grants bytes_eq
is_granted_priviledge admin user_hash value access l =
    let parts : split b':' (codes "priviledge:" ++ value) ≡ codes "priviledge" ∷ value ∷ [] =
      split_detail (codes "priviledge") value (ground arith) l in
    rw (parts, is_granted) refl

is_granted-create_access :
    (admin : Bool) (owner permission user_hash : Bytes)
    → Lacks b';' owner
    → Lacks b':' owner
    → Lacks b';' permission
    → Lacks b':' permission
    → is_granted admin user_hash (split b';' (create_access (owner ∷ []) (permission ∷ [])))
      ≡ some (admin && bytes_eq owner (codes "all") || bytes_eq owner user_hash)
unfolding is_granted
is_granted-create_access admin owner permission user_hash lo co lp cp =
    rw
      (
        split_access owner permission lo lp,
        is_granted_allowed admin user_hash owner ((codes "priviledge:" ++ permission) ∷ []) co,
        is_granted_priviledge admin user_hash permission [] cp,
      )
      (elim (Bool-cases (admin && bytes_eq owner (codes "all") || bytes_eq owner user_hash)) [
        | inl e ↦ rw e refl
        | inr e ↦ rw e refl
      ])

granted_of_ok :
    {S : Type 0} (read : M S Bytes) (s s₁ : S) (content : Bytes) (r : Option Bool)
    → continue (λ _. read) (permit r s) ≡ (s₁, ok content)
    → r ≡ some true
granted_of_ok read s s₁ content none h = cc
granted_of_ok read s s₁ content (some true) h = refl
granted_of_ok read s s₁ content (some false) h = cc

module _ {S : Type 0} (images : Images S) where
  -- What `Download` gives for a path that is not a temporary one comes from an image whose access
  -- attribute, the one of the admin for an admin, has an entry that names the user, or for an admin
  -- names all.
  pub download-AnyAllows :
      (image_path user_hash prefix file_path content : Bytes) (admin : Bool) (metadata : Metadata)
      (s s₁ s₂ s₃ : S)
      → get_image_file_path images image_path s ≡ (s₁, ok (prefix, file_path))
      → prefix ≢ prefix_temporary
      → images.private_storage.attributes file_path s₁ ≡ (s₂, ok metadata)
      → download images image_path user_hash admin s ≡ (s₃, ok content)
      → AnyAllows admin user_hash (split b';' (look_up (access_key admin) metadata))
  unfolding download check_access
  download-AnyAllows image_path user_hash prefix file_path content admin metadata s s₁ s₂ s₃ p n a
        d =
      is_granted-AnyAllows admin user_hash (split b';' (look_up (access_key admin) metadata)) (
        granted_of_ok (images.private_storage.read file_path) s₂ s₃ content _
          (rw (p, bytes_eq_ne prefix prefix_temporary n, a) at d))

  -- An image with the access attribute that `Upload` writes for the owner, whose hash has neither a
  -- colon nor a semicolon: `Download` by a user who is not an admin gives the file to the owner, and
  -- to everybody else the error that the access is not permitted.
  pub download_owner :
      (image_path user_hash owner prefix file_path : Bytes) (metadata : Metadata) (s s₁ s₂ : S)
      → get_image_file_path images image_path s ≡ (s₁, ok (prefix, file_path))
      → prefix ≢ prefix_temporary
      → images.private_storage.attributes file_path s₁ ≡ (s₂, ok metadata)
      → look_up (codes "access_owner") metadata ≡ create_access (owner ∷ []) (codes "read" ∷ [])
      → Lacks b';' owner
      → Lacks b':' owner
      → download images image_path user_hash false s ≡ (
          if bytes_eq owner user_hash
          then images.private_storage.read file_path s₂
          else (s₂, err not_permitted))
  unfolding download check_access
  download_owner image_path user_hash owner prefix file_path metadata s s₁ s₂ p n a l lo co =
      rw
        (
          p,
          bytes_eq_ne prefix prefix_temporary n,
          a,
          l,
          is_granted-create_access false owner (codes "read") user_hash lo co (ground arith)
              (ground arith),
        )
        (elim (Bool-cases (bytes_eq owner user_hash)) [ inl e ↦ rw e refl | inr e ↦ rw e refl ])
