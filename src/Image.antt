-- ===== src/Image.antt =====
-- internal/entity/image: modes, groups and access attributes of images.
--
-- An error of `fmt.Errorf` is known by its text.
pub mod Places
pub mod Usecase
pub mod Repository
pub mod Access
pub mod Uploads
pub mod Storing
pub mod Accepting
pub mod Temporary
mod Tests
use go_project_example.Base.{
  ℕ, Bool, true, false, ◌||◌, List, [], ◌∷◌, ◌++◌, Option, none, some, Bytes, codes, ℤ,
  if◌then◌else◌,
}
use go_project_example.Text.{bytes_eq}
use go_project_example.Text.Parts.{join}
use go_project_example.Xerrors.{Error, message, sentinel}

abbrev pub mode_public : Bytes
mode_public = codes "public"

abbrev pub mode_private : Bytes
mode_private = codes "private"

abbrev pub mode_signed : Bytes
mode_signed = codes "signed"

abbrev pub group_mixed : Bytes
group_mixed = codes "mixed"

abbrev pub valid_groups : List Bytes
valid_groups =
    codes "amenities"
    ∷ codes "property/kos"
    ∷ codes "property/room"
    ∷ codes "property/hotel"
    ∷ codes "property/hostel"
    ∷ codes "property/house"
    ∷ codes "payment/proof"
    ∷ codes "user/ktp"
    ∷ codes "user/avatar"
    ∷ []

abbrev pub err_too_many_tags : Error
err_too_many_tags = sentinel (codes "image: cannot have more than 5 tags")

abbrev pub err_temp_path_not_found : Error
err_temp_path_not_found = sentinel (codes "image: temporary path not found")

abbrev pub err_invalid_access_attribute : Error
err_invalid_access_attribute = sentinel (codes "image: invalid access attribute")

unfoldable pub is_one_of : Bytes → List Bytes → Bool
is_one_of s [] = false
is_one_of s (t ∷ ts) = if bytes_eq s t then true else is_one_of s ts

abbrev pub invalid_mode : Bytes → Error
invalid_mode mode = message (codes "image: invalid mode, got " ++ mode)

abbrev pub invalid_group : Bytes → Error
invalid_group group = message (codes "image: invalid group, got " ++ group)

-- `Mode.Validate`
unfoldable pub validate_mode : Bytes → Option Error
unfolding is_one_of
validate_mode mode =
    if is_one_of mode (mode_private ∷ mode_public ∷ mode_signed ∷ [])
    then none
    else some (invalid_mode mode)

-- `Group.Validate`
unfoldable pub validate_group : Bytes → Option Error
unfolding is_one_of
validate_group group = if is_one_of group valid_groups then none else some (invalid_group group)

-- `FileInfo`, less the size and the header, which are never read.
pub record FileInfo : Type 0 where
  pub file_name : Bytes
  pub user_hash : Bytes
  pub mode : Bytes
  pub group : Bytes
  pub tags : Bytes

-- `CreateAccess`: the format "allowed:%s;priviledge:%s"
unfoldable pub create_access : List Bytes → List Bytes → Bytes
unfolding join
create_access allowed permission =
    codes "allowed:" ++ (join b',' allowed ++ (codes ";priviledge:" ++ join b',' permission))
