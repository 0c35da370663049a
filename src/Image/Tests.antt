-- ===== src/Image/Tests.antt =====
-- One image in a bucket, and one temporary path.
use go_project_example.Base.{
  false, [], ◌∷◌, ◌++◌, ◌≡◌, refl, arith, ◌==◌, Option, none, some, Bytes, codes, pos, Result,
  if◌then◌else◌,
}
use go_project_example.Text.{bytes_eq}
use go_project_example.Text.Parts.{split, join}
use go_project_example.Text.Paths.{join_path, clean, after_first}
use go_project_example.Effects.{ok, err, M, return}
use go_project_example.Otp.{minute}
use go_project_example.ObjectStorage.{Bucket, Metadata, look_up}
use go_project_example.Image.{FileInfo, mode_private, create_access, err_temp_path_not_found}
use go_project_example.Image.Places.{Config, DownloadConfig, Urls}
use go_project_example.Image.Usecase.{
  Images, TempPaths, download, get_image_file_path, generate_temporary_path,
  file_path_from_temporary_path,
}
use go_project_example.Image.Access.{AnyAllows, download-AnyAllows, download_owner}
use go_project_example.Image.Uploads.{write_metadata}
use go_project_example.Image.Temporary.{temporary_path_lem}

-- One file, and one path that is saved under the id "1a".
pub record World : Type 0 where
  pub content : Bytes
  pub metadata : Metadata
  pub saved : Option Bytes

abbrev bucket : Bucket World
bucket = record {
  name = codes "local";
  bucket_url = codes "bucket";
  write = λ key content metadata w.
      (record { content = content; metadata = metadata; saved = w.saved }, ok tt);
  attributes = λ key w. (w, ok w.metadata);
  read = λ key w. (w, ok w.content);
  signed_url = λ key expiry. return (codes "https://bucket/signed");
}

abbrev find : Bytes → M World Bytes
find [] w = (w, err err_temp_path_not_found)
find (c ∷ id) w = elim w.saved [
  | none ↦ (w, err err_temp_path_not_found)
  | some path ↦ if c == b'1' then (w, ok path) else (w, err err_temp_path_not_found)
]

abbrev repo : TempPaths World
repo = record {
  save_temp_path = λ id path expiry w.
      (record { content = w.content; metadata = w.metadata; saved = some path }, ok tt);
  get_temp_path = find;
}

abbrev served : DownloadConfig
served = record {
  download_proto = codes "https://";
  download_host = codes "example.com";
  download_port = [];
  download_path = codes "/image";
}

abbrev config : Config
config = record { public = served; private = served }

abbrev images : Images World
images = record { private_storage = bucket; image_repo = repo; obj_path = some config }

-- A URL is its text.
abbrev urls : Urls
urls = record {
  Url = Bytes;
  parse = λ s. Result.ok s;
  path = λ u. [];
  with_path = λ p u. u ++ p;
  with_query = λ k v u. u ++ k ++ v;
  text = λ u. u;
}

abbrev avatar : FileInfo
avatar = record {
  file_name = codes "me.png";
  user_hash = codes "h7";
  mode = mode_private;
  group = codes "user/avatar";
  tags = codes "a,b";
}

abbrev empty_world : World
empty_world = record { content = []; metadata = []; saved = none }

abbrev stored_world : World
stored_world = record { content = codes "png"; metadata = write_metadata avatar; saved = none }

abbrev no_group : FileInfo
no_group = record avatar { group = [] }

owner_downloads :
    download images (codes "me.png") (codes "h7") false stored_world
    ≡ (stored_world, ok (codes "png"))
unfolding get_image_file_path split look_up bytes_eq
owner_downloads =
    download_owner images (codes "me.png") (codes "h7") (codes "h7") [] (codes "me.png")
      (write_metadata avatar) stored_world stored_world stored_world refl (ground arith) refl refl
      (ground arith) (ground arith)

download-AnyAllows_example :
    AnyAllows false (codes "h7") (split b';' (create_access (codes "h7" ∷ []) (codes "read" ∷ [])))
unfolding get_image_file_path split look_up bytes_eq
download-AnyAllows_example =
    download-AnyAllows images (codes "me.png") (codes "h7") [] (codes "me.png") (codes "png") false
      (write_metadata avatar) stored_world stored_world stored_world stored_world refl
      (ground arith) refl owner_downloads

abbrev saved_world : World
saved_world = record { content = []; metadata = []; saved = some (codes "user/ktp/k.png") }

temporary_path_lem_example :
    let temporary = codes "temporary:/image/1a" in
    (generate_temporary_path images (codes "1a") (codes "user/ktp/k.png") (pos minute) empty_world
      ≡ (saved_world, ok temporary))
    × (file_path_from_temporary_path images temporary saved_world
        ≡ (saved_world, ok (codes "user/ktp/k.png")))
    × (download images temporary (codes "h7") false saved_world
        ≡ (saved_world, err err_temp_path_not_found))
unfolding join_path clean split join bytes_eq after_first
temporary_path_lem_example =
    temporary_path_lem images config (codes "1a") (codes "user/ktp/k.png") (codes "h7")
      (codes "image") (pos minute) false empty_world saved_world err_temp_path_not_found refl refl
      refl (ground arith) (ground arith) (ground arith) refl refl refl refl
