-- ===== src/Image/Places.antt =====
-- internal/objstoragepath/objstoragepath.go: where images are downloaded from.
--
-- `Urls` stands for net/url: `with_path` is a path joined to the path of a URL, `with_query` one more
-- query value.
use go_project_example.Base.{
  Bool, true, false, [], ◌∷◌, ◌++◌, Option, none, some, Bytes, codes, Result, if◌then◌else◌,
}
use go_project_example.Text.{bytes_eq}
use go_project_example.Text.Paths.{join_path}
use go_project_example.Xerrors.{Error, message}
use go_project_example.Effects.{Outcome, ok, err, panic}
use go_project_example.Image.{mode_public, mode_private, mode_signed, validate_mode}

pub record DownloadConfig : Type 0 where
  pub download_proto : Bytes
  pub download_host : Bytes
  pub download_port : Bytes
  pub download_path : Bytes

pub record Config : Type 0 where
  pub public : DownloadConfig
  pub private : DownloadConfig

pub record FilePath : Type 0 where
  pub proto : Bytes
  pub host : Bytes
  pub file_path : Bytes
  pub download_path : Bytes
  pub download_link : Bytes
  pub signed : Bool

pub record Urls : Type 1 where
  pub Url : Type 0
  pub parse : Bytes → Result Error Url
  pub path : Url → Bytes
  pub with_path : Bytes → Url → Url
  pub with_query : Bytes → Bytes → Url → Url
  pub text : Url → Bytes

-- `GetDownloadPath`; `none` is a nil pointer, which is read for a mode that is known.
unfoldable pub get_download_path : Option Config → Bytes → Outcome Bytes
get_download_path none mode =
    if bytes_eq mode mode_public
    then panic
    else if bytes_eq mode mode_private
    then panic
    else err (message (codes "objectstoragepath: invalid mode, got " ++ mode))
get_download_path (some c) mode =
    if bytes_eq mode mode_public
    then ok c.public.download_path
    else if bytes_eq mode mode_private
    then ok c.private.download_path
    else err (message (codes "objectstoragepath: invalid mode, got " ++ mode))

abbrev pub signed_path : Bytes → FilePath
signed_path file_path = record {
  proto = [];
  host = [];
  file_path = [];
  download_path = [];
  download_link = file_path;
  signed = true;
}

module _ (urls : Urls) where
  abbrev served : DownloadConfig → Bytes → (urls.Url → urls.Url) → Outcome FilePath
  served d file_path place =
      elim (urls.parse (d.download_proto ++ d.download_host ++ d.download_port)) [
        | Result.err e ↦ err e
        | Result.ok u ↦ ok (record {
          proto = d.download_proto;
          host = d.download_host;
          file_path = file_path;
          download_path = join_path (d.download_path ∷ file_path ∷ []);
          download_link = urls.text (place u);
          signed = false;
        })
      ]

  abbrev public_place : DownloadConfig → Bytes → urls.Url → urls.Url
  public_place d file_path u =
      urls.with_path (join_path (urls.path u ∷ d.download_path ∷ file_path ∷ [])) u

  abbrev private_place : DownloadConfig → Bytes → urls.Url → urls.Url
  private_place d file_path u =
      urls.with_query (codes "image_path") file_path
        (urls.with_path (join_path (urls.path u ∷ d.download_path ∷ [])) u)

  -- The switch of `Generate`, for a mode that is valid.
  unfoldable pub generate_valid : Option Config → Bytes → Bytes → Outcome FilePath
  generate_valid none mode file_path =
      if bytes_eq mode mode_signed then ok (signed_path file_path) else panic
  generate_valid (some c) mode file_path =
      if bytes_eq mode mode_public
      then served c.public file_path (public_place c.public file_path)
      else if bytes_eq mode mode_private
      then served c.private file_path (private_place c.private file_path)
      else ok (signed_path file_path)

  -- `Generate`
  unfoldable pub generate : Option Config → Bytes → Bytes → Outcome FilePath
  unfolding generate_valid
  generate config mode file_path = elim (validate_mode mode) [
    | some e ↦ err e
    | none ↦ generate_valid config mode file_path
  ]
