-- ===== src/Notification/PushTemplates.antt =====
-- internal/usecase/notification/pushtemplate.go: the templates of push messages.
use go_project_example.Base.{
  Bool, true, false, ◌||◌, List, [], ◌∷◌, ◌++◌, ◌≡◌, refl, ◌∙◌, Option, none, some, Bytes, codes,
  if◌then◌else◌, inl, inr, Result-cases, Result, ok, err, ◌>>=◌,
}
use go_project_example.Text.{bytes_eq}
use go_project_example.Text.Maps.{lookup, insert, lookup-insert}
use go_project_example.Xerrors.{Error, message}

-- `PushMessageTemplateFile`
pub record PushMessageTemplateFile : Type 0 where
  pub title : Bytes
  pub message : Bytes
  pub message_detail : Bytes
  pub image : Bytes
  pub web_view_link : Bytes

-- The package html/template: a template by its name and its text.
pub record Parsing : Type 1 where
  pub Template : Type 0
  pub parse : Bytes → Bytes → Result Error Template

module _ (p : Parsing) where
  open p use {Template}

  pub record PushMessageGoTemplate : Type 0 where
    pub title : Template
    pub message : Template
    pub message_detail : Template
    pub image : Bytes
    pub web_view_link : Bytes

  -- `PushMessageTemplate`
  abbrev pub PushMessageTemplate : Type 0
  PushMessageTemplate = List (Bytes × PushMessageGoTemplate)

  -- A round of the loop of `NewPushMessageTemplate`
  unfoldable pub parse_file : Bytes → PushMessageTemplateFile → Result Error PushMessageGoTemplate
  parse_file name file = do
    title ← p.parse (codes "title" ++ name) file.title
    body ← p.parse (codes "message" ++ name) file.message
    detail ← p.parse (codes "message_detail" ++ name) file.message_detail
    ok (record {
      title = title;
      message = body;
      message_detail = detail;
      image = file.image;
      web_view_link = file.web_view_link;
    })

  -- The loop of `NewPushMessageTemplate`, over the map in some order
  unfoldable pub parse_files :
      PushMessageTemplate
      → List (Bytes × PushMessageTemplateFile)
      → Result Error PushMessageTemplate
  unfolding parse_file
  parse_files made [] = ok made
  parse_files made ((name, file) ∷ files) =
      parse_file name file >>= λ go. parse_files (insert name go made) files

  -- `NewPushMessageTemplate`
  unfoldable pub new_push_message_template :
      List (Bytes × PushMessageTemplateFile) → Result Error PushMessageTemplate
  unfolding parse_files
  new_push_message_template files = parse_files [] files

  abbrev pub missing : Bytes → Error
  missing name =
      message (codes "push_message_tempalte: template with name " ++ name ++ codes " not found")

  -- `Execute`
  unfoldable pub execute : PushMessageTemplate → Bytes → Option Error
  execute made name = elim (lookup name made) [ none ↦ some (missing name) | some go ↦ none ]

  abbrev pub is_some {ℓ} : {A : Type ℓ} → Option A → Bool
  is_some none = false
  is_some (some a) = true

  -- One more name, among those made or among those that are left.
  moved {ℓ κ} :
      {A : Type ℓ} {B : Type κ} (same : Bool) (a : A) (b : B) (left : Option A) (made : Option B)
      → (is_some left || is_some (if same then some b else made))
        ≡ (is_some (if same then some a else left) || is_some made)
  moved true a b none made = refl
  moved true a b (some x) made = refl
  moved false a b left made = refl

  -- What is there once the loop ended.
  parse_files-lookup :
      (made : PushMessageTemplate) (files : List (Bytes × PushMessageTemplateFile)) (name : Bytes)
      (all : PushMessageTemplate)
      → parse_files made files ≡ ok all
      → is_some (lookup name all) ≡ (is_some (lookup name files) || is_some (lookup name made))
  unfolding parse_files lookup
  parse_files-lookup made [] name all h = let same : made ≡ all = cc in rw same refl
  parse_files-lookup made ((k, file) ∷ files) name all h = elim (Result-cases (parse_file k file)) [
    | inr (e, failed) ↦
        let no : ◌≡◌ {A = Result Error PushMessageTemplate} (err e) (ok all) = rw failed at h in cc
    | inl (go, parsed) ↦
        let rest : parse_files (insert k go made) files ≡ ok all = rw parsed at h in
        parse_files-lookup (insert k go made) files name all rest
        ∙ rw (lookup-insert k name go made)
            (moved (bytes_eq k name) file go (lookup name files) (lookup name made))
  ]

  or_false : (b : Bool) → (b || false) ≡ b
  or_false true = refl
  or_false false = refl

  -- If `NewPushMessageTemplate` parses all files, `Execute` finds exactly the names that have a file,
  -- and returns the error of a missing template for every other name.
  pub execute-new_push_message_template :
      (files : List (Bytes × PushMessageTemplateFile)) (all : PushMessageTemplate) (name : Bytes)
      → new_push_message_template files ≡ ok all
      → execute all name ≡ (if is_some (lookup name files) then none else some (missing name))
  unfolding new_push_message_template execute lookup
  execute-new_push_message_template files all name h =
      found (lookup name all) (parse_files-lookup [] files name all h ∙ or_false _)
    where
      found :
          (o : Option PushMessageGoTemplate)
          → is_some o ≡ is_some (lookup name files)
          → (elim o [ none ↦ some (missing name) | some go ↦ none ])
            ≡ (if is_some (lookup name files) then none else some (missing name))
      found none e = rw (← e) refl
      found (some go) e = rw (← e) refl
