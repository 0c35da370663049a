-- ===== src/Notification/Templates.antt =====
-- internal/usecase/notification/template.go: the templates of the notifications by SMS.
use go_project_example.Base.{
  Bool, List, [], ◌∷◌, ◌++◌, ◌≡◌, refl, ap, arith, Option, none, some, Bytes, codes, if◌then◌else◌,
  inl, inr, Bool-cases, Result, ok, err, ◌>>=◌,
}
use go_project_example.Text.{bytes_eq}
use go_project_example.Text.Maps.{lookup}
use go_project_example.Text.Paths.{join_path}
use go_project_example.Xerrors.{Error, message}

-- One call that `filepath.Walk` makes: the path, the name and whether it is a directory, or an error.
pub record Visit : Type 0 where
  pub path : Bytes
  pub name : Bytes
  pub is_dir : Bool
  pub error : Option Error

-- `filepath.Walk` on a directory tree, by the calls that it makes until one returns an error, the
-- files and their JSON, and the package html/template.
pub record Templating : Type 1 where
  pub Template : Type 0
  pub walk : Bytes → List Visit
  pub read_file : Bytes → Result Error Bytes
  pub unmarshal : Bytes → Result Error (List (Bytes × Bytes))
  pub parse : Bytes → Result Error Template
  pub execute : Template → Bytes → Result Error Bytes

abbrev template_type_push_message : Bytes
template_type_push_message = codes "pushmessage"

abbrev template_type_sms : Bytes
template_type_sms = codes "sms"

abbrev template_type_email : Bytes
template_type_email = codes "email"

module _ (t : Templating) where
  open t use {Template}

  -- `notificationTemplate`
  pub record NotificationTemplate : Type 0 where
    pub push_message_template : List (Bytes × Template)
    pub sms_template : List (Bytes × Template)
    pub email_template : List (Bytes × Template)

  abbrev pub empty : NotificationTemplate
  empty = record { push_message_template = []; sms_template = []; email_template = [] }

  abbrev not_supported : Error
  not_supported = message (codes "templategen: template format not valid, expecting json")

  -- `isExtSupported`
  abbrev pub is_ext_supported : Bytes → Result Error (Unit {0})
  is_ext_supported ext = if bytes_eq ext (codes ".json") then ok tt else err not_supported

  -- The loop of `loadSMS`: each template is parsed, and dropped.
  unfoldable pub parse_all :
      NotificationTemplate → List (Bytes × Bytes) → Result Error NotificationTemplate
  parse_all ntm [] = ok ntm
  parse_all ntm ((name, text) ∷ templates) = do parsed ← t.parse text; parse_all ntm templates

  abbrev load_file : NotificationTemplate → Visit → Result Error NotificationTemplate
  unfolding parse_all
  load_file ntm v = do
    supported ← is_ext_supported v.name
    out ← t.read_file v.path
    templates ← t.unmarshal out
    parse_all ntm templates

  -- `loadSMS`, past the error of the walk
  abbrev load_visited :
      NotificationTemplate → Visit → Option Error → Result Error NotificationTemplate
  unfolding load_file
  load_visited ntm v (some e) = err e
  load_visited ntm v none = if v.is_dir then ok ntm else load_file ntm v

  unfoldable pub load_sms : NotificationTemplate → Visit → Result Error NotificationTemplate
  unfolding load_visited
  load_sms ntm v = load_visited ntm v v.error

  -- The walk: the first error ends it.
  unfoldable pub load_all : NotificationTemplate → List Visit → Result Error NotificationTemplate
  unfolding load_sms
  load_all ntm [] = ok ntm
  load_all ntm (v ∷ vs) = do loaded ← load_sms ntm v; load_all loaded vs

  -- `newTemplateGen`: of the two directories only the one of the SMS is walked.
  unfoldable pub new_template_gen : Bytes → Result Error NotificationTemplate
  unfolding load_all
  new_template_gen base_path = load_all empty (t.walk (join_path (base_path ∷ codes "sms" ∷ [])))

  abbrev templates_of : Bytes → NotificationTemplate → List (Bytes × Template)
  templates_of type ntm =
      if bytes_eq type template_type_push_message
      then ntm.push_message_template
      else if bytes_eq type template_type_sms
      then ntm.sms_template
      else if bytes_eq type template_type_email
      then ntm.email_template
      else []

  abbrev not_found : Bytes → Bytes → Error
  not_found type name = message (
      codes "templategen: template with type "
      ++ (type ++ (codes " and name " ++ (name ++ codes " not found"))))

  abbrev run_template : Bytes → Bytes → Bytes → Option Template → Result Error Bytes
  run_template type name data_ none = err (not_found type name)
  run_template type name data_ (some template) = t.execute template data_

  -- `Execute`
  unfoldable pub execute : NotificationTemplate → Bytes → Bytes → Bytes → Result Error Bytes
  execute ntm type name data_ = run_template type name data_ (lookup name (templates_of type ntm))

  -- What a result is, if it is one.
  abbrev Only : NotificationTemplate → Result Error NotificationTemplate → Type 0
  Only ntm (ok x) = x ≡ ntm
  Only ntm (err e) = Unit

  bind-Only :
      {A : Type 0} (ntm : NotificationTemplate) (r : Result Error A)
      (f : A → Result Error NotificationTemplate)
      → ((a : A) → Only ntm (f a))
      → Only ntm (r >>= f)
  bind-Only ntm (ok a) f h = h a
  bind-Only ntm (err e) f h = tt

  parse_all-Only :
      (ntm : NotificationTemplate) (templates : List (Bytes × Bytes))
      → Only ntm (parse_all ntm templates)
  unfolding parse_all
  parse_all-Only ntm [] = refl
  parse_all-Only ntm ((name, text) ∷ templates) =
      bind-Only ntm (t.parse text) _ (λ parsed. parse_all-Only ntm templates)

  load_file-Only : (ntm : NotificationTemplate) (v : Visit) → Only ntm (load_file ntm v)
  unfolding load_file
  load_file-Only ntm v = bind-Only ntm (is_ext_supported v.name) _ (λ s.
      bind-Only ntm (t.read_file v.path) _
        (λ out. bind-Only ntm (t.unmarshal out) _ (λ ts. parse_all-Only ntm ts)))

  load_visited-Only :
      (ntm : NotificationTemplate) (v : Visit) (e : Option Error) → Only ntm (load_visited ntm v e)
  unfolding load_visited
  load_visited-Only ntm v (some e) = tt
  load_visited-Only ntm v none = elim (Bool-cases v.is_dir) [
    | inl dir ↦ simp dir refl
    | inr file ↦ simp file (load_file-Only ntm v)
  ]

  -- The rest of a walk after a file that left the templates as they were.
  walk_on-Only :
      (ntm : NotificationTemplate) (rest : NotificationTemplate → Result Error NotificationTemplate)
      (r : Result Error NotificationTemplate)
      → Only ntm r
      → Only ntm (rest ntm)
      → Only ntm (r >>= rest)
  walk_on-Only ntm rest (ok x) h k = rw h k
  walk_on-Only ntm rest (err e) h k = tt

  load_all-Only : (ntm : NotificationTemplate) (vs : List Visit) → Only ntm (load_all ntm vs)
  unfolding load_all load_sms
  load_all-Only ntm [] = refl
  load_all-Only ntm (v ∷ vs) =
      walk_on-Only ntm (λ loaded. load_all loaded vs) (load_visited ntm v v.error)
        (load_visited-Only ntm v v.error) (load_all-Only ntm vs)

  lookup_nothing : (type name : Bytes) → lookup name (templates_of type empty) ≡ none
  unfolding lookup
  lookup_nothing type name = ground (
    arith,
    Bool-cases (bytes_eq type template_type_push_message),
    Bool-cases (bytes_eq type template_type_sms),
    Bool-cases (bytes_eq type template_type_email),
  )

  -- Nothing that `newTemplateGen` makes can be executed: whatever files were loaded, every type and
  -- every name is reported as not found.
  execute-new_template_gen :
      (base_path : Bytes) (ntm : NotificationTemplate) (type name data_ : Bytes)
      → new_template_gen base_path ≡ ok ntm
      → execute ntm type name data_ ≡ err (not_found type name)
  unfolding new_template_gen execute
  execute-new_template_gen base_path ntm type name data_ made =
      let visits = t.walk (join_path (base_path ∷ codes "sms" ∷ [])) in
      let same : ntm ≡ empty = rw made at (load_all-Only empty visits) in
      rw same (ap (run_template type name data_) (lookup_nothing type name))
