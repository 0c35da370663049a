-- ===== src/Log/Tests.antt =====
-- The backends over native loggers that keep their level and write to a list.
use go_project_example.Base.{false, List, [], ◌∷◌, ◌≡◌, refl, Bytes, codes, if◌then◌else◌}
use go_project_example.Xerrors.{backend}
use go_project_example.Effects.{ok, M, return, throw}
use go_project_example.Log.{
  Level, Config, Severity, Entry, Files, default_config, info, error, debug, plain, is_below,
  error_level,
}
use go_project_example.Log.Logrus
use go_project_example.Log.Zerolog
use go_project_example.Log.Zap
use go_project_example.Log.Zap.Pairs.{fields_to_kv-in_turn}
use go_project_example.Log.Std
use go_project_example.Log.Global

abbrev World : Type 0
World = List (Severity × Entry)

abbrev written : Severity → Severity → Entry → M World (Unit {0})
written level k e w = if is_below k level then (w, ok tt) else ((k, e) ∷ w, ok tt)

-- No file can be opened.
abbrev no_files : Files World
no_files = record { mkdir_all = λ name. return tt; open_file = λ name. throw (backend 13) }

abbrev logrus : Logrus.Library World
logrus = record {
  Native = Severity;
  new = info;
  set_output = λ file l. l;
  set_formatter = λ f l. l;
  set_report_caller = λ c l. l;
  set_level = λ k l. k;
  get_level = λ l. l;
  log = λ k e l. written l k e;
  get_level-set_level = λ k l. refl;
  log_below = λ k e l w h. rw h refl;
}

abbrev at_level : Level → Config
at_level v = record default_config { level = v }

-- The level 9 counts as the info level.
abbrev logger : Logrus.Logger logrus no_files
logger = record { native = error; config = at_level error_level; mu = false }

abbrev zerolog : Zerolog.Library World
zerolog = record {
  Native = Severity;
  new = λ out. debug;
  level = λ k l. k;
  with_caller = λ l. l;
  get_level = λ l. l;
  set_globals = λ format skip. return tt;
  log = λ k e l. written l k e;
  get_level-level = λ k l. refl;
  get_level-with_caller = λ l. refl;
  log_below = λ k e l w h. rw h refl;
}

abbrev zerologger : Severity → Zerolog.Logger zerolog no_files
zerologger k = record { native = k; config = default_config }

built_level : (k n : Severity) (w w' : World) → return k w ≡ (w', ok n) → n ≡ k
built_level k n w w' h = cc

abbrev zap : Zap.Library World
zap = record {
  Native = Severity;
  build = λ c. return (c.level);
  get_level = λ l. l;
  log = λ k e l. written l k (plain []);
  get_level-build = λ c w w' n h. built_level c.level n w w' h;
  log_below = λ k e l w h. rw h refl;
}

abbrev filed : Config
filed = record default_config { log_file = codes "log/app.log" }

abbrev zap_logger : Zap.Logger zap no_files
zap_logger = record {
  native = info;
  zapconfig = Zap.zap_config zap no_files filed [];
  config = filed;
}

abbrev fields : List (Bytes × Bytes)
fields = (codes "a", codes "1") ∷ (codes "b", codes "2") ∷ []

fields_to_kv-in_turn_example :
    Zap.fields_to_kv fields ≡ codes "a" ∷ codes "1" ∷ codes "b" ∷ codes "2" ∷ []
fields_to_kv-in_turn_example = fields_to_kv-in_turn fields

abbrev process : Std.Process World
process = record { write = λ out c. return tt; exit = return tt }

-- A backend whose state is its level.
abbrev shared : Global.Backend Level
shared = record {
  set_config = λ c. return tt;
  set_level = λ v w. (v, ok tt);
  log = λ k e. return tt;
}
