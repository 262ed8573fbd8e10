-- ===== src/Config/Sources.antt =====
-- `applyFileConfig` and `parseFlagOperands`: the sources are applied from the weakest to the
-- strongest, and the first setting that does not parse ends it.
use gocachez.Prelude.{Bool, false, Option, none, some, Bytes, if◌then◌else◌, codes}
use gocachez.Prelude.Int.{pos}
use gocachez.Config.{Config, Settings, Numbers, parse_size, parse_age, default_max_age}

-- The file at the path of the configuration: what reading and decoding it gives.
pub data ConfigFile : Type 0 where
  absent unreadable : ConfigFile
  decoded : Settings → ConfigFile

-- All that the configuration is made from. `has_path` is that there is a path of a file, `required`
-- that it was named by a flag or by the environment; `abs` is filepath.Abs.
pub record Sources : Type 0 where
  pub default_dir : Option Bytes
  pub has_path : Bool
  pub required : Bool
  pub file : ConfigFile
  pub env : Settings
  pub flags : Settings
  pub abs : Bytes → Option Bytes

-- A setting that is not given leaves the field; one that is given replaces it, or is an error.
unfoldable pub given {ℓ κ} : {A : Type ℓ} → {B : Type κ} → (A → Option B) → Option A → B → Option B
given parse none old = some old
given parse (some text) old = parse text

infixl 20 ◌>>=◌
unfoldable pub ◌>>=◌ {ℓ κ} : {A : Type ℓ} → {B : Type κ} → Option A → (A → Option B) → Option B
none >>= f = none
some a >>= f = f a

module _ (lib : Numbers) where
  -- `applyFileConfig`, and one round of the statements on the environment and on the flags.
  unfoldable pub apply_settings : Settings → Config → Option Config
  apply_settings s cfg = do
    size ← given (parse_size lib) s.max_size cfg.max_size
    age ← given (parse_age lib) s.max_age cfg.max_age
    retained ← given (parse_age lib) s.max_retained_age cfg.max_retained_age
    verbose ← given (λ v. v) s.verbose cfg.verbose
    some (record {
      dir = elim s.dir [ none ↦ cfg.dir | some d ↦ d ];
      max_size = size;
      max_age = age;
      max_retained_age = retained;
      verbose = verbose;
    })

  -- `defaultConfig`, in the user's cache directory, if there is one.
  unfoldable pub default_config : Option Bytes → Option Config
  default_config none = none
  default_config (some dir) = do
    size ← parse_size lib (codes "20GiB")
    some (record {
      dir = dir;
      max_size = size;
      max_age = default_max_age;
      max_retained_age = pos 0;
      verbose = false;
    })

  -- `applyConfigFile`
  unfoldable pub apply_config_file : Bool → ConfigFile → Config → Option Config
  apply_config_file required absent cfg = if required then none else some cfg
  apply_config_file required unreadable cfg = none
  apply_config_file required (decoded fc) cfg = apply_settings fc cfg

  -- `parseFlagOperands`, from the parsed flags on.
  unfoldable pub parse_flag_operands : Sources → Option Config
  parse_flag_operands src = do
    cfg ← default_config src.default_dir
    filed ← if src.has_path then apply_config_file src.required src.file cfg else some cfg
    env ← apply_settings src.env filed
    flags ← apply_settings src.flags env
    dir ← src.abs flags.dir
    some (record flags { dir = dir })
