-- ===== src/Config/Precedence.antt =====
-- Which source decides a setting.
use gocachez.Prelude.{
  ◌≡◌, refl, ap, sym, ◌∙◌, Bool, Option, none, some, Bytes, arith, Bool-cases, Option-cases, inl,
  inr, false, if◌then◌else◌, codes,
}
use gocachez.Prelude.Int.{ℤ, pos}
use gocachez.Config.{Config, Settings, Numbers, parse_size, parse_age, default_max_age}
use gocachez.Config.Layers.{or_else, as_given, given_layers, as_given_layers}
use gocachez.Config.Sources.{
  ConfigFile, absent, unreadable, decoded, Sources, given, ◌>>=◌, apply_settings, default_config,
  apply_config_file, parse_flag_operands,
}

abbrev no_settings : Settings
no_settings = record {
  dir = none;
  max_size = none;
  max_age = none;
  max_retained_age = none;
  verbose = none;
}

-- What the file gives.
abbrev pub decoded_settings : ConfigFile → Settings
decoded_settings absent = no_settings
decoded_settings unreadable = no_settings
decoded_settings (decoded fc) = fc

abbrev pub file_settings : Sources → Settings
file_settings src = if src.has_path then decoded_settings src.file else no_settings

-- Flags before the environment before the file.
abbrev pub strongest {ℓ} : {A : Type ℓ} → (Settings → Option A) → Sources → Option A
strongest field src =
    or_else (field src.flags) (or_else (field src.env) (field (file_settings src)))

bind_some :
    {A B : Type 0} (o : Option A) (f : A → Option B) (b : B)
    → (o >>= f) ≡ some b
    → (a : A) × (o ≡ some a) × (f a ≡ some b)
unfolding ◌>>=◌
bind_some none f b h = absurd (ground arith)
bind_some (some a) f b h = (a, refl, h)

-- The fields that one source leaves.
record Applied (lib : Numbers) (s : Settings) (cfg cfg' : Config) : Type 0 where
  dir : cfg'.dir ≡ as_given s.dir cfg.dir
  verbose : given (λ v. v) s.verbose cfg.verbose ≡ some cfg'.verbose
  max_size : given (parse_size lib) s.max_size cfg.max_size ≡ some cfg'.max_size
  max_age : given (parse_age lib) s.max_age cfg.max_age ≡ some cfg'.max_age
  max_retained_age :
      given (parse_age lib) s.max_retained_age cfg.max_retained_age ≡ some cfg'.max_retained_age

module _ (lib : Numbers) where
  apply_settings-Applied :
      (s : Settings) (cfg cfg' : Config)
      → apply_settings lib s cfg ≡ some cfg'
      → Applied lib s cfg cfg'
  unfolding apply_settings
  apply_settings-Applied s cfg cfg' h =
      let (size, size_is, h1) = bind_some _ _ cfg' h in
      let (age, age_is, h2) = bind_some _ _ cfg' h1 in
      let (retained, retained_is, h3) = bind_some _ _ cfg' h2 in
      let (verbose, verbose_is, h4) = bind_some _ _ cfg' h3 in
      record {
        dir = elim (Option-cases s.dir) [
          | inl n ↦ ground (arith, h4, n)
          | inr (d, e) ↦ ground (arith, h4, e)
        ];
        verbose = verbose_is ∙ ground (arith, h4);
        max_size = size_is ∙ ground (arith, h4);
        max_age = age_is ∙ ground (arith, h4);
        max_retained_age = retained_is ∙ ground (arith, h4);
      }

  no_settings-Applied : (cfg : Config) → Applied lib no_settings cfg cfg
  unfolding given
  no_settings-Applied cfg = record {
    dir = refl;
    verbose = refl;
    max_size = refl;
    max_age = refl;
    max_retained_age = refl;
  }

  apply_config_file-Applied :
      (required : Bool) (file : ConfigFile) (cfg cfg' : Config)
      → apply_config_file lib required file cfg ≡ some cfg'
      → Applied lib (decoded_settings file) cfg cfg'
  unfolding apply_config_file
  apply_config_file-Applied required absent cfg cfg' h =
      let same_config : cfg ≡ cfg' = ground arith in rw same_config (no_settings-Applied cfg')
  apply_config_file-Applied required unreadable cfg cfg' h = absurd (ground arith)
  apply_config_file-Applied required (decoded fc) cfg cfg' h = apply_settings-Applied fc cfg cfg' h

  file-Applied :
      (src : Sources) (cfg cfg' : Config)
      → (if src.has_path then apply_config_file lib src.required src.file cfg else some cfg)
        ≡ some cfg'
      → Applied lib (file_settings src) cfg cfg'
  file-Applied src cfg cfg' h = elim (Bool-cases src.has_path) [
    | inl t ↦ rw t (apply_config_file-Applied src.required src.file cfg cfg' (rw t at h))
    | inr f ↦
        let same_config : cfg ≡ cfg' = ground (arith, f) in
        rw (f, same_config) (no_settings-Applied cfg')
  ]

-- What the sources decide: a setting is that of the strongest source that gives it, parsed, and the
-- default where none does.
pub record Decided (lib : Numbers) (src : Sources) (cfg : Config) : Type 0 where
  pub max_size :
      (size : ℤ) × (parse_size lib (codes "20GiB") ≡ some size)
      × (given (parse_size lib) (strongest (λ s. s.max_size) src) size ≡ some cfg.max_size)
  pub max_age :
      given (parse_age lib) (strongest (λ s. s.max_age) src) default_max_age ≡ some cfg.max_age
  pub max_retained_age :
      given (parse_age lib) (strongest (λ s. s.max_retained_age) src) (pos 0)
      ≡ some cfg.max_retained_age
  pub verbose : given (λ v. v) (strongest (λ s. s.verbose) src) false ≡ some cfg.verbose
  pub dir :
      (base : Bytes) × (src.default_dir ≡ some base)
      × (src.abs (as_given (strongest (λ s. s.dir) src) base) ≡ some cfg.dir)

record Defaults (lib : Numbers) (dir : Option Bytes) (cfg : Config) : Type 0 where
  base : Bytes
  its_dir : dir ≡ some base
  dir_is : cfg.dir ≡ base
  quiet : cfg.verbose ≡ false
  size : parse_size lib (codes "20GiB") ≡ some cfg.max_size
  age : cfg.max_age ≡ default_max_age
  retained : cfg.max_retained_age ≡ pos 0

default_config-Defaults :
    (lib : Numbers) (dir : Option Bytes) (cfg : Config)
    → default_config lib dir ≡ some cfg
    → Defaults lib dir cfg
unfolding default_config
default_config-Defaults lib none cfg h = absurd (ground arith)
default_config-Defaults lib (some d) cfg h =
    let (size, size_is, h1) = bind_some _ _ cfg h in
    record {
      base = d;
      its_dir = refl;
      dir_is = ground (arith, h1);
      quiet = ground (arith, h1);
      size = size_is ∙ ground (arith, h1);
      age = ground (arith, h1);
      retained = ground (arith, h1);
    }

-- When the configuration is accepted, each of its five settings, the directory, the budget, the two
-- ages and the verbosity, comes from the strongest source that gives it: a flag before the
-- environment, the environment before the file, the file before the default. The value is that
-- source's, parsed; the directory is made absolute.
pub parse_flag_operands-Decided :
    (lib : Numbers) (src : Sources) (cfg : Config)
    → parse_flag_operands lib src ≡ some cfg
    → Decided lib src cfg
unfolding parse_flag_operands
parse_flag_operands-Decided lib src cfg h =
    let (cfg0, is0, h0) = bind_some _ _ cfg h in
    let (cfg1, is1, h1) = bind_some _ _ cfg h0 in
    let (cfg2, is2, h2) = bind_some _ _ cfg h1 in
    let (cfg3, is3, h3) = bind_some _ _ cfg h2 in
    let (dir, dir_is, h4) = bind_some _ _ cfg h3 in
    let d = default_config-Defaults lib src.default_dir cfg0 is0 in
    let a1 = file-Applied lib src cfg0 cfg1 is1 in
    let a2 = apply_settings-Applied lib src.env cfg1 cfg2 is2 in
    let a3 = apply_settings-Applied lib src.flags cfg2 cfg3 is3 in
    let from_base : cfg1.dir ≡ as_given (file_settings src).dir d.base =
      a1.dir ∙ ap (as_given (file_settings src).dir) d.dir_is in
    record {
      verbose =
          given_layers (λ v. v) _ _ _ false _ _ _ _ (rw (sym d.quiet) a1.verbose) a2.verbose
            a3.verbose (ground (arith, h4));
      dir = (
        d.base,
        d.its_dir,
        ap src.abs (
              sym (
                as_given_layers (file_settings src).dir src.env.dir src.flags.dir d.base cfg1.dir
                  cfg2.dir cfg3.dir from_base a2.dir a3.dir))
            ∙ dir_is
            ∙ ground (arith, h4),
      );
      max_size = (
        cfg0.max_size,
        d.size,
        given_layers _ _ _ _ cfg0.max_size _ _ _ _ a1.max_size a2.max_size a3.max_size
            (ground (arith, h4)),
      );
      max_age =
          given_layers _ _ _ _ default_max_age _ _ _ _ (rw (sym d.age) a1.max_age) a2.max_age
            a3.max_age (ground (arith, h4));
      max_retained_age =
          given_layers _ _ _ _ (pos 0) _ _ _ _ (rw (sym d.retained) a1.max_retained_age)
            a2.max_retained_age a3.max_retained_age (ground (arith, h4));
    }
