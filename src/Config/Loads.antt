-- ===== src/Config/Loads.antt =====
-- config/config.go: what a configuration that Load returns is fit for, and when Load fails.
use cartridge.Prelude.{
  ◌≡◌, refl, ap, sym, subst, ◌∙◌, String, Bool, true, false, not, ◌&&◌, ◌||◌, List, [], ◌∷◌, ◌==◌,
  arith, ◌⊎◌, inl, inr, string_comparable,
}
use cartridge.Config.{
  Config, Unmarshal, Loaded, loaded, load_failed, load, validate, known, is_production,
  is_development, is_test, resolve_database_path, settings_of, finish_load, resolved, Problem,
  invalid_environment, raise_level, require_when, add_unless, has_default_level, adjust_log_level,
  private_key_secret, require_secret, checked,
}

abbrev pub is_loaded : Loaded → Bool
is_loaded (loaded c) = true
is_loaded (load_failed e) = false

abbrev none_of : List Problem → Bool
none_of [] = true
none_of (p ∷ ps) = false

-- A known environment, and in production a secret: its own or PRIVATE_KEY.
abbrev pub is_complete : (String → String) → Config → Bool
is_complete getenv c =
    known c.environment
    && (not (is_production c) || not (c.session_secret == "" && getenv "PRIVATE_KEY" == ""))

validate_complete :
    (getenv : String → String) (c : Config) → none_of (validate getenv c).1 ≡ is_complete getenv c
unfolding validate adjust_log_level private_key_secret require_secret
validate_complete getenv c = ground arith

-- What validate changes, on every branch.
validate_changes :
    (getenv : String → String) (c : Config)
    → let c' = (validate getenv c).0 in
      c' ≡ record c { log_level = c'.log_level; session_secret = c'.session_secret }
unfolding validate adjust_log_level private_key_secret require_secret
validate_changes getenv c = ground arith

resolve_database_path-validate :
    (getenv : String → String) (c : Config)
    → resolve_database_path (validate getenv c).0 ≡ resolve_database_path c
unfolding resolve_database_path
resolve_database_path-validate getenv c = ap resolve_database_path (validate_changes getenv c)

abbrev pub good_level : Config → Bool
good_level c = is_production c || not (c.log_level == "") && not (c.log_level == "error")

raise_level_ready :
    (default local : Bool) (c : Config)
    → has_default_level c ≡ default
    → (is_development c || is_test c) ≡ local
    → let c' = raise_level default local c in
      (c'.environment ≡ c.environment) × ((not (known c.environment) || good_level c') ≡ true)
raise_level_ready true true c h l = (refl, ground arith)
raise_level_ready true false c h l = (refl, ground arith)
raise_level_ready false local c h l = (refl, ground arith)

adjust_log_level_ready :
    (c : Config)
    → let c' = adjust_log_level c in
      (c'.environment ≡ c.environment) × ((not (known c.environment) || good_level c') ≡ true)
unfolding adjust_log_level
adjust_log_level_ready c = raise_level_ready _ _ c refl refl

private_key_secret_kept :
    (getenv : String → String) (c : Config)
    → let c' = private_key_secret getenv c in
      (c'.environment ≡ c.environment) × (c'.log_level ≡ c.log_level)
unfolding private_key_secret
private_key_secret_kept getenv c = ground arith

require_when_ready :
    (must blank : Bool) (c : Config)
    → (c.session_secret == "") ≡ blank
    → none_of (require_when must blank c).1 ≡ true
    → let c' = (require_when must blank c).0 in
      (c'.environment ≡ c.environment)
      × (c'.log_level ≡ c.log_level)
      × ((c'.session_secret == "") ≡ false)
require_when_ready true true c b h = absurd (ground (arith, h))
require_when_ready true false c b h = (refl, refl, b)
require_when_ready false true c b h = (refl, refl, refl)
require_when_ready false false c b h = (refl, refl, b)

none_of-add_unless :
    (b : Bool) (p : Problem) (ps : List Problem) → none_of (add_unless b p ps) ≡ (b && none_of ps)
none_of-add_unless true p ps = refl
none_of-add_unless false p [] = refl
none_of-add_unless false p (q ∷ ps) = refl

-- Where validate finds no problem, its configuration has a secret, and in development and test a
-- level above the default one.
validate_ready :
    (getenv : String → String) (c : Config)
    → none_of (validate getenv c).1 ≡ true
    → let c' = (validate getenv c).0 in
      (known c'.environment ≡ true) × ((c'.session_secret == "") ≡ false) × (good_level c' ≡ true)
unfolding validate require_secret
validate_ready getenv c h =
    let a = adjust_log_level c in
    let p = private_key_secret getenv a in
    let r = require_secret p in
    let unknown = invalid_environment r.0.env_prefix r.0.environment in
    let both = sym (none_of-add_unless (known r.0.environment) unknown r.1) ∙ h in
    let ready =
      require_when_ready (is_production p) (p.session_secret == "") p refl (ground (arith, both)) in
    ground (arith, both, ready, adjust_log_level_ready c, private_key_secret_kept getenv a)

is_loaded-checked : (out : Config × List Problem) → is_loaded (checked out) ≡ none_of out.1
is_loaded-checked (c, []) = refl
is_loaded-checked (c, p ∷ ps) = refl

checked_loaded :
    (out : Config × List Problem) (c : Config)
    → checked out ≡ loaded c
    → (none_of out.1 ≡ true) × (out.0 ≡ c)
checked_loaded (d, []) c h = (refl, ground (arith, h))
checked_loaded (d, p ∷ ps) c h = absurd (ground (arith, h))

-- What a load needs of viper's result.
abbrev pub can_load : (String → String) → Config ⊎ String → Bool
can_load getenv (inr message) = false
can_load getenv (inl read) = is_complete getenv read

finish_load_succeeds :
    (getenv : String → String) (prefix : String) (read : Config ⊎ String)
    → is_loaded (finish_load getenv prefix read).0 ≡ can_load getenv read
unfolding finish_load resolved
finish_load_succeeds getenv prefix (inr message) = refl
finish_load_succeeds getenv prefix (inl read) =
    is_loaded-checked (validate getenv (resolved prefix read))
    ∙ validate_complete getenv (resolved prefix read)

-- Load succeeds exactly when viper does and what it read is complete: a known environment and, in
-- production, a session secret or PRIVATE_KEY.
pub load_succeeds :
    (unmarshal : Unmarshal) (getenv : String → String) (name : String)
    → is_loaded (load unmarshal getenv name).0 ≡ can_load getenv (unmarshal (settings_of name))
unfolding load
load_succeeds unmarshal getenv name =
    let settings = settings_of name in
    finish_load_succeeds getenv settings.prefix (unmarshal settings)

-- What the program takes for granted of a loaded configuration.
abbrev pub Ready : Config → Type 0
Ready c =
    (known c.environment ≡ true)
    × ((c.session_secret == "") ≡ false)
    × (good_level c ≡ true)
    × (c.database_path ≡ resolve_database_path c)

finish_load-Ready :
    (getenv : String → String) (prefix : String) (read : Config ⊎ String) (c : Config)
    → (finish_load getenv prefix read).0 ≡ loaded c
    → Ready c
unfolding finish_load resolved resolve_database_path
finish_load-Ready getenv prefix (inr message) c h = absurd (ground (arith, h))
finish_load-Ready getenv prefix (inl read) c h =
    let out = validate getenv (resolved prefix read) in
    let ok = checked_loaded out c h in
    let ready = validate_ready getenv (resolved prefix read) ok.0 in
    let path : out.0.database_path ≡ resolve_database_path out.0 =
      ap (λ d. d.database_path) (validate_changes getenv (resolved prefix read))
      ∙ sym (resolve_database_path-validate getenv (resolved prefix read)) in
    subst Ready ok.1 (ready.0, ready.1, ready.2, path)

-- A configuration that Load returns has a known environment, a session secret that is not empty, in
-- development and test a log level that is neither empty nor "error", and the database path that
-- its own fields give.
pub load-Ready :
    (unmarshal : Unmarshal) (getenv : String → String) (name : String) (c : Config)
    → (load unmarshal getenv name).0 ≡ loaded c
    → Ready c
unfolding load
load-Ready unmarshal getenv name c h =
    let settings = settings_of name in
    finish_load-Ready getenv settings.prefix (unmarshal settings) c h

require_when_kept :
    (must blank : Bool) (c : Config)
    → let c' = (require_when must blank c).0 in
      (c'.environment ≡ c.environment) × (c'.log_level ≡ c.log_level)
require_when_kept true true c = (refl, refl)
require_when_kept true false c = (refl, refl)
require_when_kept false true c = (refl, refl)
require_when_kept false false c = (refl, refl)

validate_local :
    (getenv : String → String) (c : Config)
    → has_default_level c ≡ true
    → (is_development c || is_test c) ≡ true
    → let c' = (validate getenv c).0 in (c'.environment ≡ c.environment) × (c'.log_level ≡ "info")
unfolding validate require_secret adjust_log_level
validate_local getenv c unset local =
    let a = adjust_log_level c in
    let p = private_key_secret getenv a in
    let kept = private_key_secret_kept getenv a in
    let kept' = require_when_kept (is_production p) (p.session_secret == "") p in
    let raised : a ≡ record c { log_level = "info" } = rw (unset, local) refl in
    (
      kept'.0 ∙ kept.0 ∙ ap (λ d. d.environment) raised,
      kept'.1 ∙ kept.1 ∙ ap (λ d. d.log_level) raised,
    )

-- Load gives the level "info" to what viper reads with no level of its own, in development and test.
pub load_local :
    (unmarshal : Unmarshal) (getenv : String → String) (name : String) (read c : Config)
    → unmarshal (settings_of name) ≡ inl read
    → has_default_level read ≡ true
    → (is_development read || is_test read) ≡ true
    → (load unmarshal getenv name).0 ≡ loaded c
    → (c.environment ≡ read.environment) × (c.log_level ≡ "info")
unfolding load finish_load resolved
load_local unmarshal getenv name read c found unset local h =
    let prefix = (settings_of name).prefix in
    let out = validate getenv (resolved prefix read) in
    let ok = checked_loaded out c (sym (ap (λ u. (finish_load getenv prefix u).0) found) ∙ h) in
    subst (λ d. (d.environment ≡ read.environment) × (d.log_level ≡ "info")) ok.1
      (validate_local getenv (resolved prefix read) unset local)
