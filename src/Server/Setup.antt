-- ===== src/Server/Setup.antt =====
-- What NewServer accepts, and the registrations of a server that starts.
use cartridge.Prelude.{
  ℕ, ◌≡◌, ◌⊎◌, inl, inr, ◌↔◌, refl, arith, String, Bool, Option, none, some, List, ap, sym, ◌∙◌,
}
use cartridge.Server.{
  ServerConfig, Runtime, Server, Missing, fresh_server, validated, built, new_server,
}

-- The configuration is complete.
pub record IsComplete (c : Option ServerConfig) (cfg : ServerConfig) (config : Runtime)
    : Type 0 where
  pub given : c ≡ some cfg
  pub has_config : cfg.config ≡ some config
  pub has_logger : (l : ℕ) × (cfg.logger ≡ some l)
  pub has_db_manager : (d : ℕ) × (cfg.db_manager ≡ some d)

validated-inr :
    (a : Option Runtime) (l d : Option ℕ) (config : Runtime)
    → validated a l d ≡ inr config
    → (a ≡ some config) × ((k : ℕ) × (l ≡ some k)) × ((k : ℕ) × (d ≡ some k))
validated-inr none l d config h = ground arith
validated-inr (some a) none d config h = ground arith
validated-inr (some a) (some l) none config h = ground arith
validated-inr (some a) (some l) (some d) config h = (ground arith, (l, refl), (d, refl))

built-inr :
    (cfg : ServerConfig) (on_disk : Option (List (String × Bool))) (s : Server)
    (v : Missing ⊎ Runtime)
    → built cfg on_disk v ≡ inr s
    → (config : Runtime) × (v ≡ inr config) × (s ≡ fresh_server cfg on_disk config)
built-inr cfg on_disk s (inl e) h = ground arith
built-inr cfg on_disk s (inr config) h = (config, refl, grind arith)

complete-validated :
    (a : Option Runtime) (l d : Option ℕ) (config : Runtime) (k j : ℕ)
    → a ≡ some config
    → l ≡ some k
    → d ≡ some j
    → validated a l d ≡ inr config
complete-validated none l d config k j a b c = ground arith
complete-validated (some r) none d config k j a b c = ground arith
complete-validated (some r) (some x) none config k j a b c = ground arith
complete-validated (some r) (some x) (some y) config k j a b c = ground arith

new_server-IsComplete :
    (c : Option ServerConfig) (on_disk : Option (List (String × Bool))) (s : Server)
    → new_server c on_disk ≡ inr s
    → (cfg : ServerConfig) × (config : Runtime) × IsComplete c cfg config
      × (s ≡ fresh_server cfg on_disk config)
unfolding new_server
new_server-IsComplete none on_disk s h = ground arith
new_server-IsComplete (some cfg) on_disk s h =
    let (config, v, e) = built-inr cfg on_disk s _ h in
    let (a, l, d) = validated-inr cfg.config cfg.logger cfg.db_manager config v in
    (cfg, config, record { given = refl; has_config = a; has_logger = l; has_db_manager = d }, e)

pub complete-new_server :
    (cfg : ServerConfig) (config : Runtime) (on_disk : Option (List (String × Bool)))
    (c : Option ServerConfig)
    → IsComplete c cfg config
    → new_server c on_disk ≡ inr (fresh_server cfg on_disk config)
unfolding new_server
complete-new_server cfg config on_disk c i =
    let (l, e) = i.has_logger in
    let (d, f) = i.has_db_manager in
    ap (λ c. new_server c on_disk) i.given
    ∙ ap (built cfg on_disk)
        (complete-validated cfg.config cfg.logger cfg.db_manager config l d i.has_config e f)

-- NewServer gives a server exactly when the configuration and its runtime configuration, logger and
-- database manager are there, and then it is the server of that configuration.
pub new_server-inr_iff :
    (c : Option ServerConfig) (on_disk : Option (List (String × Bool))) (s : Server)
    → (new_server c on_disk ≡ inr s) ↔ (
        (cfg : ServerConfig) × (config : Runtime) × IsComplete c cfg config
        × (s ≡ fresh_server cfg on_disk config))
new_server-inr_iff c on_disk s = (
  new_server-IsComplete c on_disk s,
  λ (cfg, config, i, e). complete-new_server cfg config on_disk c i ∙ ap inr (sym e),
)
