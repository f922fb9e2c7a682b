-- ===== src/Conf/Load.antt =====
-- letmein-conf/src/lib.rs: `Config::new`, `Config::load` and `Config::load_ini`. The file is its
-- decoded text, or none where it cannot be opened, read or decoded. The path is not kept.
pub mod Ports
pub mod Ready
use letmein.Base.{
  list_has_eq, nat_has_eq, ◌>>=◌, ◌>>◌, ℕ, false, Option, none, some, [], Result, ok, err, panic,
}
use letmein.Base.Assoc.{lookup}
use letmein.Base.Texts.{Text, text}
use letmein.Conf.{always, off, ConfigVariant, server_variant, client_variant, Config}
use letmein.Conf.Durations.{F64}
use letmein.Conf.Ini.{Options, Sections, parse_str}
use letmein.Conf.Keys.{load_keys, get_keys}
use letmein.Conf.Parsing.{ConfError, unreadable}
use letmein.Conf.Resources.{get_resources}
use letmein.Conf.Settings.{
  get_debug, default_control_port, get_port, default_control_timeout, default_nft_timeout,
  get_control_timeout, get_control_error_policy, get_seccomp, get_default_user, get_nft_exe,
  get_nft_family, get_nft_table, get_nft_chain_input, get_nft_timeout,
}

-- `Config::new`
abbrev pub new_config : ConfigVariant → Config
new_config variant = record {
  variant = variant;
  debug = false;
  control_port = default_control_port;
  control_timeout = default_control_timeout;
  control_error_policy = always;
  seccomp = off;
  keys = [];
  resources = [];
  default_user = 0;
  nft_exe = [];
  nft_family = [];
  nft_table = [];
  nft_chain_input = [];
  nft_timeout = default_nft_timeout;
}

-- `options_iter`: a missing section has no options.
abbrev pub options_of : Option Options → Options
options_of none = []
options_of (some options) = options

abbrev pub keys_section : Text
keys_section = text "KEYS"

abbrev pub resources_section : Text
resources_section = text "RESOURCES"

-- `if self.variant == ConfigVariant::Client`
abbrev pub for_client {ℓ} :
    {A : Type ℓ} → ConfigVariant → A → Result ConfError A → Result ConfError A
for_client client_variant default m = m
for_client server_variant default m = ok default

-- `if self.variant == ConfigVariant::Server`
abbrev pub for_server {ℓ} :
    {A : Type ℓ} → ConfigVariant → A → Result ConfError A → Result ConfError A
for_server server_variant default m = m
for_server client_variant default m = ok default

-- The settings for the firewall, which a client does not read
pub record NftSettings : Type 0 where
  pub exe : Text
  pub family : Text
  pub table : Text
  pub chain_input : Text
  pub timeout : ℕ

abbrev pub no_nft_settings : NftSettings
no_nft_settings = record {
  exe = [];
  family = [];
  table = [];
  chain_input = [];
  timeout = default_nft_timeout;
}

module _ (read_f64 : Text → Option F64) where
  unfoldable pub get_nft_settings : Sections → Result ConfError NftSettings
  unfolding get_nft_exe get_nft_family get_nft_table get_nft_chain_input get_nft_timeout
  get_nft_settings ini = do
    exe ← get_nft_exe ini
    family ← get_nft_family ini
    table ← get_nft_table ini
    chain_input ← get_nft_chain_input ini
    timeout ← get_nft_timeout read_f64 ini
    ok (record {
      exe = exe;
      family = family;
      table = table;
      chain_input = chain_input;
      timeout = timeout;
    })

  -- `Config::load_ini`: nothing is changed before all settings are read.
  unfoldable pub load_ini : Config → Sections → Result ConfError Config
  unfolding get_debug get_port get_control_timeout get_control_error_policy get_seccomp load_keys
      get_resources get_default_user get_nft_settings lookup
  load_ini conf ini = do
    debug ← get_debug ini
    port ← get_port ini
    control_timeout ← get_control_timeout read_f64 ini
    policy ← get_control_error_policy ini
    seccomp ← get_seccomp ini
    keys ← get_keys (options_of (lookup keys_section ini))
    resources ← get_resources (options_of (lookup resources_section ini))
    default_user ← for_client conf.variant 0 (get_default_user ini)
    nft ← for_server conf.variant no_nft_settings (get_nft_settings ini)
    ok (record {
      variant = conf.variant;
      debug = debug;
      control_port = port;
      control_timeout = control_timeout;
      control_error_policy = policy;
      seccomp = seccomp;
      keys = keys;
      resources = resources;
      default_user = default_user;
      nft_exe = nft.exe;
      nft_family = nft.family;
      nft_table = nft.table;
      nft_chain_input = nft.chain_input;
      nft_timeout = nft.timeout;
    })

  -- What follows `Ini::new_from_file`: a client does without the file where that fails.
  abbrev pub load_parsed :
      Config → ConfigVariant → Result ConfError Sections → Result ConfError Config
  load_parsed conf variant (ok ini) = load_ini conf ini
  load_parsed conf client_variant (err e) = ok conf
  load_parsed conf server_variant (err e) = err unreadable
  load_parsed conf variant panic = panic

  -- `Config::load`
  unfoldable pub load : Config → Option Text → Result ConfError Config
  unfolding load_ini parse_str
  load conf none = load_parsed conf conf.variant (err unreadable)
  load conf (some content) = load_parsed conf conf.variant (parse_str content)
