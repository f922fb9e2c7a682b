-- ===== src/Conf/Load/Ready.antt =====
-- letmein-conf/src/lib.rs: what holds of a configuration that `Config::load` accepts.
use letmein.Base.{
  list_has_eq, nat_has_eq, ◌^◌, ◌≤◌, ◌<◌, ◌≡◌, refl, Option, none, some, arith, Result, ok, Holds,
  holds, bind-Holds, then-Holds, ℕ, sym, subst, ◌⊎◌, inl, inr, err, panic, held,
}
use letmein.Base.Assoc.{lookup}
use letmein.Base.Texts.{Text, text}
use letmein.Conf.{Config, ConfigVariant, server_variant, client_variant}
use letmein.Conf.Durations.{max_duration, F64, parse_duration, parse_duration-le}
use letmein.Conf.Ini.{Sections, get_option, parse_str}
use letmein.Conf.Keys.{Usable, get_keys, get_keys-Usable}
use letmein.Conf.Load.{
  new_config, options_of, keys_section, resources_section, for_client, for_server, no_nft_settings,
  get_nft_settings, load_ini, load_parsed, load,
}
use letmein.Conf.Load.Ports.{UsablePort, or_default-Holds, get_port-UsablePort}
use letmein.Conf.Loaded.{Loaded, get_resources-Loaded}
use letmein.Conf.Parsing.{ConfError, unreadable, trim, parse_id, from_str_radix-lt}
use letmein.Conf.Resources.{get_resources}
use letmein.Conf.Settings.{
  general, get_port, get_debug, default_control_timeout, default_nft_timeout, get_control_timeout,
  get_control_error_policy, get_seccomp, get_default_user, nftables, get_nft_exe, get_nft_family,
  get_nft_table, get_nft_chain_input, get_nft_timeout,
}

pub record Ready (conf : Config) : Type 0 where
  pub port : UsablePort conf.control_port
  pub control_timeout : conf.control_timeout ≤ max_duration
  pub keys : Usable conf.keys
  pub resources : Loaded conf.resources
  pub user : conf.default_user < 2 ^ 32
  pub nft_timeout : conf.nft_timeout ≤ max_duration

abbrev Short : ℕ → Type 0
Short d = d ≤ max_duration

module _ (read_f64 : Text → Option F64) (ini : Sections) where
  parse_duration-Short : (s : Text) → Holds Short (parse_duration read_f64 s)
  parse_duration-Short s = holds Short (parse_duration read_f64 s) (parse_duration-le read_f64 s)

  get_control_timeout-Short : Holds Short (get_control_timeout read_f64 ini)
  unfolding get_control_timeout
  get_control_timeout-Short =
      or_default-Holds Short (parse_duration read_f64) default_control_timeout
        (get_option ini general (text "control-timeout")) (omega arith) parse_duration-Short

  get_nft_timeout-Short : Holds Short (get_nft_timeout read_f64 ini)
  unfolding get_nft_timeout
  get_nft_timeout-Short =
      or_default-Holds Short (parse_duration read_f64) default_nft_timeout
        (get_option ini nftables (text "timeout")) (omega arith) parse_duration-Short

  get_nft_settings-Short : Holds (λ nft. Short nft.timeout) (get_nft_settings read_f64 ini)
  unfolding get_nft_settings
  get_nft_settings-Short =
      then-Holds (λ nft. Short nft.timeout) (get_nft_exe ini) _
        λ exe.
          then-Holds (λ nft. Short nft.timeout) (get_nft_family ini) _
            λ family.
              then-Holds (λ nft. Short nft.timeout) (get_nft_table ini) _
                λ table.
                  then-Holds (λ nft. Short nft.timeout) (get_nft_chain_input ini) _
                    λ chain_input.
                      bind-Holds (λ nft. Short nft.timeout) Short (get_nft_timeout read_f64 ini) _
                        get_nft_timeout-Short λ d b. b

  get_default_user-lt : Holds (λ id. id < 2 ^ 32) (get_default_user ini)
  unfolding get_default_user parse_id
  get_default_user-lt =
      or_default-Holds (λ id. id < 2 ^ 32) parse_id 0
        (get_option ini (text "CLIENT") (text "default-user")) (omega arith)
        (λ s.
          holds (λ id. id < 2 ^ 32) (parse_id s)
            (λ id. from_str_radix-lt 16 (2 ^ 32) (trim s) id (omega arith)))

for_client-Holds {ℓ κ} :
    {A : Type ℓ} (P : A → Type κ) (variant : ConfigVariant) (default : A) (m : Result ConfError A)
    → P default
    → Holds P m
    → Holds P (for_client variant default m)
for_client-Holds P client_variant default m d h = h
for_client-Holds P server_variant default m d h = d

for_server-Holds {ℓ κ} :
    {A : Type ℓ} (P : A → Type κ) (variant : ConfigVariant) (default : A) (m : Result ConfError A)
    → P default
    → Holds P m
    → Holds P (for_server variant default m)
for_server-Holds P client_variant default m d h = d
for_server-Holds P server_variant default m d h = h

module _ (read_f64 : Text → Option F64) (conf : Config) where
  load_ini-Ready : (ini : Sections) → Holds Ready (load_ini read_f64 conf ini)
  unfolding load_ini
  load_ini-Ready ini = then-Holds Ready (get_debug ini) _ λ debug.
      bind-Holds Ready UsablePort (get_port ini) _ (get_port-UsablePort ini) λ port usable.
        bind-Holds Ready Short (get_control_timeout read_f64 ini) _
          (get_control_timeout-Short read_f64 ini)
          λ timeout short. then-Holds Ready (get_control_error_policy ini) _ λ policy.
            then-Holds Ready (get_seccomp ini) _ λ seccomp.
              bind-Holds Ready Usable (get_keys (options_of (lookup keys_section ini))) _
                (holds Usable _ (get_keys-Usable (options_of (lookup keys_section ini))))
                λ keys good_keys.
                  bind-Holds Ready Loaded
                    (get_resources (options_of (lookup resources_section ini))) _
                    (holds Loaded _
                      (get_resources-Loaded (options_of (lookup resources_section ini))))
                    λ resources loaded.
                      bind-Holds Ready (λ id. id < 2 ^ 32)
                        (for_client conf.variant 0 (get_default_user ini)) _
                        (for_client-Holds (λ id. id < 2 ^ 32) conf.variant 0 (get_default_user ini)
                          (omega arith) (get_default_user-lt read_f64 ini))
                        λ user small.
                          bind-Holds Ready (λ nft. Short nft.timeout)
                            (for_server conf.variant no_nft_settings
                              (get_nft_settings read_f64 ini))
                            _
                            (for_server-Holds (λ nft. Short nft.timeout) conf.variant
                              no_nft_settings (get_nft_settings read_f64 ini) (omega arith)
                              (get_nft_settings-Short read_f64 ini))
                            λ nft short_lease. record {
                              port = usable;
                              control_timeout = short;
                              keys = good_keys;
                              resources = loaded;
                              user = small;
                              nft_timeout = short_lease;
                            }

  load_parsed-Ready :
      (variant : ConfigVariant) (m : Result ConfError Sections)
      → Ready conf
      → Holds Ready (load_parsed read_f64 conf variant m)
  load_parsed-Ready variant (ok ini) r = load_ini-Ready ini
  load_parsed-Ready client_variant (err e) r = r
  load_parsed-Ready server_variant (err e) r = tt
  load_parsed-Ready variant panic r = tt

  load-Holds : (file : Option Text) → Ready conf → Holds Ready (load read_f64 conf file)
  unfolding load
  load-Holds none r = load_parsed-Ready conf.variant (err unreadable) r
  load-Holds (some content) r = load_parsed-Ready conf.variant (parse_str content) r

new_config-Ready : (variant : ConfigVariant) → Ready (new_config variant)
new_config-Ready variant = record {
  port = (omega arith, refl);
  control_timeout = omega arith;
  keys = tt;
  resources = tt;
  user = omega arith;
  nft_timeout = omega arith;
}

-- A configuration that is loaded into a new one, or into one that was loaded, has a control port of
-- 16 bits with a protocol, keys of the right size that are not all zeros or ones with one key for
-- each user, sound resources with distinct ids and ports, a user of 32 bits, and timeouts of at most
-- `u32::MAX` seconds.
pub load-Ready :
    (read_f64 : Text → Option F64) (conf : Config) (file : Option Text) (loaded : Config)
    → (conf ≡ new_config conf.variant) ⊎ Ready conf
    → load read_f64 conf file ≡ ok loaded
    → Ready loaded
load-Ready read_f64 conf file loaded (inl as_new) e =
    held Ready (load read_f64 conf file) loaded e
      (load-Holds read_f64 conf file (subst Ready (sym as_new) (new_config-Ready conf.variant)))
load-Ready read_f64 conf file loaded (inr r) e =
    held Ready (load read_f64 conf file) loaded e (load-Holds read_f64 conf file r)
