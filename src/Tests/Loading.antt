-- ===== src/Tests/Loading.antt =====
-- letmein-conf and letmeind: a configuration file, as it is loaded and as the server runs with it.
use letmein.Base.{
  ◌*◌, ◌^◌, ◌≡◌, refl, ◌≢◌, inl, true, false, Option, none, some, [], ◌∷◌, list_eq, ok, err, panic,
}
use letmein.Base.Assoc.{lookup}
use letmein.Base.Texts.{Text, text}
use letmein.Conf.{port_resource, always, kill, server_variant, client_variant, Config}
use letmein.Conf.Durations.{F64, finite, duration_f64, parse_duration}
use letmein.Conf.Load.{new_config, load}
use letmein.Conf.Load.Ready.{Ready, load-Ready}
use letmein.Conf.Parsing.{unreadable, unknown_option}
use letmein.Conf.Settings.{parse_port}
use letmein.Proto.Message.{secure_random}
use letmein.Server.Protocol.{run}
use letmein.Server.Protocol.NoPanic.{run_no_panic}
use letmein.Tests.Server.{toy_mac, user_key, peer, honest}

abbrev no_floats : Text → Option F64
no_floats s = none

abbrev one_and_a_half : Text → Option F64
one_and_a_half s = some (finite false (3 * 2 ^ 1073))

-- Rust reads `1.5` as a float: it is no `u32`.
float_duration : parse_duration one_and_a_half (text "1.5") ≡ ok (15 * 10 ^ 8)
unfolding parse_duration duration_f64
float_duration = refl

whole_duration : parse_duration no_floats (text " 0x10") ≡ ok (16 * 10 ^ 9)
unfolding parse_duration duration_f64
whole_duration = refl

-- The values that the source's own tests have
ports :
    (parse_port (text "1234 / TCP ") ≡ ok (record { port = 1234; tcp = true; udp = false }))
    × (parse_port (text "1234/tcp,UDP") ≡ ok (record { port = 1234; tcp = true; udp = true }))
    × (parse_port (text "udp") ≡ ok (record { port = 5800; tcp = false; udp = true }))
    × (parse_port (text "x") ≡ err unknown_option)
unfolding parse_port list_eq
ports = (refl, refl, refl, refl)

abbrev server_file : Text
server_file =
    text
      "[GENERAL]\nport = 5800/TCP\nseccomp= kill\n[KEYS]\n00000001=0909090909090909090909090909090909090909090909090909090909090908\n[RESOURCES]\n2=port:22\n[NFTABLES]\nfamily = inet\ntable=filter\nchain-input=LETMEIN-INPUT\ntimeout=600\n"

abbrev file_conf : Config
file_conf = record {
  variant = server_variant;
  debug = false;
  control_port = record { port = 5800; tcp = true; udp = false };
  control_timeout = 5 * 10 ^ 9;
  control_error_policy = always;
  seccomp = kill;
  keys = (1, user_key) ∷ [];
  resources = (2, port_resource 22 true false []) ∷ [];
  default_user = 0;
  nft_exe = text "nft";
  nft_family = text "inet";
  nft_table = text "filter";
  nft_chain_input = text "LETMEIN-INPUT";
  nft_timeout = 600 * 10 ^ 9;
}

conf_of_file : load no_floats (new_config server_variant) (some server_file) ≡ ok file_conf
unfolding load list_eq lookup duration_f64
conf_of_file = refl

-- A client does without a file, a server does not.
missing_file :
    (load no_floats (new_config client_variant) none ≡ ok (new_config client_variant))
    × (load no_floats (new_config server_variant) none ≡ err unreadable)
unfolding load
missing_file = (refl, refl)

load-Ready_example : Ready file_conf
load-Ready_example =
    load-Ready no_floats (new_config server_variant) (some server_file) file_conf (inl refl)
      conf_of_file

run_no_panic_example : (run toy_mac file_conf peer honest).0 ≢ panic
unfolding secure_random list_eq
run_no_panic_example =
    run_no_panic no_floats (some server_file) file_conf toy_mac peer honest conf_of_file
      (refl, refl, refl, refl)
