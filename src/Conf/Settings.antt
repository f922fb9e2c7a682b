-- ===== src/Conf/Settings.antt =====
-- letmein-conf/src/lib.rs: the `get_` functions of the sections GENERAL, CLIENT and NFTABLES, with
-- `parse_bool` and `is_number` of letmein-conf/src/parse.rs.
use letmein.Base.{
  list_has_eq, nat_has_eq, ◌>>=◌, ℕ, ◌*◌, ◌^◌, Bool, true, false, not, ◌&&◌, ◌||◌, Option, none,
  some, List, [], ◌∷◌, leb, if◌then◌else◌, ◌==◌, Result, ok, err,
}
use letmein.Base.Texts.{Text, text}
use letmein.Conf.{
  ControlPort, ErrorPolicy, always, basic_auth, full_auth, Seccomp, off, log_only, kill,
}
use letmein.Conf.Durations.{F64, parse_duration}
use letmein.Conf.Ini.{Sections, get_option}
use letmein.Conf.Parsing.{
  ConfError, bad_bool, bad_policy, bad_seccomp, bad_family, unknown_option, trim_start, trim_end,
  trim, to_lowercase, strip_0x, parse_u16, parse_id,
}
use letmein.Conf.Resources.{MapItem, key_value, key_values, only_values, parse_map}
use letmein.Proto.Message.{UserId}

abbrev pub one_of : Text → List Text → Bool
one_of s [] = false
one_of s (w ∷ ws) = s == w || one_of s ws

-- `parse_bool`
unfoldable pub parse_bool : Text → Result ConfError Bool
unfolding to_lowercase trim_start trim_end
parse_bool s =
    let word = trim (to_lowercase s) in
    if one_of word (text "true" ∷ text "1" ∷ text "yes" ∷ text "on" ∷ [])
    then ok true
    else if one_of word (text "false" ∷ text "0" ∷ text "no" ∷ text "off" ∷ [])
    then ok false
    else err bad_bool

-- `char::is_ascii_digit`
abbrev is_digit : ℕ → Bool
is_digit c = leb 48 c && leb c 57

-- `char::is_ascii_hexdigit`
abbrev is_hexdigit : ℕ → Bool
is_hexdigit c = is_digit c || (leb 97 c && leb c 102) || (leb 65 c && leb c 70)

abbrev all_chars : (ℕ → Bool) → Text → Bool
all_chars p [] = true
all_chars p (c ∷ s) = p c && all_chars p s

abbrev are_digits : Text → Option Text → Bool
are_digits s (some t) = all_chars is_hexdigit t
are_digits s none = all_chars is_digit s

-- `is_number`
unfoldable pub is_number : Text → Bool
unfolding trim_start trim_end strip_0x
is_number s = are_digits (trim s) (strip_0x (trim s))

-- A setting with its default
abbrev pub or_default {ℓ} :
    {A : Type ℓ} → (Text → Result ConfError A) → A → Option Text → Result ConfError A
or_default parse default none = ok default
or_default parse default (some value) = parse value

abbrev pub general : Text
general = text "GENERAL"

-- `get_debug`
unfoldable pub get_debug : Sections → Result ConfError Bool
unfolding get_option parse_bool
get_debug ini = or_default parse_bool false (get_option ini general (text "debug"))

-- `vs.len() == 1 && is_number(&vs[0])`
abbrev pub single_number : List Text → Option Text
single_number (v ∷ []) = if is_number v then some v else none
single_number vs = none

unfoldable pub port_words : ControlPort → List Text → Result ConfError ControlPort
unfolding to_lowercase
port_words p [] = ok p
port_words p (v ∷ vs) =
    let with_tcp = port_words (record p { tcp = true }) vs in
    let with_udp = port_words (record p { udp = true }) vs in
    if to_lowercase v == text "tcp"
    then with_tcp
    else if to_lowercase v == text "udp"
    then with_udp
    else err unknown_option

abbrev pub port_values : ControlPort → List Text → Option Text → Result ConfError ControlPort
port_values p vs none = port_words p vs
port_values p vs (some v) = do n ← parse_u16 v; ok (record p { port = n })

-- The body of the loop of `get_port`
unfoldable pub port_item : ControlPort → MapItem → Result ConfError ControlPort
unfolding port_words parse_u16 is_number
port_item p (key_value k v) = err unknown_option
port_item p (key_values k vs) = err unknown_option
port_item p (only_values vs) = port_values p vs (single_number vs)

unfoldable pub port_items : ControlPort → List MapItem → Result ConfError ControlPort
unfolding port_item
port_items p [] = ok p
port_items p (i ∷ is) = do p' ← port_item p i; port_items p' is

-- TCP is the default protocol.
abbrev pub default_tcp : ControlPort → ControlPort
default_tcp p = if not p.tcp && not p.udp then record p { tcp = true } else p

-- `PORT` of letmein-proto
abbrev pub default_port : ℕ
default_port = 5800

unfoldable pub parse_port : Text → Result ConfError ControlPort
unfolding parse_map port_items
parse_port value = do
  items ← parse_map value
  p ← port_items (record { port = default_port; tcp = false; udp = false }) items
  ok (default_tcp p)

-- `Default for ControlPort`
abbrev pub default_control_port : ControlPort
default_control_port = record { port = default_port; tcp = true; udp = false }

-- `get_port`
unfoldable pub get_port : Sections → Result ConfError ControlPort
unfolding get_option parse_port
get_port ini = or_default parse_port default_control_port (get_option ini general (text "port"))

-- `DEFAULT_CONTROL_TIMEOUT` and `DEFAULT_NFT_TIMEOUT`
abbrev pub default_control_timeout : ℕ
default_control_timeout = 5 * 10 ^ 9

abbrev pub default_nft_timeout : ℕ
default_nft_timeout = 600 * 10 ^ 9

-- `get_control_timeout`
unfoldable pub get_control_timeout : (Text → Option F64) → Sections → Result ConfError ℕ
unfolding get_option parse_duration
get_control_timeout read_f64 ini =
    or_default (parse_duration read_f64) default_control_timeout
      (get_option ini general (text "control-timeout"))

-- `FromStr for ErrorPolicy`
unfoldable pub parse_policy : Text → Result ConfError ErrorPolicy
unfolding to_lowercase trim_start trim_end
parse_policy s =
    let word = trim (to_lowercase s) in
    if word == text "always"
    then ok always
    else if word == text "basic-auth"
    then ok basic_auth
    else if word == text "full-auth"
    then ok full_auth
    else err bad_policy

-- `get_control_error_policy`
unfoldable pub get_control_error_policy : Sections → Result ConfError ErrorPolicy
unfolding get_option parse_policy
get_control_error_policy ini =
    or_default parse_policy always (get_option ini general (text "control-error-policy"))

-- `FromStr for Seccomp`
unfoldable pub parse_seccomp : Text → Result ConfError Seccomp
unfolding to_lowercase trim_start trim_end
parse_seccomp s =
    let word = trim (to_lowercase s) in
    if word == text "off"
    then ok off
    else if word == text "log"
    then ok log_only
    else if word == text "kill"
    then ok kill
    else err bad_seccomp

-- `get_seccomp`
unfoldable pub get_seccomp : Sections → Result ConfError Seccomp
unfolding get_option parse_seccomp
get_seccomp ini = or_default parse_seccomp off (get_option ini general (text "seccomp"))

-- `get_default_user`
unfoldable pub get_default_user : Sections → Result ConfError UserId
unfolding get_option parse_id
get_default_user ini = or_default parse_id 0 (get_option ini (text "CLIENT") (text "default-user"))

abbrev pub nftables : Text
nftables = text "NFTABLES"

abbrev trimmed : Text → Result ConfError Text
trimmed s = ok (trim s)

-- `get_nft_exe`
unfoldable pub get_nft_exe : Sections → Result ConfError Text
unfolding get_option trim_start trim_end
get_nft_exe ini = or_default trimmed (text "nft") (get_option ini nftables (text "exe"))

unfoldable pub parse_family : Text → Result ConfError Text
unfolding trim_start trim_end
parse_family s =
    let family = trim s in
    if one_of family (text "inet" ∷ text "ip" ∷ text "ip6" ∷ []) then ok family else err bad_family

-- `get_nft_family`
unfoldable pub get_nft_family : Sections → Result ConfError Text
unfolding get_option parse_family
get_nft_family ini = or_default parse_family [] (get_option ini nftables (text "family"))

-- `get_nft_table`
unfoldable pub get_nft_table : Sections → Result ConfError Text
unfolding get_option trim_start trim_end
get_nft_table ini = or_default trimmed [] (get_option ini nftables (text "table"))

-- `get_nft_chain_input`
unfoldable pub get_nft_chain_input : Sections → Result ConfError Text
unfolding get_option trim_start trim_end
get_nft_chain_input ini = or_default trimmed [] (get_option ini nftables (text "chain-input"))

-- `get_nft_timeout`
unfoldable pub get_nft_timeout : (Text → Option F64) → Sections → Result ConfError ℕ
unfolding get_option parse_duration
get_nft_timeout read_f64 ini =
    or_default (parse_duration read_f64) default_nft_timeout
      (get_option ini nftables (text "timeout"))
