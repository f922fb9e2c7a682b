-- ===== src/Conf/Load/Ports.antt =====
-- letmein-conf/src/lib.rs: the control port that `get_port` returns.
use letmein.Base.{
  ◌>>=◌, ◌^◌, ◌<◌, ◌≡◌, refl, true, false, ◌||◌, Option, none, some, List, [], ◌∷◌, arith, Result,
  ok, Holds, holds, bind-Holds, then-Holds,
}
use letmein.Base.Texts.{Text, text}
use letmein.Conf.{ControlPort}
use letmein.Conf.Ini.{Sections, get_option}
use letmein.Conf.Parsing.{ConfError, parse_u16, parse_u16-lt}
use letmein.Conf.Resources.{MapItem, key_value, key_values, only_values, parse_map}
use letmein.Conf.Settings.{
  or_default, general, single_number, port_words, port_values, port_item, port_items, default_tcp,
  default_port, parse_port, default_control_port, get_port,
}

-- A port of 16 bits, with a protocol
abbrev pub UsablePort : ControlPort → Type 0
UsablePort p = (p.port < 2 ^ 16) × ((p.tcp || p.udp) ≡ true)

pub or_default-Holds {ℓ κ} :
    {A : Type ℓ} (P : A → Type κ) (parse : Text → Result ConfError A) (default : A)
    (value : Option Text)
    → P default
    → ((s : Text) → Holds P (parse s))
    → Holds P (or_default parse default value)
or_default-Holds P parse default none d h = d
or_default-Holds P parse default (some s) d h = h s

abbrev SmallPort : ControlPort → Type 0
SmallPort p = p.port < 2 ^ 16

port_words-SmallPort :
    (p : ControlPort) (vs : List Text) → SmallPort p → Holds SmallPort (port_words p vs)
unfolding port_words
port_words-SmallPort p [] b = b
port_words-SmallPort p (v ∷ vs) b = ground (
  arith,
  port_words-SmallPort (record p { tcp = true }) vs b,
  port_words-SmallPort (record p { udp = true }) vs b,
)

port_values-SmallPort :
    (p : ControlPort) (vs : List Text) (number : Option Text)
    → SmallPort p
    → Holds SmallPort (port_values p vs number)
port_values-SmallPort p vs none b = port_words-SmallPort p vs b
port_values-SmallPort p vs (some v) b =
    bind-Holds SmallPort (λ n. n < 2 ^ 16) (parse_u16 v) (λ n. ok (record p { port = n }))
      (holds (λ n. n < 2 ^ 16) (parse_u16 v) (parse_u16-lt v)) (λ n l. l)

port_item-SmallPort :
    (p : ControlPort) (i : MapItem) → SmallPort p → Holds SmallPort (port_item p i)
unfolding port_item
port_item-SmallPort p (key_value k v) b = tt
port_item-SmallPort p (key_values k vs) b = tt
port_item-SmallPort p (only_values vs) b = port_values-SmallPort p vs (single_number vs) b

port_items-SmallPort :
    (p : ControlPort) (is : List MapItem) → SmallPort p → Holds SmallPort (port_items p is)
unfolding port_items
port_items-SmallPort p [] b = b
port_items-SmallPort p (i ∷ is) b =
    bind-Holds SmallPort SmallPort (port_item p i) (λ p'. port_items p' is)
      (port_item-SmallPort p i b) (λ p'. port_items-SmallPort p' is)

default_tcp-UsablePort : (p : ControlPort) → SmallPort p → UsablePort (default_tcp p)
default_tcp-UsablePort p b = ground arith

parse_port-UsablePort : (s : Text) → Holds UsablePort (parse_port s)
unfolding parse_port
parse_port-UsablePort s =
    then-Holds UsablePort (parse_map s)
      (λ items. do
        p ← port_items (record { port = default_port; tcp = false; udp = false }) items
        ok (default_tcp p))
      (λ items.
        bind-Holds UsablePort SmallPort
          (port_items (record { port = default_port; tcp = false; udp = false }) items)
          (λ p. ok (default_tcp p))
          (port_items-SmallPort (record { port = default_port; tcp = false; udp = false }) items
            (omega arith))
          default_tcp-UsablePort)

pub get_port-UsablePort : (ini : Sections) → Holds UsablePort (get_port ini)
unfolding get_port
get_port-UsablePort ini =
    or_default-Holds UsablePort parse_port default_control_port
      (get_option ini general (text "port")) (omega arith, refl) parse_port-UsablePort
