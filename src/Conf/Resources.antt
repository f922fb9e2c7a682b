-- ===== src/Conf/Resources.antt =====
-- letmein-conf/src/parse_items.rs and `get_resources` of letmein-conf/src/lib.rs: the section
-- `[RESOURCES]`, a list of an id and a value as `Ini` gives it.
-- The items of a resource's value are folded into a draft. A `HashMap` is a list with the newest
-- entry first; the order decides only which of two errors with one meaning is returned.
use letmein.Base.{
  list_has_eq, ◌>>=◌, ◌>>◌, ℕ, Bool, true, false, not, ◌&&◌, ◌||◌, Option, none, some, List, [],
  ◌∷◌, nat_eq, if◌then◌else◌, Result, ok, err, guard, or_fail, ◌==◌, with_err,
}
use letmein.Base.Texts.{Text}
use letmein.Conf.{Resource, port_resource}
use letmein.Conf.Parsing.{
  ConfError, bad_item_key, unknown_option, bad_port, multiple_values, missing_port, bad_user,
  multiple_definitions, trim_start, trim_end, trim, split, find, to_lowercase, parse_u16, parse_id,
}
use letmein.Proto.Message.{UserId, ResourceId}

pub data MapItem : Type 0 where
  key_value : (key value : Text) → MapItem
  key_values : (key : Text) (values : List Text) → MapItem
  only_values : (values : List Text) → MapItem

abbrev trim_all : List Text → List Text
trim_all [] = []
trim_all (s ∷ ss) = trim s ∷ trim_all ss

abbrev make_item : Text → Text → Option (Text × Text) → Result ConfError MapItem
make_item [] value comma = err bad_item_key
make_item (c ∷ key) value none = ok (key_value (c ∷ key) (trim value))
make_item (c ∷ key) value (some x) = ok (key_values (c ∷ key) (trim_all (split 44 value)))

abbrev keyed_item : Text → Option (Text × Text) → Result ConfError MapItem
keyed_item item none = ok (only_values (trim_all (split 44 item)))
keyed_item item (some (before, value)) = make_item (trim before) value (find 44 value)

-- One item of a `Map`, between two `/`
unfoldable pub parse_item : Text → Result ConfError MapItem
unfolding find split trim_start trim_end
parse_item item = keyed_item item (find 58 item)

abbrev parse_each : List Text → Result ConfError (List MapItem)
parse_each [] = ok []
parse_each (s ∷ ss) = do item ← parse_item s; items ← parse_each ss; ok (item ∷ items)

-- `Map::from_str`
unfoldable pub parse_map : Text → Result ConfError (List MapItem)
unfolding split parse_item
parse_map s = parse_each (split 47 s)

-- The local variables of the loop body
pub data Draft : Type 0 where
  draft : (port : Option ℕ) (users : List Text) (tcp? udp? : Bool) → Draft

abbrev port_word : Text
port_word = 112 ∷ 111 ∷ 114 ∷ 116 ∷ []

abbrev users_word : Text
users_word = 117 ∷ 115 ∷ 101 ∷ 114 ∷ 115 ∷ []

abbrev tcp_word : Text
tcp_word = 116 ∷ 99 ∷ 112 ∷ []

abbrev udp_word : Text
udp_word = 117 ∷ 100 ∷ 112 ∷ []

-- `port.is_some()` is refused before the value is parsed.
unfoldable pub take_port : Draft → Text → Result ConfError Draft
unfolding parse_u16
take_port (draft none users tcp? udp?) v = do p ← parse_u16 v; ok (draft (some p) users tcp? udp?)
take_port (draft (some q) users tcp? udp?) v = err multiple_values

unfoldable pub take_users : Draft → List Text → Result ConfError Draft
take_users (draft port [] tcp? udp?) vs = ok (draft port vs tcp? udp?)
take_users (draft port (u ∷ us) tcp? udp?) vs = err multiple_values

unfoldable pub take_protocols : Draft → List Text → Result ConfError Draft
unfolding to_lowercase
take_protocols d [] = ok d
take_protocols (draft port users tcp? udp?) (v ∷ vs) =
    let with_tcp = take_protocols (draft port users true udp?) vs in
    let with_udp = take_protocols (draft port users tcp? true) vs in
    if to_lowercase v == tcp_word
    then with_tcp
    else if to_lowercase v == udp_word
    then with_udp
    else err unknown_option

-- The `match item` of `get_resources`
unfoldable pub take_item : Draft → MapItem → Result ConfError Draft
unfolding take_port take_users take_protocols
take_item d (key_value k v) =
    if k == port_word
    then take_port d v
    else if k == users_word
    then take_users d (v ∷ [])
    else err unknown_option
take_item d (key_values k vs) =
    if k == port_word
    then err bad_port
    else if k == users_word
    then take_users d vs
    else err unknown_option
take_item d (only_values vs) = take_protocols d vs

unfoldable pub take_items : Draft → List MapItem → Result ConfError Draft
unfolding take_item
take_items d [] = ok d
take_items d (i ∷ is) = do d' ← take_item d i; take_items d' is

-- Any failure to parse one is the error about the user.
unfoldable pub parse_users : List Text → Result ConfError (List UserId)
unfolding parse_id
parse_users [] = ok []
parse_users (u ∷ us) = do
  user ← with_err (parse_id u) bad_user
  users ← parse_users us
  ok (user ∷ users)

-- The loop over the resources loaded before
unfoldable pub is_new : ResourceId → ℕ → List (ResourceId × Resource) → Bool
is_new id port [] = true
is_new id port ((i, port_resource p tcp? udp? users) ∷ rs) =
    not (nat_eq i id) && not (nat_eq p port) && is_new id port rs

-- What follows the items: TCP is the default protocol, a port is required.
unfoldable pub finish_resource :
    List (ResourceId × Resource)
    → ResourceId
    → Draft
    → Result ConfError (List (ResourceId × Resource))
unfolding parse_users is_new
finish_resource rs id (draft port users tcp? udp?) = do
  p ← or_fail port missing_port
  ids ← parse_users users
  guard (is_new id p rs) multiple_definitions
  ok ((id, port_resource p (tcp? || (not tcp? && not udp?)) udp? ids) ∷ rs)

-- One option of the section
unfoldable pub load_resource :
    List (ResourceId × Resource) → Text → Text → Result ConfError (List (ResourceId × Resource))
unfolding parse_id parse_map take_items finish_resource
load_resource rs name value = do
  id ← parse_id name
  items ← parse_map value
  d ← take_items (draft none [] false false) items
  finish_resource rs id d

abbrev pub load_each :
    List (ResourceId × Resource)
    → List (Text × Text)
    → Result ConfError (List (ResourceId × Resource))
load_each rs [] = ok rs
load_each rs ((name, value) ∷ options) = do rs' ← load_resource rs name value; load_each rs' options

-- `get_resources`
unfoldable pub get_resources : List (Text × Text) → Result ConfError (List (ResourceId × Resource))
unfolding load_resource
get_resources options = load_each [] options
