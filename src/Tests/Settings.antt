-- ===== src/Tests/Settings.antt =====
-- letmein-conf: sections of a configuration as they are loaded.
use letmein.Base.{
  list_has_eq, ◌≡◌, refl, true, false, some, List, [], ◌∷◌, ok, err, list_eq, arith, ◌≢◌, panic,
}
use letmein.Base.Assoc.{lookup, Distinct}
use letmein.Base.Bytes.{Bytes}
use letmein.Base.Texts.{Text, text}
use letmein.Conf.{Resource, port_resource, contains_user, resource_id_by_port}
use letmein.Conf.Ids.{show_id, parse_id-show_id}
use letmein.Conf.Ini.{Sections, parse_str}
use letmein.Conf.Ini.Sections.{parse_str-Distinct}
use letmein.Conf.Keys.{load_keys, get_keys, Usable, get_keys-Usable}
use letmein.Conf.Loaded.{Loaded, get_resources-Loaded, resource_id_by_port-port_of}
use letmein.Conf.Parsing.{bad_number, multiple_values, multiple_definitions, missing_port, parse_id}
use letmein.Conf.Resources.{get_resources}
use letmein.Proto.Message.{ResourceId}

abbrev resource_options : List (Text × Text)
resource_options =
    (text "00000001", text "port: 80 / TCP, udp")
    ∷ (text " 2 ", text "users: 1, ff / port:0x1F90")
    ∷ []

abbrev loaded_resources : List (ResourceId × Resource)
loaded_resources =
    (2, port_resource 8080 true false (1 ∷ 255 ∷ [])) ∷ (1, port_resource 80 true true []) ∷ []

resources_of_options : get_resources resource_options ≡ ok loaded_resources
unfolding get_resources list_eq
resources_of_options = refl

-- A second port, and a port that does not fit
refused_resources :
    (get_resources ((text "1", text "port:1/port:2") ∷ []) ≡ err multiple_values)
    × (get_resources ((text "1", text "port:65536") ∷ []) ≡ err bad_number)
    × (get_resources ((text "1", text "tcp") ∷ []) ≡ err missing_port)
    × (get_resources ((text "1", text "port:7") ∷ (text "2", text "port:7") ∷ [])
        ≡ err multiple_definitions)
unfolding get_resources list_eq
refused_resources = (refl, refl, refl, refl)

get_resources-Loaded_example : Loaded loaded_resources
get_resources-Loaded_example =
    get_resources-Loaded resource_options loaded_resources resources_of_options

resource_id_by_port-port_of_example : resource_id_by_port loaded_resources 8080 (some 255) ≡ some 2
unfolding lookup contains_user
resource_id_by_port-port_of_example =
    resource_id_by_port-port_of loaded_resources 2 (port_resource 8080 true false (1 ∷ 255 ∷ []))
      (some 255) get_resources-Loaded_example refl refl

abbrev key_text : Text
key_text = text "000102030405060708090a0b0c0D0E0F101112131415161718191a1b1c1d1e1f"

abbrev key_value_bytes : Bytes
key_value_bytes =
    0 ∷ 1 ∷ 2 ∷ 3 ∷ 4 ∷ 5 ∷ 6 ∷ 7 ∷ 8 ∷ 9 ∷ 10 ∷ 11 ∷ 12 ∷ 13 ∷ 14 ∷ 15 ∷ 16 ∷ 17 ∷ 18 ∷ 19 ∷ 20
    ∷ 21 ∷ 22 ∷ 23 ∷ 24 ∷ 25 ∷ 26 ∷ 27 ∷ 28 ∷ 29 ∷ 30 ∷ 31 ∷ []

keys_of_options : get_keys ((text "0000000A", key_text) ∷ []) ≡ ok ((10, key_value_bytes) ∷ [])
unfolding load_keys list_eq
keys_of_options = refl

get_keys-Usable_example : Usable ((10, key_value_bytes) ∷ [])
get_keys-Usable_example =
    get_keys-Usable ((text "0000000A", key_text) ∷ []) ((10, key_value_bytes) ∷ []) keys_of_options

shown_id : show_id 0x1F0A ≡ text "00001F0A"
unfolding show_id
shown_id = refl

parse_id-show_id_example : parse_id (show_id 0xFFFFFFFF) ≡ ok 0xFFFFFFFF
parse_id-show_id_example = parse_id-show_id 0xFFFFFFFF (ground arith)

abbrev ini_text : Text
ini_text = text "# a comment\n\n[KEYS]\r\n 0000000A = 00ff\r\n[RESOURCES]\n1=port:22\n1 =port:23"

ini_sections :
    parse_str ini_text
    ≡ ok (
        (text "KEYS", (text "0000000A", text " 00ff") ∷ [])
        ∷ (text "RESOURCES", (text "1", text "port:23") ∷ [])
        ∷ [])
unfolding parse_str list_eq
ini_sections = refl

parse_str-Distinct_example :
    (parse_str ini_text ≢ panic)
    × ((sections : Sections) → parse_str ini_text ≡ ok sections → Distinct sections)
parse_str-Distinct_example = parse_str-Distinct ini_text
