-- ===== src/Conf/Keys.antt =====
-- letmein-conf/src/lib.rs, `get_keys`, with `parse_hex` of letmein-conf/src/parse.rs at the size
-- of a key.
use letmein.Base.{
  nat_has_eq, ◌>>=◌, ◌>>◌, ℕ, suc, ◌+◌, ◌*◌, ◌%◌, ◌≡◌, refl, sym, subst, ◌≢◌, Bool, true, not, ◌&&◌,
  Option, none, some, List, [], ◌∷◌, arith, ltb, nat_eq, length, replicate, list_eq, Result, ok,
  guard, ok_inj, bind-eq-ok, zero, false, list_eq_iff, ap,
}
use letmein.Base.Assoc.{lookup}
use letmein.Base.Bytes.{Bytes}
use letmein.Base.Texts.{Text}
use letmein.Conf.Parsing.{
  ConfError, bad_number, bad_key, multiple_definitions, trim_start, trim_end, trim, from_str_radix,
  parse_id,
}
use letmein.Proto.Message.{key_size, UserId, Key}

abbrev is_ascii : Text → Bool
is_ascii [] = true
is_ascii (c ∷ s) = ltb c 128 && is_ascii s

-- `parse_hexdigit`: a text of one character; a lone sign is no number.
abbrev parse_hexdigit : ℕ → Result ConfError ℕ
parse_hexdigit c = from_str_radix 16 256 (c ∷ [])

-- The loop of `parse_hex`: `d << 4`, then `|=` with the second digit, which is below 16
unfoldable pub parse_bytes : Text → Result ConfError Bytes
unfolding from_str_radix
parse_bytes [] = ok []
parse_bytes (c ∷ []) = ok []
parse_bytes (c ∷ d ∷ s) = do
  high ← parse_hexdigit c
  low ← parse_hexdigit d
  bytes ← parse_bytes s
  ok ((high * 16 % 256 + low) ∷ bytes)

-- `parse_hex`; the length counts bytes, which for ASCII are the characters.
unfoldable pub parse_hex : ℕ → Text → Result ConfError Bytes
unfolding trim_start trim_end parse_bytes
parse_hex size s = do
  guard (is_ascii (trim s)) bad_number
  guard (nat_eq (length (trim s)) (size * 2)) bad_number
  parse_bytes (trim s)

-- `contains_key`, of what the look-up finds
abbrev is_defined : Option Key → Bool
is_defined none = false
is_defined (some key) = true

-- One option of the section `[KEYS]`
unfoldable pub load_key : List (UserId × Key) → Text → Text → Result ConfError (List (UserId × Key))
unfolding parse_id parse_hex lookup
load_key keys name value = do
  id ← parse_id name
  key ← parse_hex key_size value
  guard (not (list_eq key (replicate key_size 0))) bad_key
  guard (not (list_eq key (replicate key_size 255))) bad_key
  guard (not (is_defined (lookup id keys))) multiple_definitions
  ok ((id, key) ∷ keys)

unfoldable pub load_keys :
    List (UserId × Key) → List (Text × Text) → Result ConfError (List (UserId × Key))
unfolding load_key
load_keys keys [] = ok keys
load_keys keys ((name, value) ∷ options) = do
  keys' ← load_key keys name value
  load_keys keys' options

-- `get_keys`
abbrev pub get_keys : List (Text × Text) → Result ConfError (List (UserId × Key))
get_keys options = load_keys [] options

-- The keys are of the right size, none is all zeros or all ones, and no user has two.
abbrev pub Usable : List (UserId × Key) → Type 0
Usable [] = Unit {0}
Usable ((id, key) ∷ keys) =
    (length key ≡ key_size)
    × (key ≢ replicate key_size 0)
    × (key ≢ replicate key_size 255)
    × (lookup id keys ≡ none)
    × Usable keys

length-parse_bytes :
    (n : ℕ) (s : Text) (bytes : Bytes)
    → length s ≡ n * 2
    → parse_bytes s ≡ ok bytes
    → length bytes ≡ n
unfolding parse_bytes
length-parse_bytes zero [] bytes l e = ap length (sym (ok_inj e))
length-parse_bytes (suc n) [] bytes l e = absurd (ground (arith, l))
length-parse_bytes zero (c ∷ s) bytes l e = absurd (ground (arith, l))
length-parse_bytes (suc n) (c ∷ []) bytes l e = absurd (ground (arith, l))
length-parse_bytes (suc n) (c ∷ d ∷ s) bytes l e =
    let (high, _, e1) =
      bind-eq-ok (parse_hexdigit c)
        (λ high. do
          low ← parse_hexdigit d
          bytes ← parse_bytes s
          ok ((high * 16 % 256 + low) ∷ bytes))
        e in
    let (low, _, e2) =
      bind-eq-ok (parse_hexdigit d)
        (λ low. do bytes ← parse_bytes s; ok ((high * 16 % 256 + low) ∷ bytes)) e1 in
    let (rest, parsed, e3) =
      bind-eq-ok (parse_bytes s) (λ bytes. ok ((high * 16 % 256 + low) ∷ bytes)) e2 in
    subst (λ x. length x ≡ suc n) (ok_inj e3)
      (ap suc (length-parse_bytes n s rest (ground (arith, l)) parsed))

length-parse_hex :
    (size : ℕ) (s : Text) (bytes : Bytes) → parse_hex size s ≡ ok bytes → length bytes ≡ size
unfolding parse_hex
length-parse_hex size s bytes e =
    let (_, _, e1) =
      bind-eq-ok (guard (is_ascii (trim s)) bad_number)
        (λ x. do guard (nat_eq (length (trim s)) (size * 2)) bad_number; parse_bytes (trim s)) e in
    let (_, sized, e2) =
      bind-eq-ok (guard (nat_eq (length (trim s)) (size * 2)) bad_number)
        (λ x. parse_bytes (trim s)) e1 in
    length-parse_bytes size (trim s) bytes (ground (arith, sized)) e2

differs : (a b : Bytes) → guard (not (list_eq a b)) bad_key ≡ ok tt → a ≢ b
differs a b e = ground (arith, e, list_eq_iff a b)

is_missing :
    (found : Option Key)
    → guard (not (is_defined found)) multiple_definitions ≡ ok tt
    → found ≡ none
is_missing none e = refl
is_missing (some key) e = cc

load_key-Usable :
    (keys : List (UserId × Key)) (name value : Text) (loaded : List (UserId × Key))
    → Usable keys
    → load_key keys name value ≡ ok loaded
    → Usable loaded
unfolding load_key
load_key-Usable keys name value loaded u e =
    let (id, _, e1) =
      bind-eq-ok (parse_id name)
        (λ id. do
          key ← parse_hex key_size value
          guard (not (list_eq key (replicate key_size 0))) bad_key
          guard (not (list_eq key (replicate key_size 255))) bad_key
          guard (not (is_defined (lookup id keys))) multiple_definitions
          ok ((id, key) ∷ keys))
        e in
    let (key, parsed, e2) =
      bind-eq-ok (parse_hex key_size value)
        (λ key. do
          guard (not (list_eq key (replicate key_size 0))) bad_key
          guard (not (list_eq key (replicate key_size 255))) bad_key
          guard (not (is_defined (lookup id keys))) multiple_definitions
          ok ((id, key) ∷ keys))
        e1 in
    let (_, zeros, e3) =
      bind-eq-ok (guard (not (list_eq key (replicate key_size 0))) bad_key)
        (λ x. do
          guard (not (list_eq key (replicate key_size 255))) bad_key
          guard (not (is_defined (lookup id keys))) multiple_definitions
          ok ((id, key) ∷ keys))
        e2 in
    let (_, ones, e4) =
      bind-eq-ok (guard (not (list_eq key (replicate key_size 255))) bad_key)
        (λ x. do
          guard (not (is_defined (lookup id keys))) multiple_definitions
          ok ((id, key) ∷ keys))
        e3 in
    let (_, missing, e5) =
      bind-eq-ok (guard (not (is_defined (lookup id keys))) multiple_definitions)
        (λ x. ok ((id, key) ∷ keys)) e4 in
    subst Usable (ok_inj e5) (
      length-parse_hex key_size value key parsed,
      differs key (replicate key_size 0) zeros,
      differs key (replicate key_size 255) ones,
      is_missing (lookup id keys) missing,
      u,
    )

load_keys-Usable :
    (keys : List (UserId × Key)) (options : List (Text × Text)) (loaded : List (UserId × Key))
    → Usable keys
    → load_keys keys options ≡ ok loaded
    → Usable loaded
unfolding load_keys
load_keys-Usable keys [] loaded u e = subst Usable (ok_inj e) u
load_keys-Usable keys ((name, value) ∷ options) loaded u e =
    let (keys', one, rest) =
      bind-eq-ok (load_key keys name value) (λ keys'. load_keys keys' options) e in
    load_keys-Usable keys' options loaded (load_key-Usable keys name value keys' u one) rest

-- Where `get_keys` accepts the section of a configuration, every key has the size of a key, none
-- is all zeros or all ones, and no user has two keys.
pub get_keys-Usable :
    (options : List (Text × Text)) (loaded : List (UserId × Key))
    → get_keys options ≡ ok loaded
    → Usable loaded
get_keys-Usable options loaded e = load_keys-Usable [] options loaded tt e

pub lookup-Usable :
    (id : UserId) (keys : List (UserId × Key)) (key : Key)
    → Usable keys
    → lookup id keys ≡ some key
    → length key ≡ key_size
unfolding lookup
lookup-Usable id [] key u e = cc
lookup-Usable id ((j, k) ∷ keys) key (l, z, o, m, u) e =
    ground (arith, l, e, lookup-Usable id keys key u)
