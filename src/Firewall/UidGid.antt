-- ===== src/Firewall/UidGid.antt =====
-- letmeinfwd/src/uid_gid.rs: the ids of letmeind in the texts of `/etc/passwd` and `/etc/group`.
use letmein.Base.{
  list_has_eq, nat_has_eq, ℕ, zero, suc, ◌^◌, Option, none, some, List, [], ◌∷◌, if◌then◌else◌,
  ◌==◌, Result, err, with_err,
}
use letmein.Base.Texts.{Text}
use letmein.Conf.Ini.{lines}
use letmein.Conf.Parsing.{ConfError, find, from_str_radix}
use letmein.Proto.Wire.RoundTrip.{fields}

pub data IdError : Type 0 where
  unreadable_file missing_field bad_id not_found : IdError

-- `str::splitn`
unfoldable pub splitn : ℕ → ℕ → Text → List Text
unfolding find
splitn zero sep s = []
splitn (suc zero) sep s = s ∷ []
splitn (suc (suc n)) sep s = elim (find sep s) [
  | none ↦ s ∷ []
  | some found ↦ found.0 ∷ splitn (suc n) sep found.1
]

abbrev pub read_id : Result ConfError ℕ → Result IdError ℕ
read_id r = with_err r bad_id

-- The password, and then the id
abbrev pub id_field : List Text → Result IdError ℕ
id_field [] = err missing_field
id_field (pw ∷ []) = err missing_field
id_field (pw ∷ id ∷ fields) = read_id (from_str_radix 10 (2 ^ 32) id)

abbrev pub in_line : Text → List Text → Result IdError ℕ → Result IdError ℕ
in_line name [] rest = err missing_field
in_line name (first ∷ fields) rest = if first == name then id_field fields else rest

-- The loop over the lines, with at most `n` fields
unfoldable pub find_id : ℕ → Text → List Text → Result IdError ℕ
unfolding splitn from_str_radix
find_id n name [] = err not_found
find_id n name (line ∷ ls) = let rest = find_id n name ls in in_line name (splitn n 58 line) rest

unfoldable pub os_get_id : ℕ → Option Text → Text → Result IdError ℕ
unfolding find_id lines
os_get_id n none name = err unreadable_file
os_get_id n (some database) name = find_id n name (lines database)

-- `os_get_uid`, on the text of `/etc/passwd`
abbrev pub os_get_uid : Option Text → Text → Result IdError ℕ
os_get_uid = os_get_id 7

-- `os_get_gid`, on the text of `/etc/group`
abbrev pub os_get_gid : Option Text → Text → Result IdError ℕ
os_get_gid = os_get_id 4
