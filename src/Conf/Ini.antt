-- ===== src/Conf/Ini.antt =====
-- letmein-conf/src/ini.rs: `Ini::parse_str`, on a text that is decoded.
pub mod Sections
use letmein.Base.{
  list_has_eq, ◌>>=◌, ℕ, ◌≡◌, refl, subst, ◌≢◌, true, false, Option, none, some, List, [], ◌∷◌,
  arith, nat_eq, if◌then◌else◌, list_eq_iff, Result, ok, err, panic, ok_inj, Bool, ◌>>◌,
}
use letmein.Base.Assoc.{lookup, insert, Distinct, lookup-insert, insert-Distinct}
use letmein.Base.Texts.{Text}
use letmein.Conf.Parsing.{ConfError, bad_line, trim_start, trim_end, split, find}

abbrev pub Options : Type 0
Options = List (Text × Text)

abbrev pub Sections : Type 0
Sections = List (Text × Options)

abbrev pub drop_cr : Text → Text
drop_cr [] = []
drop_cr (c ∷ []) = if nat_eq c 13 then [] else c ∷ []
drop_cr (c ∷ d ∷ s) = c ∷ drop_cr (d ∷ s)

abbrev pub end_lines : List Text → List Text
end_lines [] = []
end_lines ([] ∷ []) = []
end_lines ((c ∷ s) ∷ []) = (c ∷ s) ∷ []
end_lines (s ∷ t ∷ ts) = drop_cr s ∷ end_lines (t ∷ ts)

-- `str::lines`
unfoldable pub lines : Text → List Text
unfolding split
lines s = end_lines (split 10 s)

abbrev pub keep_first : ℕ → Option Text → Option Text
keep_first c none = none
keep_first c (some s) = some (c ∷ s)

-- What stands before a `]` at the end
unfoldable pub strip_bracket : Text → Option Text
strip_bracket [] = none
strip_bracket (c ∷ []) = if nat_eq c 93 then some [] else none
strip_bracket (c ∷ d ∷ s) = keep_first c (strip_bracket (d ∷ s))

-- The local variables of `parse_str`
abbrev pub Reading : Type 0
Reading = Sections × Option Text

abbrev pub add_section : Sections → Text → Option Options → Result ConfError Reading
add_section sections name none = ok (insert name [] sections, some name)
add_section sections name (some options) = err bad_line

-- A line that starts with `[`
unfoldable pub open_section : Sections → Option Text → Result ConfError Reading
unfolding lookup insert
open_section sections none = err bad_line
open_section sections (some []) = err bad_line
open_section sections (some (c ∷ s)) = add_section sections (c ∷ s) (lookup (c ∷ s) sections)

-- `get_mut`, `unwrap` and `insert`
abbrev pub put_option : Sections → Text → Text → Text → Option Options → Result ConfError Reading
put_option sections section name value none = panic
put_option sections section name value (some options) =
    ok (insert section (insert name value options) sections, some section)

abbrev pub named_option : Sections → Text → Option (Text × Text) → Result ConfError Reading
named_option sections section none = err bad_line
named_option sections section (some ([], value)) = err bad_line
named_option sections section (some (c ∷ name, value)) =
    put_option sections section (trim_end (c ∷ name)) value (lookup section sections)

-- A line with an option
unfoldable pub add_option : Sections → Option Text → Text → Result ConfError Reading
unfolding find trim_end lookup insert
add_option sections none line = err bad_line
add_option sections (some section) line = named_option sections section (find 61 line)

abbrev pub trimmed_line : Reading → Text → Result ConfError Reading
trimmed_line (sections, in_section) [] = ok (sections, in_section)
trimmed_line (sections, in_section) (c ∷ line) =
    if nat_eq c 35
    then ok (sections, in_section)
    else if nat_eq c 91
    then open_section sections (strip_bracket (trim_end line))
    else add_option sections in_section (c ∷ line)

-- The body of the loop over the lines
unfoldable pub read_line : Reading → Text → Result ConfError Reading
unfolding trim_start trim_end strip_bracket open_section add_option
read_line r line = trimmed_line r (trim_start line)

unfoldable pub read_lines : Reading → List Text → Result ConfError Reading
unfolding read_line
read_lines r [] = ok r
read_lines r (line ∷ rest) = do r' ← read_line r line; read_lines r' rest

abbrev pub sections_of : Reading → Sections
sections_of (sections, in_section) = sections

-- `Ini::parse_str`: the sections that replace those of the parser
unfoldable pub parse_str : Text → Result ConfError Sections
unfolding lines read_lines
parse_str content = do r ← read_lines ([], none) (lines content); ok (sections_of r)

-- `Ini::get`
abbrev get_in : Text → Option Options → Option Text
get_in name none = none
get_in name (some options) = lookup name options

unfoldable pub get_option : Sections → Text → Text → Option Text
unfolding lookup
get_option sections section name = get_in name (lookup section sections)
