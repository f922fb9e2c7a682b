-- ===== src/Conf/Ini/Sections.antt =====
-- letmein-conf/src/ini.rs: `Ini::parse_str` does not panic, and its sections have distinct names.
use letmein.Base.{
  list_has_eq, ◌>>=◌, ◌≡◌, refl, subst, ◌≢◌, Bool, true, false, Option, none, some, List, [], ◌∷◌,
  arith, nat_eq, if◌then◌else◌, list_eq_iff, Result, ok, err, panic, ok_inj,
}
use letmein.Base.Assoc.{lookup, insert, Distinct, lookup-insert, insert-Distinct}
use letmein.Base.Texts.{Text}
use letmein.Conf.Ini.{
  Options, Sections, lines, strip_bracket, Reading, add_section, open_section, put_option,
  named_option, add_option, trimmed_line, read_line, read_lines, sections_of, parse_str,
}
use letmein.Conf.Parsing.{ConfError, trim_start, trim_end, find}

-- The names of the sections differ, and the section that is being read is one of them.
abbrev Open : Sections → Option Text → Type 0
Open sections none = Unit {0}
Open sections (some name) = lookup name sections ≢ none

abbrev Consistent : Reading → Type 0
Consistent (sections, in_section) = Distinct sections × Open sections in_section

abbrev Fine : Result ConfError Reading → Type 0
Fine (ok r) = Consistent r
Fine (err e) = Unit {0}
Fine panic = ⊥

insert-Fine :
    (sections : Sections) (name : Text) (options : Options)
    → Distinct sections
    → Fine (ok (insert name options sections, some name))
insert-Fine sections name options d = (
  insert-Distinct name options sections d,
  λ e. absurd (ground (arith, e, lookup-insert name name options sections, list_eq_iff name name)),
)

add_section-Fine :
    (sections : Sections) (name : Text) (found : Option Options)
    → Distinct sections
    → Fine (add_section sections name found)
add_section-Fine sections name none d = insert-Fine sections name [] d
add_section-Fine sections name (some options) d = tt

if-Fine :
    (test : Bool) (m n : Result ConfError Reading) → Fine m → Fine n → Fine (if test then m else n)
if-Fine true m n a b = a
if-Fine false m n a b = b

open_section-Fine :
    (sections : Sections) (name : Option Text)
    → Distinct sections
    → Fine (open_section sections name)
unfolding open_section
open_section-Fine sections none d = tt
open_section-Fine sections (some []) d = tt
open_section-Fine sections (some (c ∷ s)) d =
    add_section-Fine sections (c ∷ s) (lookup (c ∷ s) sections) d

put_option-Fine :
    (sections : Sections) (section name value : Text) (found : Option Options)
    → Distinct sections
    → found ≢ none
    → Fine (put_option sections section name value found)
put_option-Fine sections section name value none d n = absurd (n refl)
put_option-Fine sections section name value (some options) d n =
    insert-Fine sections section (insert name value options) d

named_option-Fine :
    (sections : Sections) (section : Text) (found : Option (Text × Text))
    → Distinct sections
    → Open sections (some section)
    → Fine (named_option sections section found)
named_option-Fine sections section none d o = tt
named_option-Fine sections section (some ([], value)) d o = tt
named_option-Fine sections section (some (c ∷ name, value)) d o =
    put_option-Fine sections section (trim_end (c ∷ name)) value (lookup section sections) d o

add_option-Fine :
    (sections : Sections) (in_section : Option Text) (line : Text)
    → Consistent (sections, in_section)
    → Fine (add_option sections in_section line)
unfolding add_option
add_option-Fine sections none line c = tt
add_option-Fine sections (some section) line (d, o) =
    named_option-Fine sections section (find 61 line) d o

trimmed_line-Fine : (r : Reading) (line : Text) → Consistent r → Fine (trimmed_line r line)
trimmed_line-Fine (sections, in_section) [] c = c
trimmed_line-Fine (sections, in_section) (x ∷ line) (d, o) =
    if-Fine (nat_eq x 35) (ok (sections, in_section))
      (if nat_eq x 91
        then open_section sections (strip_bracket (trim_end line))
        else add_option sections in_section (x ∷ line))
      (d, o)
      (if-Fine (nat_eq x 91) (open_section sections (strip_bracket (trim_end line)))
        (add_option sections in_section (x ∷ line))
        (open_section-Fine sections (strip_bracket (trim_end line)) d)
        (add_option-Fine sections in_section (x ∷ line) (d, o)))

bind-Fine :
    (m : Result ConfError Reading) (f : Reading → Result ConfError Reading)
    → Fine m
    → ((r : Reading) → Consistent r → Fine (f r))
    → Fine (m >>= f)
bind-Fine (ok r) f c k = k r c
bind-Fine (err e) f c k = tt
bind-Fine panic f c k = c

read_lines-Fine : (r : Reading) (ls : List Text) → Consistent r → Fine (read_lines r ls)
unfolding read_lines read_line
read_lines-Fine r [] c = c
read_lines-Fine r (line ∷ rest) c =
    bind-Fine (read_line r line) (λ r'. read_lines r' rest)
      (trimmed_line-Fine r (trim_start line) c) (λ r' c'. read_lines-Fine r' rest c')

sections-Distinct :
    (m : Result ConfError Reading)
    → Fine m
    → ((m >>= (λ r. ok (sections_of r))) ≢ panic)
      × ((sections : Sections)
          → (m >>= (λ r. ok (sections_of r))) ≡ ok sections
          → Distinct sections)
sections-Distinct (ok (sections, s)) (d, o) = (λ e. cc, λ other e. subst Distinct (ok_inj e) d)
sections-Distinct (err x) c = (λ e. cc, λ other e. cc)
sections-Distinct panic c = absurd c

-- `parse_str` never panics at its `unwrap`, and the sections it returns have distinct names.
pub parse_str-Distinct :
    (content : Text)
    → (parse_str content ≢ panic)
      × ((sections : Sections) → parse_str content ≡ ok sections → Distinct sections)
unfolding parse_str
parse_str-Distinct content =
    sections-Distinct (read_lines ([], none) (lines content))
      (read_lines-Fine ([], none) (lines content) (tt, tt))
