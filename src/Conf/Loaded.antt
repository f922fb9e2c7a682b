-- ===== src/Conf/Loaded.antt =====
-- letmein-conf/src/lib.rs: what `get_resources` returns.
use letmein.Base.{
  nat_has_eq, ◌>>=◌, ◌>>◌, ℕ, ◌^◌, ◌<◌, ◌≡◌, subst, true, false, not, ◌&&◌, ◌||◌, Option, none,
  some, List, [], ◌∷◌, arith, All, ok, guard, bind-eq-ok, ok_inj, with_err, inl, inr, nat_eq,
  Bool-cases,
}
use letmein.Base.Assoc.{lookup}
use letmein.Base.Texts.{Text}
use letmein.Conf.{Resource, port_resource, allows, resource_id_by_port}
use letmein.Conf.Drafts.{Bounded, take_items-Bounded}
use letmein.Conf.Lookups.{port_of}
use letmein.Conf.Parsing.{multiple_definitions, trim, parse_id, from_str_radix-lt, bad_user}
use letmein.Conf.Resources.{
  parse_map, Draft, draft, take_items, parse_users, is_new, finish_resource, load_resource,
  load_each, get_resources,
}
use letmein.Proto.Message.{UserId, ResourceId}

-- No resource of the list has this id or this port.
abbrev pub Apart : ResourceId → ℕ → List (ResourceId × Resource) → Type 0
Apart id p [] = Unit {0}
Apart id p ((i, port_resource q t u users) ∷ rs) = ¬ (i ≡ id) × ¬ (q ≡ p) × Apart id p rs

-- An id and a port in their ranges, a protocol, and users in their range
abbrev pub Sound : ResourceId → Resource → Type 0
Sound id (port_resource p t u users) =
    (id < 2 ^ 32) × (p < 2 ^ 16) × ((t || u) ≡ true) × All (λ user. user < 2 ^ 32) users

abbrev pub Loaded : List (ResourceId × Resource) → Type 0
Loaded [] = Unit {0}
Loaded ((id, r) ∷ rs) = Sound id r × Apart id (port_of r) rs × Loaded rs

is_new-Apart :
    (id : ResourceId) (p : ℕ) (rs : List (ResourceId × Resource))
    → is_new id p rs ≡ true
    → Apart id p rs
unfolding is_new
is_new-Apart id p [] e = tt
is_new-Apart id p ((i, port_resource q t u users) ∷ rs) e =
    (ground (arith, e), ground (arith, e), is_new-Apart id p rs (ground (arith, e)))

parse_users-lt :
    (us : List Text) (ids : List UserId) → parse_users us ≡ ok ids → All (λ user. user < 2 ^ 32) ids
unfolding parse_users parse_id
parse_users-lt [] ids e = subst (All (λ user. user < 2 ^ 32)) (ok_inj e) tt
parse_users-lt (u ∷ us) ids e =
    let (user, read, kept) =
      bind-eq-ok (with_err (parse_id u) bad_user)
        (λ user. do users ← parse_users us; ok (user ∷ users)) e in
    let (users, rest, built) = bind-eq-ok (parse_users us) (λ users. ok (user ∷ users)) kept in
    subst (All (λ user. user < 2 ^ 32)) (ok_inj built) (
      from_str_radix-lt 16 (2 ^ 32) (trim u) user (ground arith) (ground (arith, read)),
      parse_users-lt us users rest,
    )

finish_resource-Loaded :
    (rs : List (ResourceId × Resource)) (id : ResourceId) (d : Draft)
    (loaded : List (ResourceId × Resource))
    → Loaded rs
    → id < 2 ^ 32
    → Bounded d
    → finish_resource rs id d ≡ ok loaded
    → Loaded loaded
unfolding finish_resource
finish_resource-Loaded rs id (draft none users t u) loaded l i b e = cc
finish_resource-Loaded rs id (draft (some p) users t u) loaded l i b e =
    let (ids, parsed, kept) =
      bind-eq-ok (parse_users users)
        (λ ids. do
          guard (is_new id p rs) multiple_definitions
          ok ((id, port_resource p (t || (not t && not u)) u ids) ∷ rs))
        e in
    let (_, unused, built) =
      bind-eq-ok (guard (is_new id p rs) multiple_definitions)
        (λ x. ok ((id, port_resource p (t || (not t && not u)) u ids) ∷ rs)) kept in
    subst Loaded (ok_inj built) (
      (i, b, ground (arith, t), parse_users-lt users ids parsed),
      is_new-Apart id p rs (ground (arith, unused)),
      l,
    )

load_resource-Loaded :
    (rs : List (ResourceId × Resource)) (name value : Text) (loaded : List (ResourceId × Resource))
    → Loaded rs
    → load_resource rs name value ≡ ok loaded
    → Loaded loaded
unfolding load_resource parse_id
load_resource-Loaded rs name value loaded l e =
    let (id, read, kept) =
      bind-eq-ok (parse_id name)
        (λ id. do
          items ← parse_map value
          d ← take_items (draft none [] false false) items
          finish_resource rs id d)
        e in
    let (items, _, more) =
      bind-eq-ok (parse_map value)
        (λ items. do d ← take_items (draft none [] false false) items; finish_resource rs id d)
        kept in
    let (d, taken, built) =
      bind-eq-ok (take_items (draft none [] false false) items) (finish_resource rs id) more in
    finish_resource-Loaded rs id d loaded l
      (from_str_radix-lt 16 (2 ^ 32) (trim name) id (ground arith) read)
      (take_items-Bounded (draft none [] false false) items d tt taken) built

load_each-Loaded :
    (rs : List (ResourceId × Resource)) (options : List (Text × Text))
    (loaded : List (ResourceId × Resource))
    → Loaded rs
    → load_each rs options ≡ ok loaded
    → Loaded loaded
load_each-Loaded rs [] loaded l e = subst Loaded (ok_inj e) l
load_each-Loaded rs ((name, value) ∷ options) loaded l e =
    let (rs', one, rest) =
      bind-eq-ok (load_resource rs name value) (λ rs'. load_each rs' options) e in
    load_each-Loaded rs' options loaded (load_resource-Loaded rs name value rs' l one) rest

-- Where `get_resources` accepts the section of a configuration, every resource has an id of 32
-- bits, a port of 16 bits, TCP or UDP or both, and users with ids of 32 bits, and no two resources
-- share an id or a port.
pub get_resources-Loaded :
    (options : List (Text × Text)) (loaded : List (ResourceId × Resource))
    → get_resources options ≡ ok loaded
    → Loaded loaded
unfolding get_resources
get_resources-Loaded options loaded e = load_each-Loaded [] options loaded tt e

Apart-lookup :
    (id : ResourceId) (p : ℕ) (rs : List (ResourceId × Resource)) (i : ResourceId) (r : Resource)
    → Apart id p rs
    → lookup i rs ≡ some r
    → ¬ (i ≡ id) × ¬ (port_of r ≡ p)
unfolding lookup
Apart-lookup id p [] i r a e = absurd (ground (arith, e))
Apart-lookup id p ((j, port_resource q t u us) ∷ rs) i (port_resource q' t' u' us') (a, b, c) e =
    ground (arith, a, b, Apart-lookup id p rs i (port_resource q' t' u' us') c)

-- In a list of loaded resources, the look-up by the port of a resource which the user, where one
-- is given, may use returns the id of this very resource.
pub resource_id_by_port-port_of :
    (rs : List (ResourceId × Resource)) (id : ResourceId) (r : Resource) (user : Option UserId)
    → Loaded rs
    → lookup id rs ≡ some r
    → allows r user ≡ true
    → resource_id_by_port rs (port_of r) user ≡ some id
unfolding lookup resource_id_by_port
resource_id_by_port-port_of [] id r user l e may = absurd (ground (arith, e))
resource_id_by_port-port_of ((j, port_resource q t u us) ∷ rs) id (port_resource q' t' u' us') user
      (s, a, l) e may =
    ground (
      arith,
      may,
      Apart-lookup j q rs id (port_resource q' t' u' us') a,
      resource_id_by_port-port_of rs id (port_resource q' t' u' us') user l,
    )

pub lookup-Sound :
    (id : ResourceId) (rs : List (ResourceId × Resource)) (r : Resource)
    → Loaded rs
    → lookup id rs ≡ some r
    → Sound id r
unfolding lookup
lookup-Sound id [] r l e = cc
lookup-Sound id ((j, first) ∷ rs) r (s, a, l) e = elim (Bool-cases (nat_eq j id)) [
  | inl hit ↦
      let here : first ≡ r = ground (arith, hit, e) in
      let same_id : j ≡ id = ground (arith, hit) in
      subst (λ x. Sound x r) same_id (subst (Sound j) here s)
  | inr miss ↦ lookup-Sound id rs r l (ground (arith, miss, e))
]
