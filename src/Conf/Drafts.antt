-- ===== src/Conf/Drafts.antt =====
-- letmein-conf/src/lib.rs: the port that the items of a resource give.
use letmein.Base.{
  ◌^◌, ◌<◌, ◌≡◌, subst, true, none, some, List, [], ◌∷◌, arith, ok, ok_inj, bind-eq-ok,
}
use letmein.Base.Texts.{Text}
use letmein.Conf.Parsing.{parse_u16, parse_u16-lt}
use letmein.Conf.Resources.{
  MapItem, key_value, key_values, only_values, Draft, draft, take_port, take_users, take_protocols,
  take_item, take_items,
}

-- The port of a draft, where it has one, is a `u16`.
abbrev pub Bounded : Draft → Type 0
Bounded (draft none users t u) = Unit {0}
Bounded (draft (some p) users t u) = p < 2 ^ 16

take_port-Bounded : (d : Draft) (v : Text) (d' : Draft) → take_port d v ≡ ok d' → Bounded d'
unfolding take_port
take_port-Bounded (draft none users t u) v d' e =
    let (p, parsed, taken) = bind-eq-ok (parse_u16 v) (λ p. ok (draft (some p) users t u)) e in
    subst Bounded (ok_inj taken) (parse_u16-lt v p parsed)
take_port-Bounded (draft (some q) users t u) v d' e = cc

take_users-Bounded :
    (d : Draft) (vs : List Text) (d' : Draft) → Bounded d → take_users d vs ≡ ok d' → Bounded d'
unfolding take_users
take_users-Bounded (draft none [] t u) vs d' b e = subst Bounded (ok_inj e) tt
take_users-Bounded (draft (some q) [] t u) vs d' b e = subst Bounded (ok_inj e) b
take_users-Bounded (draft none (x ∷ xs) t u) vs d' b e = cc
take_users-Bounded (draft (some q) (x ∷ xs) t u) vs d' b e = cc

take_protocols-Bounded :
    (d : Draft) (vs : List Text) (d' : Draft) → Bounded d → take_protocols d vs ≡ ok d' → Bounded d'
unfolding take_protocols
take_protocols-Bounded d [] d' b e = subst Bounded (ok_inj e) b
take_protocols-Bounded (draft none users t u) (v ∷ vs) d' b e = ground (
  arith,
  take_protocols-Bounded (draft none users true u) vs d' tt,
  take_protocols-Bounded (draft none users t true) vs d' tt,
)
take_protocols-Bounded (draft (some p) users t u) (v ∷ vs) d' b e = ground (
  arith,
  take_protocols-Bounded (draft (some p) users true u) vs d' b,
  take_protocols-Bounded (draft (some p) users t true) vs d' b,
)

take_item-Bounded :
    (d : Draft) (i : MapItem) (d' : Draft) → Bounded d → take_item d i ≡ ok d' → Bounded d'
unfolding take_item
take_item-Bounded d (key_value k v) d' b e =
    ground (arith, take_port-Bounded d v d', take_users-Bounded d (v ∷ []) d' b)
take_item-Bounded d (key_values k vs) d' b e = ground (arith, take_users-Bounded d vs d' b)
take_item-Bounded d (only_values vs) d' b e = take_protocols-Bounded d vs d' b e

pub take_items-Bounded :
    (d : Draft) (is : List MapItem) (d' : Draft) → Bounded d → take_items d is ≡ ok d' → Bounded d'
unfolding take_items
take_items-Bounded d [] d' b e = subst Bounded (ok_inj e) b
take_items-Bounded d (i ∷ is) d' b e =
    let (m, taken, rest) = bind-eq-ok (take_item d i) (λ m. take_items m is) e in
    take_items-Bounded m is d' (take_item-Bounded d i m b taken) rest
