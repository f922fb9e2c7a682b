-- ===== src/Conf/Lookups.antt =====
-- letmein-conf/src/lib.rs: what `Config::resource_id_by_port` finds.
use letmein.Base.{
  nat_has_eq, ℕ, ◌≡◌, refl, ◌⊎◌, inl, true, Option, none, some, List, [], ◌∷◌, arith, inr, false,
  ◌&&◌, nat_eq, if◌then◌else◌, Bool-cases, sym, subst,
}
use letmein.Base.Assoc.{lookup, Distinct}
use letmein.Conf.{Resource, port_resource, allows, resource_id_by_port}
use letmein.Proto.Message.{UserId, ResourceId}

abbrev pub port_of : Resource → ℕ
port_of (port_resource p tcp? udp? users) = p

-- The resource `r` is for the port and allowed to the user, where one is given.
abbrev pub Fits : ℕ → Option UserId → Resource → Type 0
Fits p user r = (port_of r ≡ p) × (allows r user ≡ true)

-- In a configuration with distinct resource ids, the look-up of a resource by its port returns the
-- id of a resource for this port which the user, where one is given, may use; where it returns
-- none, there is no such resource.
pub resource_id_by_port-Fits :
    (rs : List (ResourceId × Resource)) (p : ℕ) (user : Option UserId)
    → Distinct rs
    → ((resource_id_by_port rs p user ≡ none)
        × ((id : ResourceId) (r : Resource) → lookup id rs ≡ some r → ¬ Fits p user r))
      ⊎ ((id : ResourceId) × (r : Resource) × (resource_id_by_port rs p user ≡ some id)
          × (lookup id rs ≡ some r)
          × Fits p user r)
unfolding resource_id_by_port lookup
resource_id_by_port-Fits [] p user d = inl (refl, λ id r e. absurd (ground (arith, e)))
resource_id_by_port-Fits ((j, port_resource q t u us) ∷ rs) p user d =
    elim (Bool-cases (nat_eq q p && allows (port_resource q t u us) user)) [
      | inl hit ↦ inr (
        j,
        port_resource q t u us,
        ground (arith, hit),
        ground arith,
        (ground (arith, hit), ground (arith, hit)),
      )
      | inr miss ↦ elim (resource_id_by_port-Fits rs p user d.1) [
        | inl (missing, none_fits) ↦
            inl (rw (miss) missing, λ id r e fits. later id r e fits miss none_fits)
        | inr (id, r, found, here, fits) ↦
            inr (id, r, rw (miss) found, ground (arith, d.0, here), fits)
      ]
    ]
  where
    later :
        (id : ResourceId) (r : Resource)
        → (if nat_eq j id then some (port_resource q t u us) else lookup id rs) ≡ some r
        → Fits p user r
        → (nat_eq q p && allows (port_resource q t u us) user) ≡ false
        → ((i : ResourceId) (x : Resource) → lookup i rs ≡ some x → ¬ Fits p user x)
        → ⊥
    later id r e fits miss none_fits = elim (Bool-cases (nat_eq j id)) [
      | inl same ↦
          let is : port_resource q t u us ≡ r = ground (arith, e, same) in
          let here = subst (Fits p user) (sym is) fits in ground (arith, here.0, here.1, miss)
      | inr other ↦ none_fits id r (ground (arith, e, other)) fits
    ]
