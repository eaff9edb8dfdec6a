-- ===== src/Hardening/Ssrf/PublicIpv4.antt =====
-- packages/hardening/src/ssrf.ts: an address in dotted form that is public is outside the intervals.
use square.Base.{
  ℕ, ◌≡◌, refl, sym, ap, subst, ◌∙◌, inl, inr, true, Option, none, some, List, [], ◌∷◌, Text, All,
  Option-cases,
}
use square.Hardening.Ssrf.Addresses.{
  AddressScope, public, unspecified, loopback, private_scope, link_local, multicast, reserved,
  invalid, same_scope, Family, ipv4, ipv6, not_ip, parse_dotted_quad,
}
use square.Hardening.Ssrf.Scopes.{classify_ipv4}
use square.Hardening.Ssrf.Outside.{IsOutside, not_public, classify_ipv4-IsOutside}
use square.Hardening.Ssrf.{ResolvedAddress, classify_address, is_public_address}

-- The value of an address in dotted form is in none of the intervals.
abbrev pub IsOutsideQuad : Option ℕ → Type 0
IsOutsideQuad none = Unit
IsOutsideQuad (some value) = IsOutside value not_public

is_public : (scope : AddressScope) → same_scope scope public ≡ true → scope ≡ public
unfolding same_scope
is_public public h = refl
is_public unspecified h = cc
is_public loopback h = cc
is_public private_scope h = cc
is_public link_local h = cc
is_public multicast h = cc
is_public reserved h = cc
is_public invalid h = cc

quad_scope :
    (family_of : Text → Family) (address : Text) (value : ℕ)
    → family_of address ≡ ipv4
    → parse_dotted_quad family_of address ≡ some value
    → classify_address family_of address ≡ classify_ipv4 value
unfolding classify_address
quad_scope family_of address value is found = rw (is, found, classify_address) refl

of_family-IsOutsideQuad :
    (family_of : Text → Family) (address : Text) (x : Family)
    → family_of address ≡ x
    → is_public_address family_of address ≡ true
    → IsOutsideQuad (parse_dotted_quad family_of address)
unfolding is_public_address parse_dotted_quad
of_family-IsOutsideQuad family_of address ipv6 is h = rw (is, parse_dotted_quad) tt
of_family-IsOutsideQuad family_of address not_ip is h = rw (is, parse_dotted_quad) tt
of_family-IsOutsideQuad family_of address ipv4 is h =
    elim (Option-cases (parse_dotted_quad family_of address)) [
      | inl missing ↦ subst IsOutsideQuad (sym missing) tt
      | inr (value, found) ↦ subst IsOutsideQuad (sym found) (
          classify_ipv4-IsOutside value (
            is_public (classify_ipv4 value) (
              ap (λ s. same_scope s public) (sym (quad_scope family_of address value is found))
              ∙ h)))
    ]

pub All-IsOutsideQuad :
    (family_of : Text → Family) (addresses : List ResolvedAddress)
    → All (λ a. is_public_address family_of a.address ≡ true) addresses
    → All (λ a. IsOutsideQuad (parse_dotted_quad family_of a.address)) addresses
All-IsOutsideQuad family_of [] h = tt
All-IsOutsideQuad family_of (a ∷ addresses) (p, h) = (
  of_family-IsOutsideQuad family_of a.address (family_of a.address) refl p,
  All-IsOutsideQuad family_of addresses h,
)
