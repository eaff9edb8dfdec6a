-- ===== src/Hardening/Ssrf/Pinned.antt =====
-- packages/hardening/src/ssrf.ts, createPinnedLookup: the addresses that a fetch may connect to.
use square.Base.{
  ℕ, ◌≡◌, inl, inr, Bool, true, false, Option, none, some, List, [], ◌∷◌, Text, codes, text_beq,
  nat_beq, All, filter, Bool-cases, if◌then◌else◌,
}
use square.Hardening.Ssrf.Addresses.{Family, ipv4, ipv6, not_ip}
use square.Hardening.Ssrf.{
  ResolvedAddress, PublicUrlOptions, ValidatedUrl, accepted, is_public_address, assert_public_url,
}
use square.Hardening.Ssrf.Accepted.{assert_public_url-IsPublicUrl}

-- `family` of the options of a lookup.
pub data FamilyOption : Type 0 where
  unset : FamilyOption
  by_number : ℕ → FamilyOption
  by_name : Text → FamilyOption

-- None for the source's 0, any family.
unfoldable pub requested_family : FamilyOption → Option Family
requested_family unset = none
requested_family (by_number n) =
    if nat_beq n 4 then some ipv4 else if nat_beq n 6 then some ipv6 else none
requested_family (by_name name) =
    if text_beq name (codes "IPv4")
    then some ipv4
    else if text_beq name (codes "IPv6")
    then some ipv6
    else none

unfoldable pub same_family : Family → Family → Bool
same_family ipv4 ipv4 = true
same_family ipv6 ipv6 = true
same_family not_ip not_ip = true
same_family _ _ = false

-- What the callback of a lookup gets.
pub data Pinned : Type 0 where
  not_found : Pinned
  all_of : List ResolvedAddress → Pinned
  one_of : Text → Family → Pinned

unfoldable pub matching : List ResolvedAddress → Option Family → List ResolvedAddress
matching addresses none = addresses
matching addresses (some family) = filter (λ a. same_family a.family family) addresses

unfoldable pub answer_of : Bool → List ResolvedAddress → Pinned
answer_of wants_all [] = not_found
answer_of wants_all (first ∷ others) =
    if wants_all then all_of (first ∷ others) else one_of first.address first.family

unfoldable pub create_pinned_lookup : List ResolvedAddress → FamilyOption → Bool → Pinned
create_pinned_lookup addresses family wants_all =
    answer_of wants_all (matching addresses (requested_family family))

-- The addresses of an answer satisfy a predicate.
abbrev pub AllPinned : (ResolvedAddress → Type 0) → Pinned → Type 0
AllPinned P not_found = Unit
AllPinned P (all_of addresses) = All P addresses
AllPinned P (one_of address family) = P (record { address = address; family = family })

abbrev pub IsOfFamily : Option Family → ResolvedAddress → Type 0
IsOfFamily none a = Unit
IsOfFamily (some family) a = same_family a.family family ≡ true

-- What an answer may hold: public addresses of the family that was asked for.
abbrev pub IsReachable : PublicUrlOptions → FamilyOption → ResolvedAddress → Type 0
IsReachable o family a =
    (is_public_address o.family_of a.address ≡ true) × IsOfFamily (requested_family family) a

module _ (P : ResolvedAddress → Type 0) where
  matching-All :
      (addresses : List ResolvedAddress) (family : Option Family)
      → All P addresses
      → All (λ a. P a × IsOfFamily family a) (matching addresses family)
  unfolding matching
  matching-All [] none h = tt
  matching-All [] (some family) h = tt
  matching-All (a ∷ addresses) none (p, h) = ((p, tt), matching-All addresses none h)
  matching-All (a ∷ addresses) (some family) (p, h) =
      elim (Bool-cases (same_family a.family family)) [
        | inl same ↦ rw same ((p, same), matching-All addresses (some family) h)
        | inr other ↦ rw other (matching-All addresses (some family) h)
      ]

  answer_of-All :
      (wants_all : Bool) (addresses : List ResolvedAddress)
      → All P addresses
      → AllPinned P (answer_of wants_all addresses)
  unfolding answer_of
  answer_of-All wants_all [] h = tt
  answer_of-All true (a ∷ addresses) h = h
  answer_of-All false (a ∷ addresses) (p, h) = p

-- Where private addresses are not let through, the lookup that is pinned to a URL that passed answers public
-- addresses only, all of the family that was asked for.
pub create_pinned_lookup-IsReachable :
    (o : PublicUrlOptions) (url : Text) (v : ValidatedUrl) (family : FamilyOption)
    (wants_all : Bool)
    → o.allow_private ≡ false
    → assert_public_url o url ≡ accepted v
    → AllPinned (IsReachable o family) (create_pinned_lookup v.addresses family wants_all)
unfolding create_pinned_lookup
create_pinned_lookup-IsReachable o url v family wants_all strict passes =
    answer_of-All (IsReachable o family) wants_all (matching v.addresses (requested_family family))
      (matching-All (λ a. is_public_address o.family_of a.address ≡ true) v.addresses
        (requested_family family) (assert_public_url-IsPublicUrl o url v strict passes).all_public)
