-- ===== src/Hardening/Ssrf/Accepted.antt =====
-- packages/hardening/src/ssrf.ts: what a URL that passes is.
use mathlib.Core.Bool.{false≢true}
use square.Base.{
  ℕ, ◌≤◌, ◌≡◌, refl, sym, ◌∙◌, subst, ◌⊎◌, inl, inr, Bool, true, false, not, ◌&&◌, ◌||◌, Option,
  none, some, get_or, List, [], ◌∷◌, Text, codes, text_beq, text_beq_iff, nat_beq, nat_beq_iff, any,
  All, Exists, Bool-cases, length, arith,
}
use square.Hardening.Ssrf.Addresses.{public, invalid, same_scope, parse_dotted_quad}
use square.Hardening.Ssrf.PublicIpv4.{IsOutsideQuad, All-IsOutsideQuad}
use square.Hardening.Ssrf.Host.{
  IsHost, IsElsewhere, is_loopback_name-IsElsewhere, strip_brackets-IsHost, both_true,
}
use square.Hardening.Ssrf.{
  SsrfRejectionCode, ResolvedAddress, ParsedUrl, PublicUrlOptions, ValidatedUrl, Checked, accepted,
  rejected, default_allowed_ports, classify_address, is_public_address, is_loopback_name,
  strip_brackets, literal_address, resolved, resolve_hostname, refused_address, addresses_at,
  addresses_of, validated, check_addresses, check_host, port_of, check_parsed, check_url,
  assert_public_url,
}

abbrev pub AllPublic : PublicUrlOptions → List ResolvedAddress → Type 0
AllPublic o addresses = All (λ a. is_public_address o.family_of a.address ≡ true) addresses

-- The addresses are the one the host spells out, or what the resolver says of it.
abbrev pub IsLocated : PublicUrlOptions → Text → List ResolvedAddress → Type 0
IsLocated o hostname addresses =
    (o.lookup hostname ≡ some addresses)
    ⊎ ((a : ResolvedAddress) × (literal_address o.family_of hostname ≡ accepted (some a))
        × (addresses ≡ a ∷ []))

-- The scheme, and the port that is given or that the scheme stands for.
abbrev pub IsWeb : ParsedUrl → ℕ → Type 0
IsWeb url port =
    ((url.protocol ≡ codes "http:") × (port ≡ get_or url.port 80))
    ⊎ ((url.protocol ≡ codes "https:") × (port ≡ get_or url.port 443))

pub record IsPublicUrl (o : PublicUrlOptions) (url : Text) (v : ValidatedUrl) : Type 0 where
  pub parsed : o.parse_url url ≡ some v.url
  pub scheme : IsWeb v.url v.port
  pub no_username : v.url.username ≡ []
  pub no_password : v.url.password ≡ []
  pub port_allowed : Exists (λ p. p ≡ v.port) (get_or o.allowed_ports default_allowed_ports)
  pub host : IsHost v.url.hostname v.hostname
  pub not_loopback : IsElsewhere v.hostname
  pub located : IsLocated o v.hostname v.addresses
  pub some_address : 1 ≤ length v.addresses
  pub all_public : AllPublic o v.addresses
  pub outside : All (λ a. IsOutsideQuad (parse_dotted_quad o.family_of a.address)) v.addresses

-- What an answer says, when it accepts.
IfAccepted : {A : Type 0} → (A → Type 0) → Checked A → Type 0
IfAccepted P (rejected code) = Unit
IfAccepted P (accepted a) = P a

AllPublicUnless : PublicUrlOptions → List ResolvedAddress → Option SsrfRejectionCode → Type 0
AllPublicUnless o addresses none = AllPublic o addresses
AllPublicUnless o addresses (some code) = Unit

AllPublicUnless-cons :
    (o : PublicUrlOptions) (a : ResolvedAddress) (others : List ResolvedAddress)
    (refusal : Option SsrfRejectionCode)
    → is_public_address o.family_of a.address ≡ true
    → AllPublicUnless o others refusal
    → AllPublicUnless o (a ∷ others) refusal
unfolding AllPublicUnless
AllPublicUnless-cons o a others none good rest = (good, rest)
AllPublicUnless-cons o a others (some code) good rest = tt

refused_address-AllPublic :
    (o : PublicUrlOptions) (addresses : List ResolvedAddress)
    → o.allow_private ≡ false
    → AllPublicUnless o addresses (refused_address o addresses)
unfolding refused_address AllPublicUnless is_public_address
refused_address-AllPublic o [] strict = tt
refused_address-AllPublic o (a ∷ others) strict =
    elim (Bool-cases (same_scope (classify_address o.family_of a.address) invalid)) [
      | inl bad ↦ rw bad tt
      | inr valid ↦ elim (Bool-cases (same_scope (classify_address o.family_of a.address) public)) [
        | inl good ↦
            rw (valid, good)
              (AllPublicUnless-cons o a others (refused_address o others) good
                (refused_address-AllPublic o others strict))
        | inr private ↦ rw (valid, private, strict) tt
      ]
    ]

any-Exists :
    (port : ℕ) (ports : List ℕ)
    → any (λ p. nat_beq p port) ports ≡ true
    → Exists (λ p. p ≡ port) ports
any-Exists port [] h = cc
any-Exists port (p ∷ ports) h = elim (Bool-cases (nat_beq p port)) [
  | inl same ↦ inl ((nat_beq_iff p port).0 same)
  | inr other ↦
      inr
        (any-Exists port ports (subst (λ b. (b || any (λ q. nat_beq q port) ports) ≡ true) other h))
]

AddressesKnown : PublicUrlOptions → Text → List ResolvedAddress → Type 0
AddressesKnown o hostname addresses = IsLocated o hostname addresses × (1 ≤ length addresses)

resolved_at-Known :
    (o : PublicUrlOptions) (hostname : Text) (answer : Option (List ResolvedAddress))
    → o.lookup hostname ≡ answer
    → IfAccepted (AddressesKnown o hostname) (resolved answer)
unfolding resolved IfAccepted AddressesKnown
resolved_at-Known o hostname none is = tt
resolved_at-Known o hostname (some []) is = tt
resolved_at-Known o hostname (some (a ∷ others)) is = (inl is, omega arith)

addresses_at-Known :
    (o : PublicUrlOptions) (hostname : Text) (literal : Checked (Option ResolvedAddress))
    → literal_address o.family_of hostname ≡ literal
    → IfAccepted (AddressesKnown o hostname) (addresses_at o hostname literal)
unfolding addresses_at resolve_hostname IfAccepted AddressesKnown
addresses_at-Known o hostname (rejected code) is = tt
addresses_at-Known o hostname (accepted none) is =
    resolved_at-Known o hostname (o.lookup hostname) refl
addresses_at-Known o hostname (accepted (some a)) is = (inr (a, is, refl), omega arith)

either_true : (b c : Bool) → (b || c) ≡ true → (b ≡ true) ⊎ (c ≡ true)
either_true true c h = inl refl
either_true false c h = inr h

port_of-IsWeb :
    (parsed : ParsedUrl)
    → (text_beq parsed.protocol (codes "http:") || text_beq parsed.protocol (codes "https:")) ≡ true
    → IsWeb parsed (port_of parsed)
port_of-IsWeb parsed web = elim (Bool-cases (text_beq parsed.protocol (codes "https:"))) [
  | inl p ↦ inr ((text_beq_iff parsed.protocol (codes "https:")).0 p, rw p refl)
  | inr n ↦
      elim (either_true (text_beq parsed.protocol (codes "http:"))
        (text_beq parsed.protocol (codes "https:")) web) [
          | inl p ↦ inl ((text_beq_iff parsed.protocol (codes "http:")).0 p, rw n refl)
          | inr p ↦ absurd (false≢true (sym n ∙ p))
        ]
]

-- What the steps before the host have seen to.
module _ (o : PublicUrlOptions) (url : Text) (parsed : ParsedUrl)
    (read : o.parse_url url ≡ some parsed) where
  pub record IsScreened : Type 0 where
    pub scheme : IsWeb parsed (port_of parsed)
    pub no_username : parsed.username ≡ []
    pub no_password : parsed.password ≡ []
    pub port_allowed :
        Exists (λ p. p ≡ port_of parsed) (get_or o.allowed_ports default_allowed_ports)

  module _ (strict : o.allow_private ≡ false) (screened : IsScreened)
      (named : is_loopback_name (strip_brackets parsed.hostname) ≡ false) where
    validated-IsPublicUrl :
        (addresses : List ResolvedAddress) (refusal : Option SsrfRejectionCode)
        → AddressesKnown o (strip_brackets parsed.hostname) addresses
        → AllPublicUnless o addresses refusal
        → IfAccepted (IsPublicUrl o url) (validated parsed (port_of parsed) addresses refusal)
    unfolding validated IfAccepted AllPublicUnless AddressesKnown
    validated-IsPublicUrl addresses (some code) known seen = tt
    validated-IsPublicUrl addresses none (located, some_address) seen = record {
      parsed = read;
      scheme = screened.scheme;
      host = strip_brackets-IsHost parsed.hostname;
      no_username = screened.no_username;
      no_password = screened.no_password;
      port_allowed = screened.port_allowed;
      not_loopback = is_loopback_name-IsElsewhere (strip_brackets parsed.hostname) named;
      located = located;
      some_address = some_address;
      all_public = seen;
      outside = All-IsOutsideQuad o.family_of addresses seen;
    }

    check_addresses-IsPublicUrl :
        (answer : Checked (List ResolvedAddress))
        → IfAccepted (AddressesKnown o (strip_brackets parsed.hostname)) answer
        → IfAccepted (IsPublicUrl o url) (check_addresses o parsed (port_of parsed) answer)
    unfolding check_addresses IfAccepted
    check_addresses-IsPublicUrl (rejected code) known = tt
    check_addresses-IsPublicUrl (accepted addresses) known =
        validated-IsPublicUrl addresses (refused_address o addresses) known
          (refused_address-AllPublic o addresses strict)

  check_host-IsPublicUrl :
      o.allow_private ≡ false
      → IsScreened
      → IfAccepted (IsPublicUrl o url) (check_host o parsed (port_of parsed))
  unfolding check_host IfAccepted addresses_of
  check_host-IsPublicUrl strict screened =
      elim (Bool-cases (text_beq (strip_brackets parsed.hostname) [])) [
        | inl nameless ↦ rw nameless tt
        | inr given ↦
            elim (Bool-cases
              (not o.allow_private && is_loopback_name (strip_brackets parsed.hostname))) [
                | inl local ↦ rw (given, local) tt
                | inr named ↦
                    rw (given, named)
                      (check_addresses-IsPublicUrl strict screened
                        (subst
                          (λ b.
                            (not b && is_loopback_name (strip_brackets parsed.hostname)) ≡ false)
                          strict named)
                        (addresses_of o (strip_brackets parsed.hostname))
                        (addresses_at-Known o (strip_brackets parsed.hostname)
                          (literal_address o.family_of (strip_brackets parsed.hostname)) refl))
              ]
      ]

  check_parsed-IsPublicUrl :
      o.allow_private ≡ false → IfAccepted (IsPublicUrl o url) (check_parsed o parsed)
  unfolding check_parsed IfAccepted
  check_parsed-IsPublicUrl strict =
      elim (Bool-cases
        (text_beq parsed.protocol (codes "http:") || text_beq parsed.protocol (codes "https:"))) [
          | inr other ↦ rw other tt
          | inl web ↦
              elim (Bool-cases (text_beq parsed.username [] && text_beq parsed.password [])) [
                | inr credentials ↦ rw (web, credentials) tt
                | inl plain ↦
                    elim (Bool-cases (
                      any (λ p. nat_beq p (port_of parsed))
                        (get_or o.allowed_ports default_allowed_ports))) [
                          | inr closed ↦ rw (web, plain, closed) tt
                          | inl on_list ↦
                              rw (web, plain, on_list)
                                (check_host-IsPublicUrl strict (record {
                                  scheme = port_of-IsWeb parsed web;
                                  no_username =
                                      (text_beq_iff parsed.username []).0
                                        (both_true (text_beq parsed.username [])
                                          (text_beq parsed.password []) plain).0;
                                  no_password =
                                      (text_beq_iff parsed.password []).0
                                        (both_true (text_beq parsed.username [])
                                          (text_beq parsed.password []) plain).1;
                                  port_allowed =
                                      any-Exists (port_of parsed)
                                        (get_or o.allowed_ports default_allowed_ports) on_list;
                                }))
                        ]
              ]
        ]

check_url-IsPublicUrl :
    (o : PublicUrlOptions) (url : Text) (parsed : Option ParsedUrl)
    → o.parse_url url ≡ parsed
    → o.allow_private ≡ false
    → IfAccepted (IsPublicUrl o url) (check_url o parsed)
unfolding check_url IfAccepted
check_url-IsPublicUrl o url none read strict = tt
check_url-IsPublicUrl o url (some parsed) read strict =
    check_parsed-IsPublicUrl o url parsed read strict

-- Where private addresses are not let through, a URL that passes is parsed as one of HTTP or HTTPS, without
-- credentials, to a port on the list, the scheme's own where none is given. Its host is what stands
-- between the brackets of the parsed name, or the name where it has none, and neither localhost nor a
-- name below it; its addresses are the host's own or all that the resolver answered, at least one of
-- them, and each is public, one in dotted form outside the intervals of IPv4 that are not.
pub assert_public_url-IsPublicUrl :
    (o : PublicUrlOptions) (url : Text) (v : ValidatedUrl)
    → o.allow_private ≡ false
    → assert_public_url o url ≡ accepted v
    → IsPublicUrl o url v
unfolding assert_public_url IfAccepted
assert_public_url-IsPublicUrl o url v strict passes =
    subst (IfAccepted (IsPublicUrl o url)) passes
      (check_url-IsPublicUrl o url (o.parse_url url) refl strict)
