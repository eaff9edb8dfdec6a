-- ===== src/Hardening/Ssrf.antt =====
-- packages/hardening/src/ssrf.ts: which addresses are public, and which URLs may be fetched. Node's `isIPv4`
-- and `isIPv6`, the parser of URLs and the resolver are parameters.
pub mod Addresses
pub mod Ipv6
pub mod Scopes
pub mod Outside
mod PublicIpv4
mod Host
pub mod Accepted
pub mod Embedded
pub mod Pinned
pub mod ByteCap
pub mod Redirects
pub mod Carried
mod Tests
use square.Base.{
  ℕ, ◌-◌, Bool, true, false, not, ◌&&◌, ◌||◌, Option, none, some, List, [], ◌∷◌, ◌++◌, Text, codes,
  text_beq, nat_beq, any, leb, if◌then◌else◌, length, get_or, drop, take,
}
use mathlib.Core.List.{reverse}
use square.Hardening.Ssrf.Addresses.{
  AddressScope, public, invalid, same_scope, Family, ipv4, ipv6, not_ip, parse_dotted_quad,
  parse_ipv4_literal, ends_in_number, format_ipv4,
}
use square.Hardening.Ssrf.Ipv6.{parse_ipv6_literal}
use square.Hardening.Ssrf.Scopes.{classify_ipv4, classify_ipv6}

pub data SsrfRejectionCode : Type 0 where
  invalid_url unsupported_scheme credentials_in_url port_not_allowed invalid_host address_not_public
        dns_lookup_failed no_addresses redirect_follow_not_allowed too_many_redirects
        body_not_replayable response_too_large timeout :
      SsrfRejectionCode

pub record ResolvedAddress : Type 0 where
  pub address : Text
  pub family : Family

-- What the parser of URLs says, with its port as a number.
pub record ParsedUrl : Type 0 where
  pub protocol : Text
  pub username : Text
  pub password : Text
  pub port : Option ℕ
  pub hostname : Text

-- `family_of` is `isIP`; the resolver fails or answers.
pub record PublicUrlOptions : Type 0 where
  pub allowed_ports : Option (List ℕ)
  pub allow_private : Bool
  pub parse_url : Text → Option ParsedUrl
  pub family_of : Text → Family
  pub lookup : Text → Option (List ResolvedAddress)

pub record ValidatedUrl : Type 0 where
  pub url : ParsedUrl
  pub hostname : Text
  pub port : ℕ
  pub addresses : List ResolvedAddress

pub data Checked {ℓ} (A : Type ℓ) : Type ℓ where
  accepted : A → Checked A
  rejected : SsrfRejectionCode → Checked A

abbrev default_allowed_ports : List ℕ
default_allowed_ports = 80 ∷ 443 ∷ []

unfoldable pub classify_address : (Text → Family) → Text → AddressScope
classify_address family_of address = elim (family_of address) [
  | ipv4 ↦ elim (parse_dotted_quad family_of address) [
    | none ↦ invalid
    | some value ↦ classify_ipv4 value
  ]
  | ipv6 ↦ elim (parse_ipv6_literal family_of address) [
    | none ↦ invalid
    | some words ↦ classify_ipv6 words
  ]
  | not_ip ↦ invalid
]

unfoldable pub is_public_address : (Text → Family) → Text → Bool
is_public_address family_of address = same_scope (classify_address family_of address) public

-- A text without its last unit; the last unit of a text.
init_of : Text → Text
init_of [] = []
init_of (c ∷ []) = []
init_of (c ∷ d ∷ text) = c ∷ init_of (d ∷ text)

ends_with : Text → Text → Bool
ends_with part text = text_beq (drop (length text - length part) text) part

unfoldable pub strip_brackets : Text → Text
unfolding init_of ends_with
strip_brackets hostname =
    if text_beq (take 1 hostname) (codes "[") && ends_with (codes "]") hostname
    then init_of (drop 1 hostname)
    else hostname

unfoldable pub is_loopback_name : Text → Bool
unfolding init_of ends_with
is_loopback_name hostname =
    let name = if ends_with (codes ".") hostname then init_of hostname else hostname in
    text_beq name (codes "localhost") || ends_with (codes ".localhost") name

unfoldable pub literal_address : (Text → Family) → Text → Checked (Option ResolvedAddress)
literal_address family_of hostname =
    let by_ipv4 = parse_ipv4_literal hostname in
    elim (family_of hostname) [
      | ipv6 ↦ accepted (some (record { address = hostname; family = ipv6 }))
      | _ ↦ elim by_ipv4 [
        | some value ↦ accepted (some (record { address = format_ipv4 value; family = ipv4 }))
        | none ↦ if ends_in_number hostname then rejected invalid_host else accepted none
      ]
    ]

unfoldable pub resolved : Option (List ResolvedAddress) → Checked (List ResolvedAddress)
resolved none = rejected dns_lookup_failed
resolved (some []) = rejected no_addresses
resolved (some (a ∷ others)) = accepted (a ∷ others)

unfoldable pub resolve_hostname : PublicUrlOptions → Text → Checked (List ResolvedAddress)
resolve_hostname o hostname = resolved (o.lookup hostname)

-- The loop over the addresses: why one is refused.
unfoldable pub refused_address : PublicUrlOptions → List ResolvedAddress → Option SsrfRejectionCode
refused_address o [] = none
refused_address o (a ∷ others) =
    let rest = refused_address o others in
    let scope = classify_address o.family_of a.address in
    if same_scope scope invalid
    then some invalid_host
    else if not (same_scope scope public) && not o.allow_private
    then some address_not_public
    else rest

unfoldable pub addresses_at :
    PublicUrlOptions → Text → Checked (Option ResolvedAddress) → Checked (List ResolvedAddress)
addresses_at o hostname (rejected code) = rejected code
addresses_at o hostname (accepted none) = resolve_hostname o hostname
addresses_at o hostname (accepted (some a)) = accepted (a ∷ [])

-- The host's own address, or the resolver's.
unfoldable pub addresses_of : PublicUrlOptions → Text → Checked (List ResolvedAddress)
addresses_of o hostname = addresses_at o hostname (literal_address o.family_of hostname)

unfoldable pub validated :
    ParsedUrl → ℕ → List ResolvedAddress → Option SsrfRejectionCode → Checked ValidatedUrl
validated parsed port addresses (some code) = rejected code
validated parsed port addresses none = accepted (record {
  url = parsed;
  hostname = strip_brackets parsed.hostname;
  port = port;
  addresses = addresses;
})

-- The addresses' scopes, once they are known.
unfoldable pub check_addresses :
    PublicUrlOptions → ParsedUrl → ℕ → Checked (List ResolvedAddress) → Checked ValidatedUrl
check_addresses o parsed port (rejected code) = rejected code
check_addresses o parsed port (accepted addresses) =
    validated parsed port addresses (refused_address o addresses)

-- From the host on.
unfoldable pub check_host : PublicUrlOptions → ParsedUrl → ℕ → Checked ValidatedUrl
check_host o parsed port =
    if text_beq (strip_brackets parsed.hostname) []
    then rejected invalid_host
    else if not o.allow_private && is_loopback_name (strip_brackets parsed.hostname)
    then rejected address_not_public
    else check_addresses o parsed port (addresses_of o (strip_brackets parsed.hostname))

abbrev pub port_of : ParsedUrl → ℕ
port_of parsed = get_or parsed.port (if text_beq parsed.protocol (codes "https:") then 443 else 80)

unfoldable pub check_parsed : PublicUrlOptions → ParsedUrl → Checked ValidatedUrl
check_parsed o parsed =
    if not (text_beq parsed.protocol (codes "http:") || text_beq parsed.protocol (codes "https:"))
    then rejected unsupported_scheme
    else if not (text_beq parsed.username [] && text_beq parsed.password [])
    then rejected credentials_in_url
    else if not
        (any (λ p. nat_beq p (port_of parsed)) (get_or o.allowed_ports default_allowed_ports))
    then rejected port_not_allowed
    else check_host o parsed (port_of parsed)

unfoldable pub check_url : PublicUrlOptions → Option ParsedUrl → Checked ValidatedUrl
check_url o none = rejected invalid_url
check_url o (some parsed) = check_parsed o parsed

unfoldable pub assert_public_url : PublicUrlOptions → Text → Checked ValidatedUrl
assert_public_url o url = check_url o (o.parse_url url)
