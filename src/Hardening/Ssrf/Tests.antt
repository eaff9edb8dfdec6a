-- ===== src/Hardening/Ssrf/Tests.antt =====
-- Runs of the guard of URLs (packages/hardening/src/ssrf.ts).
use square.Base.{
  All, length, ◌≤◌, to_lower_case, ◌≡◌, refl, none, some, List, [], ◌∷◌, Text, codes, text_beq,
  decimal, any, true, nat_beq, false, if◌then◌else◌,
}
use square.Hardening.Ssrf.Addresses
use square.Hardening.Ssrf.Ipv6
use square.Hardening.Ssrf.Scopes
use square.Hardening.Ssrf
use square.Hardening.Ssrf.Accepted.{IsPublicUrl, assert_public_url-IsPublicUrl}
use square.Hardening.Ssrf.Pinned.{
  by_name, one_of, same_family, requested_family, matching, answer_of, create_pinned_lookup,
  AllPinned, IsReachable, create_pinned_lookup-IsReachable,
}
use square.Hardening.Ssrf.Redirects.{
  Web, FetchInit, replayable, no_body, refused, kept_headers, redirected_init, redirect_to,
  answer_next, next_of, follow_next, follow_from, safe_fetch_following_redirects,
}
use square.Hardening.Ssrf.Carried.{IsCarried, safe_fetch_following_redirects-IsCarried}
use square.Hardening.Ssrf.ByteCap.{byte_cap, byte_cap_from, IsCapped, byte_cap-IsCapped}
use square.Hardening.Ssrf.Embedded.{mapped, classify_ipv6-IsEmbedded}

-- Tells addresses by their separators.
abbrev family : Text → Addresses.Family
family text =
    if any (λ c. nat_beq c b':') text
    then Addresses.ipv6
    else if any (λ c. nat_beq c b'.') text
    then Addresses.ipv4
    else Addresses.not_ip

abbrev example : Ssrf.ParsedUrl
example = record {
  protocol = codes "https:";
  username = [];
  password = [];
  port = none;
  hostname = codes "a.example";
}

abbrev answers : List Ssrf.ResolvedAddress
answers = record { address = codes "93.184.216.34"; family = Addresses.ipv4 } ∷ []

abbrev resolver : Ssrf.PublicUrlOptions
resolver = record {
  allowed_ports = none;
  allow_private = false;
  parse_url = λ url. some (
      if text_beq url (codes "https://a.example")
      then example
      else record example { hostname = url });
  family_of = λ text. if text_beq text (codes "a.example") then Addresses.not_ip else family text;
  lookup = λ hostname. some answers;
}

passes :
    Ssrf.assert_public_url resolver (codes "https://a.example")
    ≡ Ssrf.accepted
        (record { url = example; hostname = codes "a.example"; port = 443; addresses = answers })
unfolding Ssrf.assert_public_url Ssrf.check_url Ssrf.check_parsed Ssrf.check_host
    Ssrf.check_addresses Ssrf.validated Ssrf.strip_brackets Ssrf.is_loopback_name Ssrf.addresses_of
    Ssrf.addresses_at Ssrf.literal_address Ssrf.resolve_hostname Ssrf.resolved Ssrf.refused_address
    Ssrf.classify_address Addresses.same_scope Addresses.parse_ipv4_literal
    Addresses.split_host_parts Addresses.split_on Addresses.parse_ipv4_part Addresses.is_hex_part
    Addresses.is_octal_part Addresses.is_decimal_part Addresses.ends_in_number
    Addresses.parse_dotted_quad Addresses.parse_digits Scopes.classify_ipv4 Scopes.first_scope
    text_beq
passes = refl

-- A loopback address in hexadecimal, with parts left out.
hex_refused :
    Ssrf.assert_public_url resolver (codes "0x7f.1") ≡ Ssrf.rejected Ssrf.address_not_public
unfolding Ssrf.assert_public_url Ssrf.check_url Ssrf.check_parsed Ssrf.check_host
    Ssrf.check_addresses Ssrf.validated Ssrf.strip_brackets Ssrf.is_loopback_name Ssrf.addresses_of
    Ssrf.addresses_at Ssrf.literal_address Ssrf.resolve_hostname Ssrf.resolved Ssrf.refused_address
    Ssrf.classify_address Addresses.same_scope Addresses.parse_ipv4_literal
    Addresses.split_host_parts Addresses.split_on Addresses.parse_ipv4_part Addresses.is_hex_part
    Addresses.is_octal_part Addresses.is_decimal_part Addresses.ends_in_number
    Addresses.parse_dotted_quad Addresses.parse_digits Scopes.classify_ipv4 Scopes.first_scope
    text_beq Addresses.sum_parts Addresses.format_ipv4 decimal
hex_refused = refl

parsed_words :
    Ipv6.parse_ipv6_literal family (codes "64:ff9b::10.0.0.1")
    ≡ some (100 ∷ 65435 ∷ 0 ∷ 0 ∷ 0 ∷ 0 ∷ 2560 ∷ 1 ∷ [])
unfolding Ipv6.parse_ipv6_literal Ipv6.parse_hex_groups Ipv6.is_hex_group Ipv6.zeros
    Addresses.parse_dotted_quad Addresses.parse_digits Addresses.split_on text_beq
parsed_words = refl

assert_public_url-IsPublicUrl_example :
    IsPublicUrl resolver
      (codes "https://a.example")
      (record { url = example; hostname = codes "a.example"; port = 443; addresses = answers })
assert_public_url-IsPublicUrl_example =
    assert_public_url-IsPublicUrl resolver (codes "https://a.example")
      (record { url = example; hostname = codes "a.example"; port = 443; addresses = answers }) refl
      passes

mapped_public :
    Scopes.classify_ipv6 (0 ∷ 0 ∷ 0 ∷ 0 ∷ 0 ∷ 65535 ∷ 24008 ∷ 55330 ∷ []) ≡ Addresses.public
unfolding Scopes.classify_ipv6 Scopes.word Scopes.embedded_ipv4 Scopes.classify_ipv4
    Scopes.first_scope
mapped_public = refl

classify_ipv6-IsEmbedded_example :
    Scopes.classify_ipv4 (Scopes.embedded_ipv4 24008 55330) ≡ Addresses.public
classify_ipv6-IsEmbedded_example =
    classify_ipv6-IsEmbedded (0 ∷ 0 ∷ 0 ∷ 0 ∷ 0 ∷ 65535 ∷ 24008 ∷ 55330 ∷ [])
      (Scopes.embedded_ipv4 24008 55330) (mapped 24008 55330) mapped_public

create_pinned_lookup-IsReachable_example :
    AllPinned
      (IsReachable resolver (by_name (codes "IPv4")))
      (create_pinned_lookup answers (by_name (codes "IPv4")) false)
create_pinned_lookup-IsReachable_example =
    create_pinned_lookup-IsReachable resolver (codes "https://a.example")
      (record { url = example; hostname = codes "a.example"; port = 443; addresses = answers })
      (by_name (codes "IPv4")) false refl passes

pinned_to_ipv4 :
    create_pinned_lookup answers (by_name (codes "IPv4")) false
    ≡ one_of (codes "93.184.216.34") Addresses.ipv4
unfolding create_pinned_lookup requested_family matching same_family answer_of text_beq
pinned_to_ipv4 = refl

capped_body :
    byte_cap 4 ((1 ∷ 2 ∷ []) ∷ (3 ∷ []) ∷ (4 ∷ 5 ∷ []) ∷ [])
    ≡ record { chunks = (1 ∷ 2 ∷ []) ∷ (3 ∷ []) ∷ []; too_large = true }
unfolding byte_cap byte_cap_from
capped_body = refl

byte_cap-IsCapped_example :
    IsCapped 4 0
      ((1 ∷ 2 ∷ []) ∷ (3 ∷ []) ∷ (4 ∷ 5 ∷ []) ∷ [])
      (byte_cap 4 ((1 ∷ 2 ∷ []) ∷ (3 ∷ []) ∷ (4 ∷ 5 ∷ []) ∷ []))
byte_cap-IsCapped_example = byte_cap-IsCapped 4 ((1 ∷ 2 ∷ []) ∷ (3 ∷ []) ∷ (4 ∷ 5 ∷ []) ∷ [])

-- Every URL redirects to another origin, with its body dropped.
abbrev elsewhere : Web
elsewhere = record {
  safe_fetch = λ url init. some (record { status = 303; location = some (codes "b") });
  origin = λ url. url;
  resolve = λ location url. some location;
}

abbrev with_token : FetchInit
with_token = record {
  method = codes "POST";
  headers = (codes "Authorization", codes "t") ∷ (codes "Accept", codes "x") ∷ [];
  body = replayable;
}

token_left_behind :
    safe_fetch_following_redirects elsewhere (some 1) (codes "a") with_token ≡ record {
      requests =
          (codes "a", with_token)
          ∷ (
            codes "b",
            record {
              method = codes "GET";
              headers = (codes "Accept", codes "x") ∷ [];
              body = no_body;
            },
          )
          ∷ [];
      outcome = refused Ssrf.too_many_redirects;
    }
unfolding safe_fetch_following_redirects follow_from follow_next next_of answer_next redirect_to
    redirected_init kept_headers text_beq to_lower_case
token_left_behind = refl

safe_fetch_following_redirects-IsCarried_example :
    All
      (IsCarried elsewhere (codes "a"))
      (safe_fetch_following_redirects elsewhere (some 1) (codes "a") with_token).requests
    × (length (safe_fetch_following_redirects elsewhere (some 1) (codes "a") with_token).requests
        ≤ 2)
safe_fetch_following_redirects-IsCarried_example =
    safe_fetch_following_redirects-IsCarried elsewhere (some 1) (codes "a") with_token
