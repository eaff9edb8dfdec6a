-- ===== src/Hardening/Ssrf/Scopes.antt =====
-- packages/hardening/src/ssrf.ts: the scope of a parsed address.
use square.Base.{
  ℕ, ◌+◌, ◌-◌, ◌*◌, ◌/◌, ◌^◌, zero, suc, Bool, not, ◌&&◌, List, [], ◌∷◌, nat_beq, any,
  if◌then◌else◌, take,
}
use square.Hardening.Ssrf.Addresses.{
  AddressScope, public, unspecified, loopback, private_scope, link_local, multicast, reserved,
  same_scope,
}

pub record Ipv4Range : Type 0 where
  pub prefix : ℕ
  pub bits : ℕ
  pub scope : AddressScope

-- The range of the address `a.b.c.0`.
abbrev pub ipv4_range : ℕ → ℕ → ℕ → ℕ → AddressScope → Ipv4Range
ipv4_range a b c bits scope = record {
  prefix = a * 2 ^ 24 + b * 2 ^ 16 + c * 2 ^ 8;
  bits = bits;
  scope = scope;
}

abbrev pub ipv4_ranges : List Ipv4Range
ipv4_ranges =
    ipv4_range 0 0 0 8 unspecified
    ∷ ipv4_range 10 0 0 8 private_scope
    ∷ ipv4_range 100 64 0 10 private_scope
    ∷ ipv4_range 127 0 0 8 loopback
    ∷ ipv4_range 169 254 0 16 link_local
    ∷ ipv4_range 172 16 0 12 private_scope
    ∷ ipv4_range 192 0 0 24 reserved
    ∷ ipv4_range 192 0 2 24 reserved
    ∷ ipv4_range 192 88 99 24 reserved
    ∷ ipv4_range 192 168 0 16 private_scope
    ∷ ipv4_range 198 18 0 15 reserved
    ∷ ipv4_range 198 51 100 24 reserved
    ∷ ipv4_range 203 0 113 24 reserved
    ∷ ipv4_range 224 0 0 4 multicast
    ∷ ipv4_range 240 0 0 4 reserved
    ∷ []

abbrev pub in_range : ℕ → Ipv4Range → Bool
in_range value range =
    nat_beq (value / 2 ^ (32 - range.bits)) (range.prefix / 2 ^ (32 - range.bits))

unfoldable pub first_scope : List Ipv4Range → ℕ → AddressScope
first_scope [] value = public
first_scope (range ∷ ranges) value =
    let rest = first_scope ranges value in if in_range value range then range.scope else rest

unfoldable pub classify_ipv4 : ℕ → AddressScope
classify_ipv4 value = first_scope ipv4_ranges value

unfoldable pub embedded_ipv4 : ℕ → ℕ → ℕ
embedded_ipv4 high low = high * 2 ^ 16 + low

-- A word of an address, 0 past its end.
unfoldable pub word : List ℕ → ℕ → ℕ
word [] _ = 0
word (w ∷ words) zero = w
word (w ∷ words) (suc i) = word words i

abbrev pub leading_zeros : List ℕ → ℕ → Bool
leading_zeros words count = not (any (λ w. not (nat_beq w 0)) (take count words))

-- Both addresses of a Teredo address: its server's and its client's, whose bits are flipped.
unfoldable pub classify_teredo : List ℕ → AddressScope
classify_teredo words =
    let server = classify_ipv4 (embedded_ipv4 (word words 2) (word words 3)) in
    if not (same_scope server public)
    then server
    else classify_ipv4 (embedded_ipv4 (65535 - word words 6) (65535 - word words 7))

-- From the test for Teredo on; a mask is a division, on words of 16 bits.
unfoldable pub classify_prefix : List ℕ → AddressScope
classify_prefix words =
    let w0 = word words 0 in
    let w1 = word words 1 in
    if nat_beq w0 8193 && nat_beq w1 0
    then classify_teredo words
    else if nat_beq w0 8193 && nat_beq w1 2 && nat_beq (word words 2) 0
    then reserved
    else if nat_beq w0 8193 && nat_beq w1 3512
    then reserved
    else if nat_beq w0 8194
    then classify_ipv4 (embedded_ipv4 w1 (word words 2))
    else if nat_beq (w0 / 2 ^ 9) 126
    then private_scope
    else if nat_beq (w0 / 2 ^ 6) 1018
    then link_local
    else if nat_beq (w0 / 2 ^ 6) 1019
    then private_scope
    else if nat_beq (w0 / 2 ^ 8) 255
    then multicast
    else if nat_beq (w0 / 2 ^ 4) 1023
    then reserved
    else public

abbrev pub is_nat64 : List ℕ → Bool
is_nat64 words = nat_beq (word words 0) 100 && nat_beq (word words 1) 65435

unfoldable pub classify_ipv6 : List ℕ → AddressScope
classify_ipv6 words =
    let last_two = classify_ipv4 (embedded_ipv4 (word words 6) (word words 7)) in
    let rest = classify_prefix words in
    if leading_zeros words 8
    then unspecified
    else if leading_zeros words 7 && nat_beq (word words 7) 1
    then loopback
    else if leading_zeros words 5 && nat_beq (word words 5) 65535
    then last_two
    else if leading_zeros words 6
    then last_two
    else if is_nat64 words
        && nat_beq (word words 2) 0
        && nat_beq (word words 3) 0
        && nat_beq (word words 4) 0
        && nat_beq (word words 5) 0
    then last_two
    else if is_nat64 words && nat_beq (word words 2) 1
    then private_scope
    else if nat_beq (word words 0) 256
        && nat_beq (word words 1) 0
        && nat_beq (word words 2) 0
        && nat_beq (word words 3) 0
    then reserved
    else rest
