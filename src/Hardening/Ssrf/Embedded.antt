-- ===== src/Hardening/Ssrf/Embedded.antt =====
-- packages/hardening/src/ssrf.ts: IPv4 addresses carried by IPv6 ones.
use square.Base.{
  ℕ, ◌-◌, ◌≡◌, refl, Bool, true, false, not, ◌&&◌, nat_beq, if◌then◌else◌, List, [], ◌∷◌,
}
use square.Hardening.Ssrf.Addresses.{
  AddressScope, public, unspecified, loopback, private_scope, link_local, multicast, reserved,
  invalid, same_scope,
}
use square.Hardening.Ssrf.Scopes.{
  embedded_ipv4, classify_ipv4, word, leading_zeros, classify_teredo, classify_prefix,
  classify_ipv6,
}

-- The words of an address that carries an IPv4 address, and what it carries: mapped or compatible, behind
-- NAT64, 6to4, and Teredo's server and client.
pub data IsEmbedded : List ℕ → ℕ → Type 0 where
  mapped :
      (high low : ℕ)
      → IsEmbedded (0 ∷ 0 ∷ 0 ∷ 0 ∷ 0 ∷ 65535 ∷ high ∷ low ∷ []) (embedded_ipv4 high low)
  compatible :
      (high low : ℕ) → IsEmbedded (0 ∷ 0 ∷ 0 ∷ 0 ∷ 0 ∷ 0 ∷ high ∷ low ∷ []) (embedded_ipv4 high low)
  nat64 :
      (high low : ℕ)
      → IsEmbedded (100 ∷ 65435 ∷ 0 ∷ 0 ∷ 0 ∷ 0 ∷ high ∷ low ∷ []) (embedded_ipv4 high low)
  six_to_four :
      (high low : ℕ) (rest : List ℕ)
      → IsEmbedded (8194 ∷ high ∷ low ∷ rest) (embedded_ipv4 high low)
  teredo_server :
      (high low w4 w5 w6 w7 : ℕ)
      → IsEmbedded (8193 ∷ 0 ∷ high ∷ low ∷ w4 ∷ w5 ∷ w6 ∷ w7 ∷ []) (embedded_ipv4 high low)
  teredo_client :
      (w2 w3 w4 w5 high low : ℕ)
      → IsEmbedded
          (8193 ∷ 0 ∷ w2 ∷ w3 ∷ w4 ∷ w5 ∷ high ∷ low ∷ [])
          (embedded_ipv4 (65535 - high) (65535 - low))

past_special :
    (b c : Bool) (s : AddressScope)
    → (if b then unspecified else if c then loopback else s) ≡ public
    → s ≡ public
past_special true c s h = cc
past_special false true s h = cc
past_special false false s h = h

both_public :
    (s t : AddressScope)
    → (if not (same_scope s public) then s else t) ≡ public
    → (s ≡ public) × (t ≡ public)
unfolding same_scope
both_public public t h = (refl, h)
both_public unspecified t h = (h, cc)
both_public loopback t h = (h, cc)
both_public private_scope t h = (h, cc)
both_public link_local t h = (h, cc)
both_public multicast t h = (h, cc)
both_public reserved t h = (h, cc)
both_public invalid t h = (h, cc)

-- An IPv6 address is public only if every IPv4 address that it carries is: one mapped or compatible, behind NAT64,
-- of 6to4, of Teredo's server and of Teredo's client.
pub classify_ipv6-IsEmbedded :
    (words : List ℕ) (value : ℕ)
    → IsEmbedded words value
    → classify_ipv6 words ≡ public
    → classify_ipv4 value ≡ public
unfolding classify_ipv6 classify_prefix classify_teredo word
classify_ipv6-IsEmbedded words value (mapped high low) h = h
classify_ipv6-IsEmbedded words value (compatible high low) h =
    past_special (leading_zeros words 8) (leading_zeros words 7 && nat_beq low 1)
      (classify_ipv4 value) h
classify_ipv6-IsEmbedded words value (nat64 high low) h = h
classify_ipv6-IsEmbedded words value (six_to_four high low rest) h = h
classify_ipv6-IsEmbedded words value (teredo_server high low w4 w5 w6 w7) h =
    (both_public (classify_ipv4 value) (classify_ipv4 (embedded_ipv4 (65535 - w6) (65535 - w7)))
      h).0
classify_ipv6-IsEmbedded words value (teredo_client w2 w3 w4 w5 high low) h =
    (both_public (classify_ipv4 (embedded_ipv4 w2 w3)) (classify_ipv4 value) h).1
