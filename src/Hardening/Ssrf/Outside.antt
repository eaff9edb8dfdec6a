-- ===== src/Hardening/Ssrf/Outside.antt =====
-- packages/hardening/src/ssrf.ts: the IPv4 addresses that are not public, from the first to the last.
use native.Mathlib.Nat.{one-le-pow, le-div_iff_mul-le}
use mathlib.Core.Bool.{false≢true}
use square.Base.{
  ℕ, ◌+◌, ◌-◌, ◌*◌, ◌/◌, ◌^◌, ◌≤◌, ◌<◌, ◌≡◌, refl, sym, ap, ◌∙◌, subst, ◌⊎◌, inl, inr, false, List,
  [], ◌∷◌, map, nat_beq, if◌then◌else◌, Bool-cases, All, arith, ltb,
}
use square.Hardening.Ssrf.Addresses.{public, same_scope}
use square.Hardening.Ssrf.Scopes.{Ipv4Range, ipv4_ranges, in_range, first_scope, classify_ipv4}

abbrev pub quad : ℕ → ℕ → ℕ → ℕ → ℕ
quad a b c d = a * 2 ^ 24 + b * 2 ^ 16 + c * 2 ^ 8 + d

abbrev pub not_public : List (ℕ × ℕ)
not_public =
    (quad 0 0 0 0, quad 0 255 255 255)
    ∷ (quad 10 0 0 0, quad 10 255 255 255)
    ∷ (quad 100 64 0 0, quad 100 127 255 255)
    ∷ (quad 127 0 0 0, quad 127 255 255 255)
    ∷ (quad 169 254 0 0, quad 169 254 255 255)
    ∷ (quad 172 16 0 0, quad 172 31 255 255)
    ∷ (quad 192 0 0 0, quad 192 0 0 255)
    ∷ (quad 192 0 2 0, quad 192 0 2 255)
    ∷ (quad 192 88 99 0, quad 192 88 99 255)
    ∷ (quad 192 168 0 0, quad 192 168 255 255)
    ∷ (quad 198 18 0 0, quad 198 19 255 255)
    ∷ (quad 198 51 100 0, quad 198 51 100 255)
    ∷ (quad 203 0 113 0, quad 203 0 113 255)
    ∷ (quad 224 0 0 0, quad 239 255 255 255)
    ∷ (quad 240 0 0 0, quad 255 255 255 255)
    ∷ []

abbrev pub IsOutside : ℕ → List (ℕ × ℕ) → Type 0
IsOutside value = All (λ r. (value < r.0) ⊎ (r.1 < value))

abbrev block_size : Ipv4Range → ℕ
block_size r = 2 ^ (32 - r.bits)

abbrev interval_of : Ipv4Range → ℕ × ℕ
interval_of r = (
  r.prefix / block_size r * block_size r,
  r.prefix / block_size r * block_size r + (block_size r - 1),
)

pow_positive : (n : ℕ) → 0 < 2 ^ n
pow_positive n = omega (arith, one-le-pow n 2 (omega arith))

add_one_mul : (q d : ℕ) → (q + 1) * d ≡ q * d + d
add_one_mul q d = grind arith

outside_block :
    (value q d : ℕ)
    → 0 < d
    → nat_beq (value / d) q ≡ false
    → (value < q * d) ⊎ (q * d + (d - 1) < value)
outside_block value q d some_size other = elim (Bool-cases (ltb value (q * d))) [
  | inl below ↦ inl (ground arith)
  | inr from ↦
      let low : q ≤ value / d = (le-div_iff_mul-le some_size).1 (ground arith) in
      let above : q + 1 ≤ value / d = ground arith in
      let past : (q + 1) * d ≤ value = (le-div_iff_mul-le some_size).0 above in
      inr (omega (arith, past, add_one_mul q d, some_size))
]

ranges-IsOutside :
    (ranges : List Ipv4Range) (value : ℕ)
    → All (λ r. same_scope r.scope public ≡ false) ranges
    → first_scope ranges value ≡ public
    → IsOutside value (map interval_of ranges)
unfolding first_scope same_scope
ranges-IsOutside [] value scoped h = tt
ranges-IsOutside (r ∷ ranges) value (scope, scoped) h = elim (Bool-cases (in_range value r)) [
  | inl inside ↦ absurd (
      false≢true (
        sym scope
        ∙ ap (λ k. same_scope k public)
            (subst (λ b. (if b then r.scope else first_scope ranges value) ≡ public) inside h)))
  | inr other ↦ (
    outside_block value (r.prefix / block_size r) (block_size r) (pow_positive (32 - r.bits)) other,
    ranges-IsOutside ranges value scoped
        (subst (λ b. (if b then r.scope else first_scope ranges value) ≡ public) other h),
  )
]

intervals : map interval_of ipv4_ranges ≡ not_public
intervals = refl

-- An IPv4 address that is public is in none of the intervals.
pub classify_ipv4-IsOutside :
    (value : ℕ) → classify_ipv4 value ≡ public → IsOutside value not_public
unfolding classify_ipv4 same_scope
classify_ipv4-IsOutside value h = subst (IsOutside value) intervals (
    ranges-IsOutside ipv4_ranges value
      (
        refl,
        (
          refl,
          (
            refl,
            (
              refl,
              (
                refl,
                (refl, (refl, (refl, (refl, (refl, (refl, (refl, (refl, (refl, (refl, tt)))))))))),
              ),
            ),
          ),
        ),
      )
      h)
