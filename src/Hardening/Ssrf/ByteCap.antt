-- ===== src/Hardening/Ssrf/ByteCap.antt =====
-- packages/hardening/src/ssrf.ts, byteCap: the limit on the body of a response.
use square.Base.{
  ℕ, ◌+◌, ◌≤◌, ◌<◌, ◌≡◌, refl, ap, inl, inr, Bool, true, false, List, [], ◌∷◌, ◌⊎◌, ltb, arith,
  length, Bool-cases, if◌then◌else◌,
}

-- A body as it has gone through the cap: the chunks that passed, and whether it ended in `response_too_large`.
pub record Capped : Type 0 where
  pub chunks : List (List ℕ)
  pub too_large : Bool

-- A stream that errors takes no more chunks.
unfoldable pub byte_cap_from : ℕ → ℕ → List (List ℕ) → Capped
byte_cap_from max_bytes received [] = record { chunks = []; too_large = false }
byte_cap_from max_bytes received (chunk ∷ body) =
    let rest = byte_cap_from max_bytes (received + length chunk) body in
    if ltb max_bytes (received + length chunk)
    then record { chunks = []; too_large = true }
    else record rest { chunks = chunk ∷ rest.chunks }

unfoldable pub byte_cap : ℕ → List (List ℕ) → Capped
byte_cap max_bytes body = byte_cap_from max_bytes 0 body

abbrev pub total_bytes : List (List ℕ) → ℕ
total_bytes [] = 0
total_bytes (chunk ∷ body) = length chunk + total_bytes body

-- Either the whole body passed and is within the cap, or it is beyond the cap and what passed is within.
abbrev pub IsCapped : ℕ → ℕ → List (List ℕ) → Capped → Type 0
IsCapped max_bytes received body c =
    (received + total_bytes c.chunks ≤ max_bytes)
    × ((c.too_large ≡ false) × (c.chunks ≡ body)
        ⊎ (c.too_large ≡ true) × (max_bytes < received + total_bytes body))

IsCapped-cons :
    (max_bytes received : ℕ) (chunk : List ℕ) (body : List (List ℕ)) (c : Capped)
    → IsCapped max_bytes (received + length chunk) body c
    → IsCapped max_bytes received (chunk ∷ body) (record c { chunks = chunk ∷ c.chunks })
IsCapped-cons max_bytes received chunk body c (le, inl (whole, same)) =
    (omega (arith, le), inl (whole, ap (λ cs. chunk ∷ cs) same))
IsCapped-cons max_bytes received chunk body c (le, inr (cut, over)) =
    (omega (arith, le), inr (cut, omega (arith, over)))

byte_cap_from-IsCapped :
    (max_bytes received : ℕ) (body : List (List ℕ))
    → received ≤ max_bytes
    → IsCapped max_bytes received body (byte_cap_from max_bytes received body)
unfolding byte_cap_from
byte_cap_from-IsCapped max_bytes received [] le = (omega (arith, le), inl (refl, refl))
byte_cap_from-IsCapped max_bytes received (chunk ∷ body) le =
    elim (Bool-cases (ltb max_bytes (received + length chunk))) [
      | inl over ↦ rw over (omega (arith, le), inr (refl, ground arith))
      | inr within ↦ rw within (
          IsCapped-cons max_bytes received chunk body
            (byte_cap_from max_bytes (received + length chunk) body)
            (byte_cap_from-IsCapped max_bytes (received + length chunk) body (ground arith)))
    ]

-- A body passes the cap whole when it is within it; otherwise it ends in an error, after chunks whose bytes are
-- within the cap.
pub byte_cap-IsCapped :
    (max_bytes : ℕ) (body : List (List ℕ)) → IsCapped max_bytes 0 body (byte_cap max_bytes body)
unfolding byte_cap
byte_cap-IsCapped max_bytes body = byte_cap_from-IsCapped max_bytes 0 body (omega arith)
