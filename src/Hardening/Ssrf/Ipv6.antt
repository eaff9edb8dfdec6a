-- ===== src/Hardening/Ssrf/Ipv6.antt =====
-- packages/hardening/src/ssrf.ts: the eight words of an IPv6 literal.
use square.Base.{
  ℕ, ◌+◌, ◌-◌, ◌/◌, ◌%◌, ◌^◌, zero, suc, Bool, ◌&&◌, ◌||◌, Option, none, some, List, [], ◌∷◌, ◌++◌,
  Text, codes, text_beq, nat_beq, any, leb, ltb, if◌then◌else◌, length, drop, take,
}
use square.Hardening.Ssrf.Addresses.{
  Family, is_ipv6, parse_dotted_quad, split_on, parse_digits, all_units, is_digit_below,
  is_hex_letter,
}

-- `text.indexOf` of a unit or a pair of units, at which the text is cut: what stands before, and what follows.
cut_at : (Text → Bool) → ℕ → Text → Option (Text × Text)
cut_at here width [] = none
cut_at here width (c ∷ text) =
    let later = cut_at here width text in
    if here (c ∷ text)
    then some ([], drop width (c ∷ text))
    else elim later [ none ↦ none | some (before, after) ↦ some (c ∷ before, after) ]

at_zone : Text → Bool
at_zone text = text_beq (take 1 text) (codes "%")

at_gap : Text → Bool
at_gap text = text_beq (take 2 text) (codes "::")

unfoldable pub is_hex_group : Text → Bool
is_hex_group piece =
    leb 1 (length piece)
    && leb (length piece) 4
    && all_units (λ u. is_digit_below 10 u || is_hex_letter u) piece

quad_piece : (Text → Family) → Text → Option (List ℕ)
quad_piece family_of piece = elim (parse_dotted_quad family_of piece) [
  | none ↦ none
  | some quad ↦ some (quad / 2 ^ 16 ∷ quad % 2 ^ 16 ∷ [])
]

-- A piece of a segment: a dotted quad only where it is the last.
hex_piece : (Text → Family) → Text → Bool → Option (List ℕ)
unfolding quad_piece
hex_piece family_of piece is_last =
    if any (λ c. nat_beq c b'.') piece
    then (if is_last then quad_piece family_of piece else none)
    else if is_hex_group piece
    then some (parse_digits 16 piece ∷ [])
    else none

hex_pieces : (Text → Family) → List Text → Option (List ℕ)
unfolding hex_piece
hex_pieces family_of [] = some []
hex_pieces family_of (piece ∷ pieces) =
    elim (hex_piece family_of piece (nat_beq (length pieces) 0)) [
      | none ↦ none
      | some groups ↦ elim (hex_pieces family_of pieces) [
        | none ↦ none
        | some more ↦ some (groups ++ more)
      ]
    ]

unfoldable pub parse_hex_groups : (Text → Family) → Text → Option (List ℕ)
unfolding hex_pieces
parse_hex_groups family_of [] = some []
parse_hex_groups family_of (c ∷ segment) = hex_pieces family_of (split_on b':' (c ∷ segment))

unfoldable pub zeros : ℕ → List ℕ
zeros zero = []
zeros (suc n) = 0 ∷ zeros n

-- The groups on both sides of the gap, with zeros between them.
fill_gap : List ℕ → List ℕ → Option (List ℕ)
fill_gap head tail =
    if ltb 8 (length head + length tail)
    then none
    else some (head ++ zeros (8 - (length head + length tail)) ++ tail)

without_zone : Text → Text
unfolding cut_at at_zone
without_zone text = elim (cut_at at_zone 1 text) [ none ↦ text | some (before, _) ↦ before ]

-- From the literal without its zone on.
words_of : (Text → Family) → Text → Option (List ℕ)
unfolding cut_at at_gap fill_gap
words_of family_of literal = elim (cut_at at_gap 2 literal) [
  | none ↦ elim (parse_hex_groups family_of literal) [
    | none ↦ none
    | some groups ↦ if nat_beq (length groups) 8 then some groups else none
  ]
  | some (before, after) ↦ elim (parse_hex_groups family_of before) [
    | none ↦ none
    | some head ↦ elim (parse_hex_groups family_of after) [
      | none ↦ none
      | some tail ↦ fill_gap head tail
    ]
  ]
]

unfoldable pub parse_ipv6_literal : (Text → Family) → Text → Option (List ℕ)
unfolding without_zone words_of
parse_ipv6_literal family_of text =
    if is_ipv6 (family_of (without_zone text)) then words_of family_of (without_zone text) else none
