-- ===== src/Hardening/Ssrf/Addresses.antt =====
-- packages/hardening/src/ssrf.ts: addresses, their literals and their scopes.
use square.Base.{
  ℕ, ◌+◌, ◌-◌, ◌*◌, ◌/◌, ◌%◌, ◌^◌, Bool, true, false, not, ◌&&◌, ◌||◌, Option, none, some, List, [],
  ◌∷◌, ◌++◌, Text, text_beq, nat_beq, any, leb, ltb, if◌then◌else◌, length, decimal, drop,
}
use mathlib.Core.List.{reverse}

pub data AddressScope : Type 0 where
  public unspecified loopback private_scope link_local multicast reserved invalid : AddressScope

unfoldable pub same_scope : AddressScope → AddressScope → Bool
same_scope public public = true
same_scope unspecified unspecified = true
same_scope loopback loopback = true
same_scope private_scope private_scope = true
same_scope link_local link_local = true
same_scope multicast multicast = true
same_scope reserved reserved = true
same_scope invalid invalid = true
same_scope _ _ = false

-- What `isIP` answers.
pub data Family : Type 0 where
  ipv4 ipv6 not_ip : Family

abbrev is_ipv4 : Family → Bool
is_ipv4 ipv4 = true
is_ipv4 _ = false

abbrev pub is_ipv6 : Family → Bool
is_ipv6 ipv6 = true
is_ipv6 _ = false

-- `text.split(separator)`, never empty.
split_onto : ℕ → Text → Text → List Text
split_onto separator [] acc = reverse acc ∷ []
split_onto separator (c ∷ text) acc =
    let next = split_onto separator text [] in
    let more = split_onto separator text (c ∷ acc) in
    if nat_beq c separator then reverse acc ∷ next else more

unfoldable pub split_on : ℕ → Text → List Text
unfolding split_onto
split_on separator text = split_onto separator text []

abbrev pub is_digit_below : ℕ → ℕ → Bool
is_digit_below base c = leb b'0' c && ltb c (b'0' + base)

abbrev pub is_hex_letter : ℕ → Bool
is_hex_letter c = leb b'a' c && leb c b'f' || leb b'A' c && leb c b'F'

-- A digit's value: of a decimal digit, of a small letter, of a capital.
abbrev digit_value : ℕ → ℕ
digit_value c = if ltb c b'A' then c - b'0' else if ltb c b'a' then c - b'A' + 10 else c - b'a' + 10

value_from : ℕ → ℕ → Text → ℕ
value_from base acc [] = acc
value_from base acc (c ∷ text) = value_from base (acc * base + digit_value c) text

unfoldable pub parse_digits : ℕ → Text → ℕ
unfolding value_from
parse_digits base text = value_from base 0 text

abbrev pub all_units : (ℕ → Bool) → Text → Bool
all_units test text = not (any (λ c. not (test c)) text)

-- The patterns `DECIMAL_PART`, `OCTAL_PART` and `HEX_PART`.
unfoldable pub is_decimal_part : Text → Bool
is_decimal_part [] = false
is_decimal_part (c ∷ text) = all_units (is_digit_below 10) (c ∷ text)

unfoldable pub is_octal_part : Text → Bool
is_octal_part (c ∷ d ∷ text) = nat_beq c b'0' && all_units (is_digit_below 8) (d ∷ text)
is_octal_part _ = false

unfoldable pub is_hex_part : Text → Bool
is_hex_part (c ∷ x ∷ text) =
    nat_beq c b'0'
    && (nat_beq x b'x' || nat_beq x b'X')
    && all_units (λ u. is_digit_below 10 u || is_hex_letter u) text
is_hex_part _ = false

unfoldable pub parse_ipv4_part : Text → Option ℕ
parse_ipv4_part part =
    if is_hex_part part
    then some (parse_digits 16 (drop 2 part))
    else if is_octal_part part
    then some (parse_digits 8 part)
    else if is_decimal_part part
    then some (parse_digits 10 part)
    else none

last_is_empty : List Text → Bool
last_is_empty [] = false
last_is_empty (p ∷ []) = text_beq p []
last_is_empty (p ∷ q ∷ parts) = last_is_empty (q ∷ parts)

all_but_last : {A : Type 0} → List A → List A
all_but_last [] = []
all_but_last (p ∷ []) = []
all_but_last (p ∷ q ∷ parts) = p ∷ all_but_last (q ∷ parts)

unfoldable pub split_host_parts : Text → List Text
unfolding last_is_empty all_but_last
split_host_parts host =
    let parts = split_on b'.' host in
    if ltb 1 (length parts) && last_is_empty parts then all_but_last parts else parts

parse_parts : List Text → Option (List ℕ)
parse_parts [] = some []
parse_parts (p ∷ parts) = elim (parse_ipv4_part p) [
  | none ↦ none
  | some value ↦ elim (parse_parts parts) [ none ↦ none | some values ↦ some (value ∷ values) ]
]

-- The parts from the first on, `place` being the weight of the next; the last takes what is left.
unfoldable pub sum_parts : ℕ → List ℕ → Option ℕ
sum_parts place [] = none
sum_parts place (tail ∷ []) = if leb (256 ^ place) tail then none else some tail
sum_parts place (value ∷ next ∷ values) = elim (sum_parts (place - 1) (next ∷ values)) [
  | none ↦ none
  | some sum ↦ if ltb 255 value then none else some (value * 256 ^ (place - 1) + sum)
]

unfoldable pub parse_ipv4_literal : Text → Option ℕ
unfolding parse_parts
parse_ipv4_literal host =
    let parts = split_host_parts host in
    if ltb 4 (length parts)
    then none
    else elim (parse_parts parts) [ none ↦ none | some values ↦ sum_parts 4 values ]

unfoldable pub format_ipv4 : ℕ → Text
format_ipv4 value =
    decimal (value / 2 ^ 24)
    ++ b'.' ∷ decimal (value / 2 ^ 16 % 256)
    ++ b'.' ∷ decimal (value / 2 ^ 8 % 256)
    ++ b'.' ∷ decimal (value % 256)

last_part : List Text → Text
last_part [] = []
last_part (p ∷ []) = p
last_part (p ∷ q ∷ parts) = last_part (q ∷ parts)

unfoldable pub ends_in_number : Text → Bool
unfolding last_part
ends_in_number host =
    let last = last_part (split_host_parts host) in is_decimal_part last || is_hex_part last

fold_quad : ℕ → List Text → ℕ
fold_quad sum [] = sum
fold_quad sum (part ∷ parts) = fold_quad (sum * 256 + parse_digits 10 part) parts

unfoldable pub parse_dotted_quad : (Text → Family) → Text → Option ℕ
unfolding fold_quad
parse_dotted_quad family_of text =
    if is_ipv4 (family_of text) then some (fold_quad 0 (split_on b'.' text)) else none
