-- ===== src/Hardening/Ssrf/Host.antt =====
-- packages/hardening/src/ssrf.ts, stripBrackets and isLoopbackName: what they say of a name.
use mathlib.Core.Bool.{false≢true}
use square.Base.{
  ℕ, suc, ◌-◌, ◌≡◌, ◌≢◌, refl, sym, ap, ◌∙◌, ◌⊎◌, inl, inr, Bool, true, false, ◌&&◌, ◌||◌, [], ◌∷◌,
  ◌++◌, Text, codes, text_beq, text_beq_iff, Bool-cases, length, length-append, drop, take, arith,
  if◌then◌else◌,
}
use square.Hardening.Ssrf.{is_loopback_name, strip_brackets, init_of, ends_with}

-- The host is what stands between the brackets of a name, or the name where it has none.
abbrev pub IsHost : Text → Text → Type 0
IsHost name host =
    (name ≡ b'[' ∷ (host ++ b']' ∷ []))
    ⊎ ((name ≡ host) × ((inner : Text) → name ≢ b'[' ∷ (inner ++ b']' ∷ [])))

drop-append : (p q : Text) → drop (length p) (p ++ q) ≡ q
drop-append [] q = refl
drop-append (a ∷ p) q = drop-append p q

ends_with-append : (p q : Text) → ends_with q (p ++ q) ≡ true
unfolding ends_with
ends_with-append p q =
    ap (λ n. text_beq (drop n (p ++ q)) q) (omega (arith, length-append p q))
    ∙ (text_beq_iff (drop (length p) (p ++ q)) q).1 (drop-append p q)

init_of-append : (t : Text) (c : ℕ) → init_of (t ++ c ∷ []) ≡ t
unfolding init_of
init_of-append [] c = refl
init_of-append (a ∷ []) c = refl
init_of-append (a ∷ b ∷ t) c = ap (λ u. a ∷ u) (init_of-append (b ∷ t) c)

suc_pred : (n : ℕ) → suc n - 1 ≡ n
suc_pred n = omega arith

-- A text that ends in a unit is the rest and that unit.
ends_with_last : (t : Text) (c : ℕ) → ends_with (c ∷ []) t ≡ true → t ≡ init_of t ++ c ∷ []
unfolding ends_with init_of text_beq
ends_with_last [] c h = absurd (false≢true h)
ends_with_last (a ∷ []) c h = (text_beq_iff (a ∷ []) (c ∷ [])).0 h
ends_with_last (a ∷ b ∷ t) c h =
    ap (λ u. a ∷ u)
      (ends_with_last (b ∷ t) c (
        ap (λ n. text_beq (drop n (b ∷ t)) (c ∷ [])) (suc_pred (length t))
        ∙ sym (ap (λ n. text_beq (drop n (a ∷ b ∷ t)) (c ∷ [])) (suc_pred (suc (length t))))
        ∙ h))

branch-IsHost :
    (b : Bool) (name : Text)
    → (b ≡ true → name ≡ b'[' ∷ (init_of (drop 1 name) ++ b']' ∷ []))
    → (b ≡ false → (inner : Text) → name ≢ b'[' ∷ (inner ++ b']' ∷ []))
    → IsHost name (if b then init_of (drop 1 name) else name)
branch-IsHost true name bracketed plain = inl (bracketed refl)
branch-IsHost false name bracketed plain = inr (refl, plain refl)

abbrev first_unit : Text → ℕ
first_unit [] = 0
first_unit (c ∷ t) = c

is_bracketed : Text → Bool
is_bracketed name = text_beq (take 1 name) (codes "[") && ends_with (codes "]") name

pub both_true : (b c : Bool) → (b && c) ≡ true → (b ≡ true) × (c ≡ true)
both_true true c h = (refl, h)
both_true false c h = absurd (false≢true h)

is_bracketed-true :
    (name : Text) → is_bracketed name ≡ true → name ≡ b'[' ∷ (init_of (drop 1 name) ++ b']' ∷ [])
unfolding is_bracketed text_beq init_of ends_with
is_bracketed-true [] h = absurd (false≢true h)
is_bracketed-true (c ∷ []) h =
    let (first, last) =
      both_true (text_beq (c ∷ []) (codes "[")) (text_beq (c ∷ []) (codes "]")) h in
    absurd (
      omega (
        arith,
        ap first_unit ((text_beq_iff (c ∷ []) (codes "[")).0 first),
        ap first_unit ((text_beq_iff (c ∷ []) (codes "]")).0 last),
      ))
is_bracketed-true (c ∷ d ∷ rest) h =
    let (first, last) =
      both_true (text_beq (c ∷ []) (codes "[")) (ends_with (codes "]") (c ∷ d ∷ rest)) h in
    ends_with_last (c ∷ d ∷ rest) b']' last
    ∙ ap (λ u. u ++ (init_of (d ∷ rest) ++ b']' ∷ [])) ((text_beq_iff (c ∷ []) (codes "[")).0 first)

is_bracketed-false :
    (name : Text) → is_bracketed name ≡ false → (inner : Text) → name ≢ b'[' ∷ (inner ++ b']' ∷ [])
unfolding is_bracketed text_beq
is_bracketed-false name h inner =
    λ same. false≢true (sym h ∙ ap is_bracketed same ∙ ends_with-append (b'[' ∷ inner) (codes "]"))

pub strip_brackets-IsHost : (name : Text) → IsHost name (strip_brackets name)
unfolding strip_brackets is_bracketed
strip_brackets-IsHost name =
    branch-IsHost (is_bracketed name) name (is_bracketed-true name) (is_bracketed-false name)

-- A name is not localhost or below it, with or without a dot at its end.
pub record IsElsewhere (name : Text) : Type 0 where
  pub no_localhost : name ≢ codes "localhost"
  pub no_localhost_dot : name ≢ codes "localhost."
  pub not_below : (inner : Text) → name ≢ inner ++ codes ".localhost"
  pub not_below_dot : (inner : Text) → name ≢ inner ++ codes ".localhost."

last_unit : Text → ℕ
last_unit [] = 0
last_unit (c ∷ []) = c
last_unit (c ∷ d ∷ t) = last_unit (d ∷ t)

last_unit-append : (p : Text) (a : ℕ) (q : Text) → last_unit (p ++ a ∷ q) ≡ last_unit (a ∷ q)
unfolding last_unit
last_unit-append [] a q = refl
last_unit-append (x ∷ []) a q = refl
last_unit-append (x ∷ y ∷ p) a q = last_unit-append (y ∷ p) a q

append_assoc : (p q r : Text) → (p ++ q) ++ r ≡ p ++ (q ++ r)
append_assoc [] q r = refl
append_assoc (x ∷ p) q r = ap (λ t. x ∷ t) (append_assoc p q r)

-- The name without the dot at its end, as far as it has one.
is_loopback_of : Text → Bool
is_loopback_of name = text_beq name (codes "localhost") || ends_with (codes ".localhost") name

below-is_loopback_of : (p : Text) → is_loopback_of (p ++ codes ".localhost") ≡ true
unfolding is_loopback_of
below-is_loopback_of p =
    elim (Bool-cases (text_beq (p ++ codes ".localhost") (codes "localhost"))) [
      | inl same ↦ rw same refl
      | inr other ↦ rw other (ends_with-append p (codes ".localhost"))
    ]

no_dot : (p : Text) → ends_with (codes ".") (p ++ codes ".localhost") ≡ false
unfolding last_unit
no_dot p = elim (Bool-cases (ends_with (codes ".") (p ++ codes ".localhost"))) [
  | inr none_there ↦ none_there
  | inl dotted ↦ absurd (
      omega (
        arith,
        ap last_unit (ends_with_last (p ++ codes ".localhost") b'.' dotted),
        last_unit-append p b'.' (codes "localhost"),
        last_unit-append (init_of (p ++ codes ".localhost")) b'.' [],
      ))
]

undotted : Bool → Text → Text
undotted dotted name = if dotted then init_of name else name

is_loopback_name_lem :
    (name : Text)
    → is_loopback_name name ≡ is_loopback_of (undotted (ends_with (codes ".") name) name)
unfolding is_loopback_name is_loopback_of undotted
is_loopback_name_lem name = refl

below-is_loopback_name : (p : Text) → is_loopback_name (p ++ codes ".localhost") ≡ true
unfolding undotted
below-is_loopback_name p =
    is_loopback_name_lem (p ++ codes ".localhost")
    ∙ ap (λ b. is_loopback_of (undotted b (p ++ codes ".localhost"))) (no_dot p)
    ∙ below-is_loopback_of p

below_dot-is_loopback_name : (p : Text) → is_loopback_name (p ++ codes ".localhost.") ≡ true
unfolding undotted
below_dot-is_loopback_name p =
    ap is_loopback_name (sym (append_assoc p (codes ".localhost") (codes ".")))
    ∙ is_loopback_name_lem ((p ++ codes ".localhost") ++ codes ".")
    ∙ ap (λ b. is_loopback_of (undotted b ((p ++ codes ".localhost") ++ codes ".")))
        (ends_with-append (p ++ codes ".localhost") (codes "."))
    ∙ ap is_loopback_of (init_of-append (p ++ codes ".localhost") b'.')
    ∙ below-is_loopback_of p

other_than :
    (name loop : Text) → is_loopback_name name ≡ false → is_loopback_name loop ≡ true → name ≢ loop
other_than name loop free is = λ same. false≢true (sym free ∙ ap is_loopback_name same ∙ is)

pub is_loopback_name-IsElsewhere : (name : Text) → is_loopback_name name ≡ false → IsElsewhere name
unfolding is_loopback_name text_beq init_of ends_with
is_loopback_name-IsElsewhere name free = record {
  no_localhost = other_than name (codes "localhost") free refl;
  no_localhost_dot = other_than name (codes "localhost.") free refl;
  not_below =
      λ inner. other_than name (inner ++ codes ".localhost") free (below-is_loopback_name inner);
  not_below_dot = λ inner.
      other_than name (inner ++ codes ".localhost.") free (below_dot-is_loopback_name inner);
}
