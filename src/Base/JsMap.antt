-- ===== src/Base/JsMap.antt =====
-- JavaScript's `Map`: entries in insertion order, a write to a present key keeping its place.
use Prim.Native.Nat.{◌+◌, ◌≤◌}
use mathlib.Core.Path.{◌≡◌, refl}
use mathlib.Core.Option.{Option, none, some}
use mathlib.Core.List.{List, [], ◌∷◌, ◌++◌, map}
use native.Mathlib.Omega.{arith}
use square.Base.Tests.{if◌then◌else◌}
use square.Base.Keys.{Eq, ◌==◌, beq_self}
use square.Base.Lists.{length}

abbrev pub JsMap {ℓ} : Type ℓ → Type ℓ → Type ℓ
JsMap K V = List (K × V)

module _ {ℓ} {K V : Type ℓ} ⦃e : Eq K⦄ where
  unfoldable pub get : K → JsMap K V → Option V
  get k [] = none
  get k ((j, v) ∷ m) = if j == k then some v else get k m

  unfoldable pub set : K → V → JsMap K V → JsMap K V
  set k v [] = (k, v) ∷ []
  set k v ((j, w) ∷ m) = if j == k then (j, v) ∷ m else (j, w) ∷ set k v m

  unfoldable pub delete : K → JsMap K V → JsMap K V
  delete k [] = []
  delete k ((j, w) ∷ m) = let rest = delete k m in if j == k then rest else (j, w) ∷ rest

  -- No key occurs twice.
  abbrev pub IsKeyed : JsMap K V → Type ℓ
  IsKeyed [] = Unit
  IsKeyed ((j, w) ∷ m) = (get j m ≡ none) × IsKeyed m

  pub get-set :
      (k j : K) (v : V) (m : JsMap K V) → get j (set k v m) ≡ (if k == j then some v else get j m)
  unfolding get set
  get-set k j v [] = refl
  get-set k j v ((i, w) ∷ m) =
      ground (arith, e.beq_iff i k, e.beq_iff i j, e.beq_iff k j, get-set k j v m)

  pub get-delete :
      (k j : K) (m : JsMap K V) → get j (delete k m) ≡ (if k == j then none else get j m)
  unfolding get delete
  get-delete k j [] = ground arith
  get-delete k j ((i, w) ∷ m) =
      ground (arith, e.beq_iff i k, e.beq_iff i j, e.beq_iff k j, get-delete k j m)

  pub set-IsKeyed : (k : K) (v : V) (m : JsMap K V) → IsKeyed m → IsKeyed (set k v m)
  unfolding set get
  set-IsKeyed k v [] h = (refl, tt)
  set-IsKeyed k v ((j, w) ∷ m) h =
      ground (arith, e.beq_iff j k, e.beq_iff k j, get-set k j v m, set-IsKeyed k v m)

  pub delete-IsKeyed : (k : K) (m : JsMap K V) → IsKeyed m → IsKeyed (delete k m)
  unfolding delete get
  delete-IsKeyed k [] h = tt
  delete-IsKeyed k ((j, w) ∷ m) h = ground (arith, get-delete k j m, delete-IsKeyed k m)

  pub delete_of_none : (k : K) (m : JsMap K V) → get k m ≡ none → delete k m ≡ m
  unfolding delete get
  delete_of_none k [] h = refl
  delete_of_none k ((j, w) ∷ m) h = ground (arith, delete_of_none k m)

  pub length-delete-le : (k : K) (m : JsMap K V) → length (delete k m) ≤ length m
  unfolding delete
  length-delete-le k [] = omega arith
  length-delete-le k ((j, w) ∷ m) = ground (arith, length-delete-le k m)

  pub length-delete :
      (k : K) (m : JsMap K V) (v : V)
      → IsKeyed m
      → get k m ≡ some v
      → length (delete k m) + 1 ≡ length m
  unfolding delete get
  length-delete k [] v h g = ground arith
  length-delete k ((j, w) ∷ m) v h g =
      ground (arith, e.beq_iff j k, delete_of_none k m, length-delete k m v)

  pub length-set_new :
      (k : K) (v : V) (m : JsMap K V) → get k m ≡ none → length (set k v m) ≡ length m + 1
  unfolding set get
  length-set_new k v [] h = omega arith
  length-set_new k v ((j, w) ∷ m) h = ground (arith, length-set_new k v m)

  -- A write to a missing key goes to the end.
  pub set_new : (k : K) (v : V) (m : JsMap K V) → get k m ≡ none → set k v m ≡ m ++ (k, v) ∷ []
  unfolding set get
  set_new k v [] h = refl
  set_new k v ((j, w) ∷ m) h = ground (arith, set_new k v m)

  pub get_self : (k : K) (v : V) (m : JsMap K V) → get k (set k v m) ≡ some v
  get_self k v m = rw (get-set, beq_self k)

abbrev pub keys {ℓ} : {K V : Type ℓ} → JsMap K V → List K
keys = map (λ p. p.0)

abbrev pub values {ℓ} : {K V : Type ℓ} → JsMap K V → List V
values = map (λ p. p.1)
