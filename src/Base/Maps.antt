-- ===== src/Base/Maps.antt =====
-- `unordered_map<int32, T>` as an association list: `lookup` is `find`, `insert` is `m[k] = v`
-- (a new key goes to the end), `erase` is `erase(k)`. A list of entries stands for the iteration
-- order, which C++ leaves open.
use bsgame_server.Base.Tests.{if◌then◌else◌, Bool-cases}
use bsgame_server.Base.Int.{ℤ, eqb_ℤ, eqb_ℤ→eq, eqb_ℤ_ne, eqb_ℤ_self, eqb_ℤ-false→ne}
use mathlib.Core.Path.{◌≡◌, refl, sym, ◌∙◌}
use mathlib.Core.Logic.{inl, inr}
use mathlib.Core.Bool.{Bool, true, false}
use mathlib.Core.List.{List, [], ◌∷◌}
use mathlib.Core.Option
use mathlib.Core.Option.{Option, none, some}
use native.Mathlib.Omega.{arith}

abbrev pub IntMap {ℓ} : Type ℓ → Type ℓ
IntMap V = List (ℤ × V)

differ : (i k j : ℤ) → eqb_ℤ i k ≡ false → eqb_ℤ i j ≡ true → k ≡ j → ⊥
differ i k j e f p = eqb_ℤ-false→ne i k e (eqb_ℤ→eq i j f ∙ sym p)

module _ {ℓ} {V : Type ℓ} where
  unfoldable pub lookup : ℤ → IntMap V → Option V
  lookup k [] = none
  lookup k ((j, v) ∷ m) = if eqb_ℤ j k then some v else lookup k m

  unfoldable pub insert : ℤ → V → IntMap V → IntMap V
  insert k v [] = (k, v) ∷ []
  insert k v ((j, w) ∷ m) = if eqb_ℤ j k then (k, v) ∷ m else (j, w) ∷ insert k v m

  unfoldable pub erase : ℤ → IntMap V → IntMap V
  erase k [] = []
  erase k ((j, v) ∷ m) = if eqb_ℤ j k then erase k m else (j, v) ∷ erase k m

  -- `find(k) != end()`.
  unfoldable pub contains : ℤ → IntMap V → Bool
  contains k [] = false
  contains k ((j, v) ∷ m) = if eqb_ℤ j k then true else contains k m

  pub lookup-insert :
      (k j : ℤ) (v : V) (m : IntMap V)
      → lookup j (insert k v m) ≡ (if eqb_ℤ k j then some v else lookup j m)
  unfolding lookup insert
  lookup-insert k j v [] = refl
  lookup-insert k j v ((i, w) ∷ m) = elim (Bool-cases (eqb_ℤ i k)) [
    | inl e ↦ elim (Bool-cases (eqb_ℤ k j)) [
      | inl f ↦ rw (e, f)
      | inr f ↦ rw (e, f, eqb_ℤ→eq i k e, f)
    ]
    | inr e ↦ elim (Bool-cases (eqb_ℤ i j)) [
      | inl f ↦ rw (e, f, eqb_ℤ_ne k j (λ p. differ i k j e f p))
      | inr f ↦ rw (e, f) (lookup-insert k j v m)
    ]
  ]

  pub lookup-erase :
      (k j : ℤ) (m : IntMap V) → lookup j (erase k m) ≡ (if eqb_ℤ k j then none else lookup j m)
  unfolding lookup erase
  lookup-erase k j [] = elim (Bool-cases (eqb_ℤ k j)) [ inl e ↦ rw e | inr e ↦ rw e ]
  lookup-erase k j ((i, w) ∷ m) = elim (Bool-cases (eqb_ℤ i k)) [
    | inl e ↦ elim (Bool-cases (eqb_ℤ k j)) [
      | inl f ↦ rw (e, lookup-erase k j m, f)
      | inr f ↦ rw (e, lookup-erase k j m, f, eqb_ℤ→eq i k e, f)
    ]
    | inr e ↦ elim (Bool-cases (eqb_ℤ i j)) [
      | inl f ↦ rw (e, f, eqb_ℤ_ne k j (λ p. differ i k j e f p))
      | inr f ↦ rw (e, f) (lookup-erase k j m)
    ]
  ]

  pub contains-lookup : (k : ℤ) (m : IntMap V) → contains k m ≡ false → lookup k m ≡ none
  unfolding contains lookup
  contains-lookup k [] h = refl
  contains-lookup k ((j, v) ∷ m) h = ground (arith, contains-lookup k m)

  pub contains-of_lookup :
      (k : ℤ) (m : IntMap V) (v : V) → lookup k m ≡ some v → contains k m ≡ true
  unfolding contains lookup
  contains-of_lookup k [] v h = cc
  contains-of_lookup k ((j, w) ∷ m) v h = ground (arith, contains-of_lookup k m v)

  pub contains-insert : (k : ℤ) (v : V) (m : IntMap V) → contains k (insert k v m) ≡ true
  contains-insert k v m =
      contains-of_lookup k (insert k v m) v (lookup-insert k k v m ∙ rw (eqb_ℤ_self k) refl)

-- Inversion of `Option.map`.
pub map-some {ℓ κ} :
    {A : Type ℓ} {B : Type κ} (g : A → B) (o : Option A) (y : B)
    → Option.map g o ≡ some y
    → (x : A) × (o ≡ some x) × (g x ≡ y)
map-some g none y e = cc
map-some g (some x) y e = (x, refl, cc)
