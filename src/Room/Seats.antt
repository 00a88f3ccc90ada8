-- ===== src/Room/Seats.antt =====
-- GameBS/BS_GameRoom.h, `_sessionMap`: how many sessions a room can hold.
use bsgame_server.Base.{
  ℕ, zero, suc, ◌≤◌, ◌<◌, ◌≡◌, ◌≢◌, refl, sym, ap, ◌∙◌, subst, List, [], ◌∷◌, false, if◌then◌else◌,
  IntMap, lookup, insert, erase, length, some, inl, inr, Bool-cases, arith,
}
use bsgame_server.Base.Int.{ℤ, pos, eqb_ℤ, eqb_ℤ→eq, eqb_ℤ_ne, eqb_ℤ-false→ne}
use bsgame_server.Room.Sessions.{each}

-- The keys of a map, in its order.
abbrev pub keys {ℓ} : {V : Type ℓ} → IntMap V → List ℤ
keys [] = []
keys ((k, v) ∷ m) = k ∷ keys m

-- The other keys than `k`.
abbrev others : ℤ → List ℤ → List ℤ
others k [] = []
others k (j ∷ l) = if eqb_ℤ j k then others k l else j ∷ others k l

-- The keys with `k`, which goes to the end if it is new.
abbrev joined : ℤ → List ℤ → List ℤ
joined k [] = k ∷ []
joined k (j ∷ l) = if eqb_ℤ j k then k ∷ l else j ∷ joined k l

-- `k` is not among them.
abbrev Lacks : ℤ → List ℤ → Type 0
Lacks k [] = Unit {0}
Lacks k (j ∷ l) = (eqb_ℤ j k ≡ false) × Lacks k l

-- A descriptor that a process with at most `n` open files can have.
abbrev pub IsBelow : ℕ → ℤ → Type 0
IsBelow n k = (i : ℕ) × (k ≡ pos i) × (i < n)

-- Descriptors below `n`, none of them twice.
abbrev pub Seated : ℕ → List ℤ → Type 0
Seated n [] = Unit {0}
Seated n (k ∷ l) = IsBelow n k × Lacks k l × Seated n l

pub keys-each {ℓ κ} :
    {V : Type ℓ} {W : Type κ} (g : ℤ → V → W) (m : IntMap V) → keys (each g m) ≡ keys m
unfolding each
keys-each g [] = refl
keys-each g ((k, v) ∷ m) = ap (λ l. k ∷ l) (keys-each g m)

keys-erase {ℓ} : {V : Type ℓ} (k : ℤ) (m : IntMap V) → keys (erase k m) ≡ others k (keys m)
unfolding erase
keys-erase k [] = refl
keys-erase k ((j, v) ∷ m) = elim (Bool-cases (eqb_ℤ j k)) [
  | inl e ↦ rw e (keys-erase k m)
  | inr e ↦ rw e (ap (λ l. j ∷ l) (keys-erase k m))
]

keys-insert {ℓ} :
    {V : Type ℓ} (k : ℤ) (v : V) (m : IntMap V) → keys (insert k v m) ≡ joined k (keys m)
unfolding insert
keys-insert k v [] = refl
keys-insert k v ((j, w) ∷ m) = elim (Bool-cases (eqb_ℤ j k)) [
  | inl e ↦ rw e refl
  | inr e ↦ rw e (ap (λ l. j ∷ l) (keys-insert k v m))
]

pub keys-insert_old {ℓ} :
    {V : Type ℓ} (k : ℤ) (v w : V) (m : IntMap V)
    → lookup k m ≡ some w
    → keys (insert k v m) ≡ keys m
unfolding insert lookup
keys-insert_old k v w [] e = cc
keys-insert_old k v w ((j, u) ∷ m) e = elim (Bool-cases (eqb_ℤ j k)) [
  | inl q ↦ rw q (ap (λ i. i ∷ keys m) (sym (eqb_ℤ→eq j k q)))
  | inr q ↦ rw q (ap (λ l. j ∷ l) (keys-insert_old k v w m (rw q at e)))
]

length-keys {ℓ} : {V : Type ℓ} (m : IntMap V) → length (keys m) ≡ length m
length-keys [] = refl
length-keys ((k, v) ∷ m) = ap suc (length-keys m)

pub eqb_ℤ_swap : (j k : ℤ) → eqb_ℤ j k ≡ false → eqb_ℤ k j ≡ false
eqb_ℤ_swap j k e = eqb_ℤ_ne k j (λ p. eqb_ℤ-false→ne j k e (sym p))

Lacks-others : (i k : ℤ) (l : List ℤ) → Lacks i l → Lacks i (others k l)
Lacks-others i k [] h = tt
Lacks-others i k (j ∷ l) h = elim (Bool-cases (eqb_ℤ j k)) [
  | inl e ↦ rw e (Lacks-others i k l h.1)
  | inr e ↦ rw e (h.0, Lacks-others i k l h.1)
]

Lacks-joined : (i k : ℤ) (l : List ℤ) → eqb_ℤ k i ≡ false → Lacks i l → Lacks i (joined k l)
Lacks-joined i k [] d h = (d, tt)
Lacks-joined i k (j ∷ l) d h = elim (Bool-cases (eqb_ℤ j k)) [
  | inl e ↦ rw e (d, h.1)
  | inr e ↦ rw e (h.0, Lacks-joined i k l d h.1)
]

-- Who leaves, and who enters.
Seated-others : (n : ℕ) (k : ℤ) (l : List ℤ) → Seated n l → Seated n (others k l)
Seated-others n k [] s = tt
Seated-others n k (j ∷ l) s = elim (Bool-cases (eqb_ℤ j k)) [
  | inl e ↦ rw e (Seated-others n k l s.2)
  | inr e ↦ rw e (s.0, Lacks-others j k l s.1, Seated-others n k l s.2)
]

Seated-joined : (n : ℕ) (k : ℤ) (l : List ℤ) → IsBelow n k → Seated n l → Seated n (joined k l)
Seated-joined n k [] h s = (h, tt, tt)
Seated-joined n k (j ∷ l) h s = elim (Bool-cases (eqb_ℤ j k)) [
  | inl e ↦ rw e (h, subst (λ i. Lacks i l) (eqb_ℤ→eq j k e) s.1, s.2)
  | inr e ↦ rw e (s.0, Lacks-joined j k l (eqb_ℤ_swap j k e) s.1, Seated-joined n k l h s.2)
]

pub erase-Seated {ℓ} :
    (n : ℕ) {V : Type ℓ} (k : ℤ) (m : IntMap V) → Seated n (keys m) → Seated n (keys (erase k m))
erase-Seated n k m s = subst (Seated n) (sym (keys-erase k m)) (Seated-others n k (keys m) s)

pub insert-Seated {ℓ} :
    (n : ℕ) {V : Type ℓ} (k : ℤ) (v : V) (m : IntMap V)
    → IsBelow n k
    → Seated n (keys m)
    → Seated n (keys (insert k v m))
insert-Seated n k v m h s =
    subst (Seated n) (sym (keys-insert k v m)) (Seated-joined n k (keys m) h s)

-- Only one key is lost, if any.
others-absent : (k : ℤ) (l : List ℤ) → Lacks k l → others k l ≡ l
others-absent k [] h = refl
others-absent k (j ∷ l) h = rw h.0 (ap (λ t. j ∷ t) (others-absent k l h.1))

length-others : (n : ℕ) (k : ℤ) (l : List ℤ) → Seated n l → length l ≤ suc (length (others k l))
length-others n k [] s = omega arith
length-others n k (j ∷ l) s = elim (Bool-cases (eqb_ℤ j k)) [
  | inl e ↦
      let absent = others-absent k l (subst (λ i. Lacks i l) (eqb_ℤ→eq j k e) s.1) in
      rw e (omega (arith, ap length absent))
  | inr e ↦ rw e (omega (arith, length-others n k l s.2))
]

-- Without the largest, the rest is below it.
Seated-lower : (n : ℕ) (l : List ℤ) → Seated (suc n) l → Seated n (others (pos n) l)
Seated-lower n [] s = tt
Seated-lower n (j ∷ l) s = elim (Bool-cases (eqb_ℤ j (pos n))) [
  | inl e ↦ rw e (Seated-lower n l s.2)
  | inr e ↦
      let (i, q, h) = s.0 in
      let other : i ≢ n = λ p. eqb_ℤ-false→ne j (pos n) e (q ∙ ap pos p) in
      rw e ((i, q, omega (arith, other)), Lacks-others j (pos n) l s.1, Seated-lower n l s.2)
]

length-Seated_list : (n : ℕ) (l : List ℤ) → Seated n l → length l ≤ n
length-Seated_list zero [] s = omega arith
length-Seated_list zero (k ∷ l) s = let (i, q, h) = s.0 in absurd (omega arith)
length-Seated_list (suc n) l s = omega (
  arith,
  length-others (suc n) (pos n) l s,
  length-Seated_list n (others (pos n) l) (Seated-lower n l s),
)

-- A map has no more entries than there are descriptors.
pub length-Seated {ℓ} : (n : ℕ) {V : Type ℓ} (m : IntMap V) → Seated n (keys m) → length m ≤ n
length-Seated n m s = omega (arith, length-keys m, length-Seated_list n (keys m) s)
