-- ===== src/Room/Start.antt =====
-- What the constructor of a room leaves in its monster map.
use bsgame_server.Base.{
  ℕ, zero, suc, ◌+◌, ◌≤◌, ◌<◌, ◌≡◌, refl, ◌∙◌, List, [], some, lookup, insert, lookup-insert, arith,
  inl, inr, Bool-cases,
}
use native.Mathlib.Decide.{ℕ_discrete}
use bsgame_server.Base.Int.{ℤ, eqb_ℤ, eqb_ℤ_self}
use bsgame_server.Units.Monster.{Monster, create}
use bsgame_server.Units.Monster.Life.{IsAlive}
use bsgame_server.Units
use bsgame_server.Units.{set_type, set_position, set_name}
use bsgame_server.Units.Monster.{set_spawn_position}
use bsgame_server.Room.{MonsterMap, monster_size, uuid_of, new_monster, init_from, init_monsters}
use bsgame_server.Room.Monsters.{IsValid}

-- An entry of a map.
abbrev Has : ℤ → MonsterMap → Type 0
Has j m = (x : Monster) × (lookup j m ≡ some x)

insert-Has : (k j : ℤ) (x : Monster) (m : MonsterMap) → Has j m → Has j (insert k x m)
insert-Has k j x m (y, e) = elim (Bool-cases (eqb_ℤ k j)) [
  | inl q ↦ (x, lookup-insert k j x m ∙ rw q refl)
  | inr q ↦ (y, lookup-insert k j x m ∙ rw q e)
]

module _ (to_wstring : ℤ → List ℕ) (draws : ℕ → ℤ × ℤ) where
  new_monster-IsAlive : (i : ℕ) → IsAlive (new_monster to_wstring draws i).info
  unfolding new_monster create Units.create set_type set_position set_name set_spawn_position
  new_monster-IsAlive i e = omega arith

  init_from-Has :
      (left i : ℕ) (m : MonsterMap) (j : ℤ) → Has j m → Has j (init_from to_wstring draws left i m)
  unfolding init_from
  init_from-Has zero i m j h = h
  init_from-Has (suc left) i m j h =
      init_from-Has left (suc i) _ j (insert-Has (uuid_of i) j (new_monster to_wstring draws i) m h)

  init_from-present :
      (left i : ℕ) (m : MonsterMap) (k : ℕ)
      → i ≤ k
      → k < i + left
      → Has (uuid_of k) (init_from to_wstring draws left i m)
  unfolding init_from
  init_from-present zero i m k a b = absurd (omega arith)
  init_from-present (suc left) i m k a b = elim (ℕ_discrete i k) [
    | yes e ↦ init_from-Has left (suc i) _ (uuid_of k) (
      new_monster to_wstring draws i,
      lookup-insert (uuid_of i) (uuid_of k) (new_monster to_wstring draws i) m
          ∙ rw (e, eqb_ℤ_self (uuid_of k)) refl,
    )
    | no n ↦ init_from-present left (suc i) _ k (omega arith) (omega arith)
  ]

  AllAlive : MonsterMap → Type 0
  AllAlive m = (k : ℤ) (x : Monster) → lookup k m ≡ some x → IsAlive x.info

  init_from-alive :
      (left i : ℕ) (m : MonsterMap) → AllAlive m → AllAlive (init_from to_wstring draws left i m)
  unfolding init_from AllAlive
  init_from-alive zero i m a = a
  init_from-alive (suc left) i m a =
      init_from-alive left (suc i) (insert (uuid_of i) (new_monster to_wstring draws i) m) (λ k x h.
        ground (
          arith,
          lookup-insert (uuid_of i) k (new_monster to_wstring draws i) m,
          a k x,
          new_monster-IsAlive i,
        ))

  -- Whatever numbers are drawn, a new room has its ten monsters, and each that is on the map has
  -- 1 to 100 hit points.
  pub init_monsters-IsValid : IsValid (init_monsters to_wstring draws)
  unfolding init_monsters AllAlive
  init_monsters-IsValid = record {
    present = λ i h l. init_from-present monster_size 1 [] i h (omega arith);
    alive = init_from-alive monster_size 1 [] (λ k x h. unfold lookup in absurd cc);
  }
