-- ===== src/Room/Monsters.antt =====
-- GameBS/BS_GameRoom.cpp: the monsters of a room through hits and respawns.
use bsgame_server.Base.{
  map-some, ℕ, zero, suc, ◌+◌, ◌≤◌, ◌<◌, ◌≡◌, refl, sym, ap, ◌∙◌, subst, ◌≢◌, Bool, true, false,
  some, if◌then◌else◌, lookup, insert, lookup-insert, arith, inl, inr, Bool-cases, Option-cases,
  ltb, leb, ◌&&◌,
}
use bsgame_server.Base.Int.{ℤ, pos, negsuc, neg_part, eqb_ℤ, eqb_ℤ→eq}
use mathlib.Core.Option
use bsgame_server.Base.Run.{done}
use bsgame_server.Units.{set_spawn}
use bsgame_server.Units.Monster.{Monster, reset_spawn}
use bsgame_server.Units.Monster.Life.{IsAlive, take_demage-IsAlive}
use bsgame_server.Room.{
  MonsterMap, monster_size, uuid_of, at, span_one, span_from, span_monsters, hit, monster_hit,
}

-- Each of the monsters `-1` to `-10` is there, and each monster on the map has 1 to 100 hit points.
pub record IsValid (m : MonsterMap) : Type 0 where
  pub present : (i : ℕ) → 1 ≤ i → i ≤ monster_size → (x : Monster) × (lookup (uuid_of i) m ≡ some x)
  pub alive : (k : ℤ) (x : Monster) → lookup k m ≡ some x → IsAlive x.info

-- A new value for a key keeps the map valid if the value is.
insert-IsValid :
    {m : MonsterMap} (k : ℤ) (x : Monster) → IsAlive x.info → IsValid m → IsValid (insert k x m)
insert-IsValid {m} k x a v = record {
  present = λ i h l. elim (Bool-cases (eqb_ℤ k (uuid_of i))) [
    | inl e ↦ (x, lookup-insert k (uuid_of i) x m ∙ rw e refl)
    | inr e ↦ ((v.present i h l).0, lookup-insert k (uuid_of i) x m ∙ rw e (v.present i h l).1)
  ];
  alive = λ j y h. elim (Bool-cases (eqb_ℤ k j)) [
    | inl e ↦ ground (arith, lookup-insert k j x m, e, a)
    | inr e ↦ v.alive j y (sym (lookup-insert k j x m ∙ rw e refl) ∙ h)
  ];
}

hit-IsAlive :
    (x : Monster) (fd : ℤ) (d : ℕ) → d ≤ 100 → IsAlive x.info → IsAlive (hit x fd (pos d)).info
unfolding hit
hit-IsAlive x fd d h a = ground (arith, take_demage-IsAlive x.info d h a)

-- A hit of at most 100, on any code, keeps the monsters of a room valid: all ten there, and each
-- that is on the map with 1 to 100 hit points.
pub monster_hit-IsValid :
    {m : MonsterMap} (code fd : ℤ) (d : ℕ)
    → d ≤ 100
    → IsValid m
    → IsValid (monster_hit m code fd (pos d)).0
unfolding monster_hit
monster_hit-IsValid {m} code fd d h v = elim (Option-cases (lookup code m)) [
  | inl e ↦ rw (e, monster_hit) v
  | inr (x, e) ↦
      rw (e, monster_hit)
        (insert-IsValid code (hit x fd (pos d)) (hit-IsAlive x fd d h (v.alive code x e)) v)
]

-- A monster that comes back: at its start, with 100 hit points, and with no target.
abbrev reborn : Monster → Monster
reborn x = record x {
  info = record x.info {
    position = record { x = x.start_x; y = x.start_y; z = pos 100; yaw = 0 };
    hp = pos 100;
    is_spawned = true;
  };
  target = negsuc 0;
}

-- What a respawn makes of a monster: one that is on the map stays as it is.
abbrev pub revived : Monster → Monster
revived x = if x.is_spawned then x else reborn x

pub revived_spawned : (x : Monster) → x.is_spawned ≡ true → revived x ≡ x
revived_spawned x s = ap (λ b. if b then x else reborn x) s

-- `span_one` at a monster that is there.
span_one_lem :
    (m : MonsterMap) (k : ℤ) (x : Monster)
    → lookup k m ≡ some x
    → (m' : MonsterMap) × (span_one m k ≡ done m')
      × ((j : ℤ) → lookup j m' ≡ (if eqb_ℤ k j then some (revived x) else lookup j m))
unfolding span_one at reset_spawn set_spawn
span_one_lem m k x e = elim (Bool-cases x.is_spawned) [
  | inl s ↦ (
    m,
    rw (e, at, s) refl,
    λ j. elim (Bool-cases (eqb_ℤ k j)) [
      | inl q ↦ rw q (
          subst (λ i. lookup i m ≡ some x) (eqb_ℤ→eq k j q) e ∙ ap some (sym (revived_spawned x s)))
      | inr q ↦ rw q refl
    ],
  )
  | inr s ↦ (insert k (revived x) m, rw (e, at, s) refl, λ j. lookup-insert k j (revived x) m)
]

-- The codes `-i` to `-(i + left - 1)`.
abbrev pub in_span : ℕ → ℕ → ℤ → Bool
in_span i left j = leb i (neg_part j) && ltb (neg_part j) (i + left)

abbrev pub Spanned : ℕ → ℕ → MonsterMap → MonsterMap → Type 0
Spanned i left m m' =
    (j : ℤ)
    → lookup j m' ≡ (if in_span i left j then Option.map revived (lookup j m) else lookup j m)

span_head :
    (i left : ℕ) (j : ℤ)
    → 1 ≤ i
    → eqb_ℤ (uuid_of i) j ≡ true
    → (in_span (suc i) left j ≡ false) × (in_span i (suc left) j ≡ true)
span_head i left j h e = (ground arith, ground arith)

span_tail :
    (i left : ℕ) (j : ℤ)
    → 1 ≤ i
    → eqb_ℤ (uuid_of i) j ≡ false
    → in_span i (suc left) j ≡ in_span (suc i) left j
span_tail i left j h e = ground arith

pub in_span_uuid : (i : ℕ) → 1 ≤ i → i ≤ monster_size → in_span 1 monster_size (uuid_of i) ≡ true
in_span_uuid i h l = ground arith

span_none : (i : ℕ) (j : ℤ) → in_span i 0 j ≡ false
span_none i j = ground arith

uuid_of-ne : (i k : ℕ) → i ≢ k → eqb_ℤ (uuid_of i) (uuid_of k) ≡ false
uuid_of-ne i k h = ground arith

Spanned-step :
    (i left : ℕ) (m m1 m' : MonsterMap) (x : Monster)
    → 1 ≤ i
    → lookup (uuid_of i) m ≡ some x
    → ((j : ℤ) → lookup j m1 ≡ (if eqb_ℤ (uuid_of i) j then some (revived x) else lookup j m))
    → Spanned (suc i) left m1 m'
    → Spanned i (suc left) m m'
Spanned-step i left m m1 m' x h e one rest j = elim (Bool-cases (eqb_ℤ (uuid_of i) j)) [
  | inl q ↦
      rest j
      ∙ rw
          (
            (span_head i left j h q).0,
            (span_head i left j h q).1,
            one j,
            q,
            subst (λ k. lookup k m ≡ some x) (eqb_ℤ→eq _ j q) e,
          )
          refl
  | inr q ↦ rest j ∙ rw (span_tail i left j h q, one j, q) refl
]

-- The monsters from `i` on are there.
abbrev Present : ℕ → ℕ → MonsterMap → Type 0
Present i left m = (k : ℕ) → i ≤ k → k < i + left → (x : Monster) × (lookup (uuid_of k) m ≡ some x)

span_from_lem :
    (left i : ℕ) (m : MonsterMap)
    → 1 ≤ i
    → Present i left m
    → (m' : MonsterMap) × (span_from left i m ≡ done m') × Spanned i left m m'
unfolding span_from
span_from_lem zero i m h v = (m, refl, λ j. rw (span_none i j) refl)
span_from_lem (suc left) i m h v =
    let (x, e) = v i (omega arith) (omega arith) in
    let (m1, s1, one) = span_one_lem m (uuid_of i) x e in
    let (m', s', rest) = span_from_lem left (suc i) m1 (omega arith) (λ k a b.
      let (y, f) = v k (omega arith) (omega arith) in
      (y, one (uuid_of k) ∙ rw (uuid_of-ne i k (omega arith)) f)) in
    (m', rw s1 s', Spanned-step i left m m1 m' x h e one rest)

reborn-IsAlive : (x : Monster) → IsAlive (reborn x).info
reborn-IsAlive x e = omega arith

revived-IsAlive : (x : Monster) → IsAlive x.info → IsAlive (revived x).info
revived-IsAlive x a = elim (Bool-cases x.is_spawned) [
  | inl s ↦ subst (λ y. IsAlive y.info) (sym (revived_spawned x s)) a
  | inr s ↦
      subst (λ y. IsAlive y.info) (sym (ap (λ b. if b then x else reborn x) s)) (reborn-IsAlive x)
]

Spanned-IsValid : (m m' : MonsterMap) → IsValid m → Spanned 1 monster_size m m' → IsValid m'
Spanned-IsValid m m' v s = record {
  present = λ i h l.
      let (x, e) = v.present i h l in (revived x, s (uuid_of i) ∙ rw (in_span_uuid i h l, e) refl);
  alive = λ j y h. elim (Bool-cases (in_span 1 monster_size j)) [
    | inl q ↦
        let (x, e, r) = map-some revived (lookup j m) y (sym (s j ∙ rw q refl) ∙ h) in
        subst (λ z. IsAlive z.info) r (revived-IsAlive x (v.alive j x e))
    | inr q ↦ v.alive j y (sym (s j ∙ rw q refl) ∙ h)
  ];
}

-- `SpanMoster` on a valid room faults nowhere: each of the monsters `-1` to `-10` that is off the map comes back
-- at its start, at height 100 and with yaw 0, not where it died, with 100 hit points and no target, and otherwise
-- as it was; no other entry is changed, and the room stays valid.
pub span_monsters_lem :
    (m : MonsterMap)
    → IsValid m
    → (m' : MonsterMap) × (span_monsters m ≡ done m') × Spanned 1 monster_size m m' × IsValid m'
unfolding span_monsters
span_monsters_lem m v =
    let (m', e, s) =
      span_from_lem monster_size 1 m (omega arith) (λ k a b. v.present k a (omega arith)) in
    (m', e, s, Spanned-IsValid m m' v s)
