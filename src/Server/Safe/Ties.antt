-- ===== src/Server/Safe/Ties.antt =====
-- GameBS/BS_GameRoom.h: who is connected after a change of the room.
use bsgame_server.Base.{
  ◌≡◌, refl, sym, ap, ◌∙◌, subst, [], ◌∷◌, ◌++◌, true, none, some, if◌then◌else◌, Option, inl, inr,
  ◌⊎◌, Bool-cases, Option-cases, lookup, insert, erase, lookup-insert, lookup-erase, map-some,
}
use bsgame_server.Base.Int.{ℤ, eqb_ℤ, eqb_ℤ→eq}
use bsgame_server.SendBuffer.Chunk.{SendBuffer}
use bsgame_server.Session.{Session, send, push_buffer}
use bsgame_server.Room.Sessions.{
  each, lookup-each, broadcast, broadcast_another, broadcast_push_message,
}
use bsgame_server.Room.State.{Room, send_to, send_all, send_others}
use bsgame_server.Room.State
use bsgame_server.Room.Entry.{enter}
use bsgame_server.Service.{Service}
use bsgame_server.Server.Safe.Link.{Linked}

-- A session that is connected, in the room or outside.
abbrev IsLive : ℤ → Room → Type 0
IsLive k r =
    ((s : Session) × (lookup k r.sessions ≡ some s) × (s.connected ≡ true))
    ⊎ ((r.outside k).connected ≡ true)

-- Who is connected in the room was so before, in it or outside.
pub record Ties (r r' : Room) : Type 0 where
  pub source :
      (k : ℤ) (s : Session) → lookup k r'.sessions ≡ some s → s.connected ≡ true → IsLive k r
  pub outside : r'.outside ≡ r.outside

pub Ties-refl : (r : Room) → Ties r r
Ties-refl r = record { source = λ k s e c. inl (s, e, c); outside = refl }

pub Ties-trans : {r s t : Room} → Ties r s → Ties s t → Ties r t
Ties-trans a b = record {
  source = λ k x e c. elim (b.source k x e c) [
    | inl (y, f, d) ↦ a.source k y f d
    | inr d ↦ inr (sym (ap (λ (o : ℤ → Session). (o k).connected) a.outside) ∙ d)
  ];
  outside = b.outside ∙ a.outside;
}

pub Ties-Linked : {v : Service} {r r' : Room} → Ties r r' → Linked v r → Linked v r'
Ties-Linked a l = record {
  inside = λ k s e c. elim (a.source k s e c) [
    | inl (x, f, d) ↦ l.inside k x f d
    | inr d ↦ l.waiting k d
  ];
  waiting = λ k c. l.waiting k (sym (ap (λ (o : ℤ → Session). (o k).connected) a.outside) ∙ c);
}

pub value_apart : (s : Session) → none ≡ some s → ⊥
value_apart s e = cc

some_same : {x y : Session} → some x ≡ some y → x ≡ y
some_same e = cc

-- A change of every session that connects none.
each-Ties :
    (g : ℤ → Session → Session) (r r' : Room)
    → ((k : ℤ) (s : Session) → (g k s).connected ≡ s.connected)
    → r'.sessions ≡ each g r.sessions
    → r'.outside ≡ r.outside
    → Ties r r'
each-Ties g r r' same e o = record {
  source = λ k s f c.
      let (x, p, q) =
        map-some (g k) (lookup k r.sessions) s
          (sym (ap (λ m. lookup k m) e ∙ lookup-each g k r.sessions) ∙ f) in
      inl (x, p, sym (same k x) ∙ ap (λ (y : Session). y.connected) q ∙ c);
  outside = o;
}

-- One session that takes a place in the room.
insert-Ties :
    (fd : ℤ) (s : Session) (r r' : Room)
    → (s.connected ≡ true → IsLive fd r)
    → r'.sessions ≡ insert fd s r.sessions
    → r'.outside ≡ r.outside
    → Ties r r'
insert-Ties fd s r r' h e o = record {
  source = λ k x f c.
      let at_k = sym (ap (λ m. lookup k m) e ∙ lookup-insert fd k s r.sessions) ∙ f in
      elim (Bool-cases (eqb_ℤ fd k)) [
        | inl d ↦
            let same : s ≡ x = some_same (rw d at at_k) in
            subst (λ i. IsLive i r) (eqb_ℤ→eq fd k d)
              (h (ap (λ (y : Session). y.connected) same ∙ c))
        | inr d ↦ inl (x, rw d at at_k, c)
      ];
  outside = o;
}

send-connected :
    (result : ℤ) (s : Session) (b : SendBuffer) → (send result s b).2.connected ≡ s.connected
unfolding send
send-connected result s b = elim (Bool-cases s.connected) [ inl e ↦ rw e refl | inr e ↦ rw e refl ]

pub send_to-Ties :
    (results : ℤ → ℤ) (fd : ℤ) (b : SendBuffer) (r : Room) → Ties r (send_to results fd b r)
unfolding send_to
send_to-Ties results fd b r = elim (Option-cases (lookup fd r.sessions)) [
  | inl e ↦ rw (e, send_to) (Ties-refl r)
  | inr (s, e) ↦
      rw (e, send_to)
        (insert-Ties fd (send (results fd) s b).2 r
          (record r {
            sessions = insert fd (send (results fd) s b).2 r.sessions;
            sent = r.sent ++ ((fd, (send (results fd) s b).1) ∷ []);
          })
          (λ c. inl (s, e, sym (send-connected (results fd) s b) ∙ c)) refl refl)
]

pub send_all-Ties : (results : ℤ → ℤ) (b : SendBuffer) (r : Room) → Ties r (send_all results b r)
unfolding send_all broadcast
send_all-Ties results b r =
    each-Ties (λ k s. (send (results k) s b).2) r (send_all results b r)
      (λ k s. send-connected (results k) s b) refl refl

pub send_others-Ties :
    (results : ℤ → ℤ) (b : SendBuffer) (fd : ℤ) (r : Room) → Ties r (send_others results b fd r)
unfolding send_others broadcast_another
send_others-Ties results b fd r =
    each-Ties (λ k s. if eqb_ℤ fd k then s else (send (results k) s b).2) r
      (send_others results b fd r)
      (λ k s. elim (Bool-cases (eqb_ℤ fd k)) [
        | inl e ↦ rw e refl
        | inr e ↦ rw e (send-connected (results k) s b)
      ])
      refl refl

pub push_all-Ties : (b : SendBuffer) (r : Room) → Ties r (State.push_all b r)
unfolding State.push_all broadcast_push_message push_buffer
push_all-Ties b r =
    each-Ties (λ _ s. push_buffer s b) r (State.push_all b r) (λ k s. refl) refl refl

pub erase-Ties : (fd : ℤ) (r : Room) → Ties r (record r { sessions = erase fd r.sessions })
erase-Ties fd r = record {
  source = λ k s e c.
      let at_k = sym (lookup-erase fd k r.sessions) ∙ e in
      elim (Bool-cases (eqb_ℤ fd k)) [
        | inl d ↦ absurd (value_apart s (rw d at at_k))
        | inr d ↦ inl (s, rw d at at_k, c)
      ];
  outside = refl;
}

pub enter-Ties : (fd : ℤ) (r : Room) → Ties r (enter fd r)
unfolding enter
enter-Ties fd r = elim (Option-cases (lookup fd r.sessions)) [
  | inl e ↦
      insert-Ties fd (r.outside fd) r (enter fd r) (λ c. inr c)
        (ap
          (λ (o : Option Session).
            insert fd (elim o as (λ _. Session) [ none ↦ r.outside fd | some s ↦ s ]) r.sessions)
          e)
        refl
  | inr (s, e) ↦
      insert-Ties fd s r (enter fd r) (λ c. inl (s, e, c))
        (ap
          (λ (o : Option Session).
            insert fd (elim o as (λ _. Session) [ none ↦ r.outside fd | some x ↦ x ]) r.sessions)
          e)
        refl
]
