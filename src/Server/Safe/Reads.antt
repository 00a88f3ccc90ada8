-- ===== src/Server/Safe/Reads.antt =====
-- CoreLib/Service.cpp: what `ReadClient` and `AcceptClient` do to the sessions of the room and of the table.
use bsgame_server.Base.{
  ℕ, ◌≡◌, refl, sym, ap, ◌∙◌, subst, List, [], ◌∷◌, ◌++◌, Bool, true, false, none, some,
  if◌then◌else◌, inl, inr, Bool-cases, Option-cases, lookup, insert, erase, lookup-insert,
  lookup-erase, contains, map-some,
}
use bsgame_server.Base.Int.{ℤ, pos, ltb_ℤ, eqb_ℤ, eqb_ℤ→eq, eqb_ℤ_self, sub_int32}
use bsgame_server.Room.Seats.{eqb_ℤ_swap}
use bsgame_server.Base.Run.{Run, Fault, done, fault, out_of_fuel, assert_crash, >>=-eq-done}
use bsgame_server.Session.{Session, open_session}
use bsgame_server.Room.Sessions.{lookup-each}
use bsgame_server.Room.State.{Room}
use bsgame_server.Service.{
  Service, Accepted, Reading, receive, release_session, read_loop, read_session, read_client,
  accept_loop, take_client, register, epoll_register, add_session,
}
use bsgame_server.Service.Game.{release_session_message}
use bsgame_server.Service.Table.{get_session-none, get_session-some}
use bsgame_server.Server.{
  Game, world_of, put_world, recv_game, release_game, shared, share_session, create_session,
  create_sessions,
}
use bsgame_server.Server.Safe.Link.{
  Stands, Linked, Sides, Sides-Linked, Linked-more, receive-Sides, receive-disconnected,
}

insert-Stands :
    (fd : ℤ) (s : Session) (v : Service) (k : ℤ)
    → Stands k v
    → Stands k (record v { session_map = insert fd (some s) v.session_map })
insert-Stands fd s v k (x, e) = elim (Bool-cases (eqb_ℤ fd k)) [
  | inl c ↦ (s, lookup-insert fd k (some s) v.session_map ∙ rw c refl)
  | inr c ↦ (x, lookup-insert fd k (some s) v.session_map ∙ rw c e)
]

null-Stands :
    (fd : ℤ) (v : Service) (k : ℤ)
    → lookup fd v.session_map ≡ none
    → Stands k v
    → Stands k (record v { session_map = insert fd none v.session_map })
null-Stands fd v k n (x, e) = elim (Bool-cases (eqb_ℤ fd k)) [
  | inl c ↦
      let same : lookup fd v.session_map ≡ lookup k v.session_map =
        ap (λ i. lookup i v.session_map) (eqb_ℤ→eq fd k c) in
      cc
  | inr c ↦ (x, lookup-insert fd k none v.session_map ∙ rw c e)
]

pub fault_done : {A : Type 0} (y : Fault) (x : A) → fault y ≡ done x → ⊥
fault_done y x e = cc

done_same : {A : Type 0} {x y : A} → done x ≡ done y → x ≡ y
done_same e = cc

pub truth_apart : true ≡ false → ⊥
truth_apart e = cc

-- A session that is disconnected is no more of the table, and the room knows it.
release-Linked :
    (x : Session) (v : Service) (r : Room)
    → x.connected ≡ false
    → Linked v r
    → Linked
        (record v {
          session_map = erase x.socket_fd v.session_map;
          session_count = sub_int32 v.session_count (pos 1);
          closed = v.closed ++ (x.socket_fd ∷ []);
        })
        (share_session x r)
unfolding share_session
release-Linked x v r off l = record { inside = inside; waiting = waiting }
  where
    stays :
        (k : ℤ)
        → eqb_ℤ k x.socket_fd ≡ false
        → Stands k v
        → (s : Session) × (lookup k (erase x.socket_fd v.session_map) ≡ some (some s))
    stays k c (y, e) =
        (y, lookup-erase x.socket_fd k v.session_map ∙ rw (eqb_ℤ_swap k x.socket_fd c) e)

    inside :
        (k : ℤ) (s : Session)
        → lookup k (share_session x r).sessions ≡ some s
        → s.connected ≡ true
        → (t : Session) × (lookup k (erase x.socket_fd v.session_map) ≡ some (some t))
    inside k s e c =
        let g : ℤ → Session → Session = λ j y. if eqb_ℤ j x.socket_fd then shared x y else y in
        let (y, p, q) =
          map-some (g k) (lookup k r.sessions) s (sym (lookup-each g k r.sessions) ∙ e) in
        elim (Bool-cases (eqb_ℤ k x.socket_fd)) [
          | inl d ↦
              let same : shared x y ≡ s = rw d at q in
              absurd (truth_apart (sym (sym off ∙ ap (λ (z : Session). z.connected) same ∙ c)))
          | inr d ↦
              let same : y ≡ s = rw d at q in
              stays k d (l.inside k y p (ap (λ (z : Session). z.connected) same ∙ c))
        ]

    waiting :
        (k : ℤ)
        → ((share_session x r).outside k).connected ≡ true
        → (t : Session) × (lookup k (erase x.socket_fd v.session_map) ≡ some (some t))
    waiting k c = elim (Bool-cases (eqb_ℤ k x.socket_fd)) [
      | inl d ↦ absurd (truth_apart (sym (sym off ∙ (rw d at c))))
      | inr d ↦ stays k d (l.waiting k (rw d at c))
    ]

release_game-Sides :
    (x : Session) (g g' : Game)
    → release_game x g ≡ done g'
    → Sides (share_session x g.room) g'.room
unfolding release_game put_world
release_game-Sides x g g' e =
    let left : Game = record g { room = share_session x g.room } in
    let (w, _, p) =
      >>=-eq-done (release_session_message x (world_of x.socket_fd left))
        (λ w. done (put_world x.socket_fd w left)) e in
    let same : put_world x.socket_fd w left ≡ g' = cc in
    subst (λ (y : Game). Sides (share_session x g.room) y.room) same
      (record { sessions = refl; outside = refl })

-- A call after which the sessions are linked, if it returns.
abbrev pub Links : Run (Service × Game) → Type 0
Links call = (v' : Service) (g' : Game) → call ≡ done (v', g') → Linked v' g'.room

pub done-Links : (v : Service) (g : Game) → Linked v g.room → Links (done (v, g))
done-Links v g l v' g' e =
    let p : v ≡ v' = cc in
    let q : g ≡ g' = cc in
    subst (λ x. Linked x g'.room) p (subst (λ (y : Game). Linked v y.room) q l)

if-Links :
    (c : Bool) (p q : Run (Service × Game))
    → Links p
    → (c ≡ false → Links q)
    → Links (if c then p else q)
if-Links true p q a b = a
if-Links false p q a b = b refl

module _ (fuel : ℕ) where
  release_session-Links :
      (x : Session) (v : Service) (g : Game)
      → x.connected ≡ false
      → Linked v g.room
      → Links (release_session (recv_game fuel) release_game x v g)
  unfolding release_session
  release_session-Links x v g off l v' g' e =
      elim (Bool-cases (contains x.socket_fd v.session_map)) [
        | inr c ↦ absurd (fault_done assert_crash (v', g') (rw c at e))
        | inl c ↦
            let (g1, r, d) = >>=-eq-done (release_game x g) _ (rw c at e) in
            done-Links _ g1
              (Sides-Linked (release_game-Sides x g g1 r) (release-Linked x v g.room off l)) v' g' d
      ]

  read_loop-Links :
      (reads : List Reading) (s : Session) (v : Service) (g : Game)
      → Linked v g.room
      → Links (read_loop (recv_game fuel) release_game reads s v g)
  unfolding read_loop
  read_loop-Links [] s v g l v' g' e = absurd (fault_done out_of_fuel (v', g') e)
  read_loop-Links (x ∷ rest) s v g l v' g' e =
      let ((ok, s1, g1), r, d) = >>=-eq-done (receive (recv_game fuel) release_game x s g) _ e in
      let v1 : Service = record v { session_map = insert s1.socket_fd (some s1) v.session_map } in
      let l1 : Linked v1 g1.room =
        Sides-Linked (receive-Sides fuel x s s1 g g1 ok r)
          (Linked-more (insert-Stands s1.socket_fd s1 v) l) in
      if-Links ok
        (if x.would_block
          then done (v1, g1)
          else read_loop (recv_game fuel) release_game rest s1 v1 g1)
        (release_session (recv_game fuel) release_game s1 v1 g1)
        (if-Links x.would_block (done (v1, g1))
          (read_loop (recv_game fuel) release_game rest s1 v1 g1) (done-Links v1 g1 l1)
          (λ _. read_loop-Links rest s1 v1 g1 l1))
        (λ c.
          release_session-Links s1 v1 g1
            (receive-disconnected fuel x s s1 g g1 (r ∙ ap (λ b. done (b, s1, g1)) c)) l1)
        v' g' d

  pub read_client-Links :
      (fd : ℤ) (reads : List Reading) (v : Service) (g : Game)
      → Linked v g.room
      → Links (read_client (recv_game fuel) release_game fd reads v g)
  unfolding read_client read_session
  read_client-Links fd reads v g l = elim (Option-cases (lookup fd v.session_map)) [
    | inl e ↦
        rw (get_session-none fd v e) (done-Links _ g (Linked-more (λ k. null-Stands fd v k e) l))
    | inr (none, e) ↦ rw (get_session-some fd none v e) (done-Links v g l)
    | inr (some s, e) ↦ rw (get_session-some fd (some s) v e) (read_loop-Links reads s v g l)
  ]

-- A new client is in the table, and its session outside the room.
add_session-Linked :
    (name : ℤ → List ℕ) (name_len : ℤ → ℕ) (a : Accepted) (v : Service) (g : Game)
    → Linked v g.room
    → Linked
        (add_session a.peer (open_session a.client_fd) v)
        (create_session name name_len a.client_fd g).room
unfolding add_session create_session open_session
add_session-Linked name name_len a v g l = record {
  inside = λ k s e c. insert-Stands a.client_fd (open_session a.client_fd) v k (l.inside k s e c);
  waiting = λ k c. elim (Bool-cases (eqb_ℤ k a.client_fd)) [
    | inl d ↦ (
      open_session a.client_fd,
      lookup-insert a.client_fd k (some (open_session a.client_fd)) v.session_map
          ∙ rw (ap (λ i. eqb_ℤ a.client_fd i) (eqb_ℤ→eq k a.client_fd d) ∙ eqb_ℤ_self a.client_fd)
              refl,
    )
    | inr d ↦ insert-Stands a.client_fd (open_session a.client_fd) v k (l.waiting k (rw d at c))
  ];
}

-- The clients that `AcceptClient` takes.
pub accept_loop-Linked :
    (name : ℤ → List ℕ) (name_len : ℤ → ℕ) (accepts : List Accepted) (v v' : Service) (g : Game)
    → Linked v g.room
    → accept_loop accepts v ≡ done v'
    → Linked v' (create_sessions name name_len accepts g).room
unfolding accept_loop create_sessions take_client register epoll_register
accept_loop-Linked name name_len [] v v' g l e = absurd (fault_done out_of_fuel v' e)
accept_loop-Linked name name_len (a ∷ rest) v v' g l e =
    elim (Bool-cases (ltb_ℤ (pos 0) a.client_fd)) [
      | inr c ↦
          let same : v ≡ v' = done_same (rw c at e) in rw c (subst (λ x. Linked x g.room) same l)
      | inl c ↦ elim (Bool-cases a.non_block) [
        | inr d ↦ rw (c, d) (accept_loop-Linked name name_len rest v v' g l (rw (c, d) at e))
        | inl d ↦ elim (Bool-cases a.registered) [
          | inr f ↦
              let same : record v { closed = v.closed ++ (a.client_fd ∷ []) } ≡ v' =
                done_same (rw (c, d, f) at e) in
              rw (c, d, f) (subst (λ x. Linked x g.room) same (Linked-more (λ k s. s) l))
          | inl f ↦
              rw (c, d, f)
                (accept_loop-Linked name name_len rest
                  (add_session a.peer (open_session a.client_fd) v) v'
                  (create_session name name_len a.client_fd g)
                  (add_session-Linked name name_len a v g l) (rw (c, d, f) at e))
        ]
      ]
    ]
