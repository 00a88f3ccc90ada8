-- ===== src/Server/Safe/Link.antt =====
-- GameBS/main.cpp, CoreLib/Service.cpp: the sessions of the room and of the service as one.
use bsgame_server.Base.{
  ℕ, zero, suc, ◌+◌, ◌-◌, ◌≡◌, refl, sym, ap, ◌∙◌, subst, List, [], ◌∷◌, Bool, true, false, some,
  inl, inr, Bool-cases, lookup, ltb, drop, take, not, ◌||◌, length,
}
use bsgame_server.Base.Int.{ℤ, pos, pos_part, ltb_ℤ, leb_ℤ}
use bsgame_server.Base.Run.{Run, done, fault, read, >>=-eq-done}
use bsgame_server.Framing.{packet_size, on_recv_loop, on_recv, header_size}
use bsgame_server.RecvBuffer.{read_ptr, data_size, free_size, on_read, on_write, fill}
use bsgame_server.Session.{Session, process, receive_message}
use bsgame_server.Session.Ending.{receive_message-disconnected}
use bsgame_server.Handler.{handle_packet}
use bsgame_server.Room.State.{Room}
use bsgame_server.Service.{Service, Reading, receive}
use bsgame_server.Server.{Game, world_of, put_world, handle_game, recv_game, release_game}

-- A session in the table.
abbrev pub Stands : ℤ → Service → Type 0
Stands k v = (s : Session) × (lookup k v.session_map ≡ some (some s))

-- Each session that is connected, in the room or outside, is in the table.
pub record Linked (v : Service) (r : Room) : Type 0 where
  pub inside :
      (k : ℤ) (s : Session) → lookup k r.sessions ≡ some s → s.connected ≡ true → Stands k v
  pub waiting : (k : ℤ) → (r.outside k).connected ≡ true → Stands k v

-- The same sessions are in the room and outside.
pub record Sides (r r' : Room) : Type 0 where
  pub sessions : r'.sessions ≡ r.sessions
  pub outside : r'.outside ≡ r.outside

Sides-refl : (r : Room) → Sides r r
Sides-refl r = record { sessions = refl; outside = refl }

Sides-trans : {r s t : Room} → Sides r s → Sides s t → Sides r t
Sides-trans a b = record { sessions = b.sessions ∙ a.sessions; outside = b.outside ∙ a.outside }

pub Sides-Linked : {v : Service} {r r' : Room} → Sides r r' → Linked v r → Linked v r'
Sides-Linked {r = r} {r' = r'} a l = record {
  inside = λ k s e c. l.inside k s (sym (ap (λ m. lookup k m) a.sessions) ∙ e) c;
  waiting = λ k c. l.waiting k (sym (ap (λ (o : ℤ → Session). (o k).connected) a.outside) ∙ c);
}

pub Linked-more :
    {v v' : Service} {r : Room} → ((k : ℤ) → Stands k v → Stands k v') → Linked v r → Linked v' r
Linked-more m l = record {
  inside = λ k s e c. m k (l.inside k s e c);
  waiting = λ k c. m k (l.waiting k c);
}

handle_game-Sides :
    (fd : ℤ) (buffer : List ℕ) (len : ℕ) (g g' : Game)
    → handle_game fd buffer len g ≡ done g'
    → Sides g.room g'.room
unfolding handle_game put_world
handle_game-Sides fd buffer len g g' e =
    let (w, _, p) =
      >>=-eq-done (handle_packet fd buffer len (world_of fd g)) (λ w. done (put_world fd w g)) e in
    let same : put_world fd w g ≡ g' = cc in
    subst (λ (x : Game). Sides g.room x.room) same (record { sessions = refl; outside = refl })

on_recv_loop-Sides :
    (fd : ℤ) (fuel : ℕ) (buffer : List ℕ) (len use_len : ℕ) (g g' : Game) (n : ℕ)
    → on_recv_loop (handle_game fd) fuel buffer len use_len g ≡ done (g', n)
    → Sides g.room g'.room
unfolding on_recv_loop
on_recv_loop-Sides fd zero buffer len use_len g g' n e = cc
on_recv_loop-Sides fd (suc fuel) buffer len use_len g g' n e =
    elim (Bool-cases (ltb (len - use_len) header_size)) [
      | inl c ↦
          let same : g ≡ g' = ap fst_of (rw c at e) in
          subst (λ (x : Game). Sides g.room x.room) same (Sides-refl g.room)
      | inr c ↦
          let (size, _, more) =
            >>=-eq-done (read (packet_size (drop use_len buffer))) _ (rw c at e) in
          elim (Bool-cases (ltb (len - use_len) size)) [
            | inl d ↦
                let same : g ≡ g' = ap fst_of (rw d at more) in
                subst (λ (x : Game). Sides g.room x.room) same (Sides-refl g.room)
            | inr d ↦
                let (g1, p, q) =
                  >>=-eq-done (handle_game fd (drop use_len buffer) size g) _ (rw d at more) in
                Sides-trans (handle_game-Sides fd (drop use_len buffer) size g g1 p)
                  (on_recv_loop-Sides fd fuel buffer len (use_len + size) g1 g' n q)
          ]
    ]
  where
    fst_of : Run (Game × ℕ) → Game
    fst_of (done x) = x.0
    fst_of (fault y) = g

-- `ReciveMessage` leaves the sessions of the room alone.
pub receive-Sides :
    (fuel : ℕ) (x : Reading) (s s' : Session) (g g' : Game) (ok : Bool)
    → receive (recv_game fuel) release_game x s g ≡ done (ok, s', g')
    → Sides g.room g'.room
unfolding receive receive_message process recv_game on_recv
receive-Sides fuel x s s' g g' ok e =
    received (take (pos_part (free_size s.recv_buffer)) x.incoming) e
  where
    third : Run (Bool × Session × Game) → Game
    third (done y) = y.2
    third (fault y) = g

    ends_in : (h : Game) → h ≡ g' → Sides g.room h.room → Sides g.room g'.room
    ends_in h p a = subst (λ (y : Game). Sides g.room y.room) p a

    processed :
        (t : Session)
        → process (recv_game fuel s.socket_fd) t g ≡ done (ok, s', g')
        → Sides g.room g'.room
    processed t p =
        let ((h, n), q, more) =
          >>=-eq-done
            (recv_game fuel s.socket_fd (read_ptr t.recv_buffer)
              (pos_part (data_size t.recv_buffer)) g)
            _ p in
        let a =
          on_recv_loop-Sides s.socket_fd fuel (read_ptr t.recv_buffer)
            (pos_part (data_size t.recv_buffer)) 0 g h n q in
        let refused =
          not (on_read t.recv_buffer (pos n)).0
          || leb_ℤ (pos n) (pos 0)
          || ltb_ℤ (data_size t.recv_buffer) (pos n) in
        elim (Bool-cases refused) [
          | inl c ↦ ends_in h (ap third (rw c at more)) a
          | inr c ↦ ends_in h (ap third (rw c at more)) a
        ]

    received :
        (bytes : List ℕ)
        → receive_message (recv_game fuel s.socket_fd) s bytes g ≡ done (ok, s', g')
        → Sides g.room g'.room
    received [] p = ends_in g (ap third p) (Sides-refl g.room)
    received (b ∷ bytes) p =
        let written = on_write (fill s.recv_buffer (b ∷ bytes)) (pos (length (b ∷ bytes))) in
        elim (Bool-cases written.0) [
          | inl c ↦ processed (record s { recv_buffer = written.1 }) (rw c at p)
          | inr c ↦ ends_in g (ap third (rw c at p)) (Sides-refl g.room)
        ]

-- `ReciveMessage` that returns `false` has disconnected the session.
pub receive-disconnected :
    (fuel : ℕ) (x : Reading) (s s' : Session) (g g' : Game)
    → receive (recv_game fuel) release_game x s g ≡ done (false, s', g')
    → s'.connected ≡ false
unfolding receive
receive-disconnected fuel x s s' g g' e =
    receive_message-disconnected (recv_game fuel s.socket_fd) s s'
      (take (pos_part (free_size s.recv_buffer)) x.incoming) g g' e
