-- ===== src/Server/Drain.antt =====
-- CoreLib/Service.cpp, `ReadClient`: how the loop over `recv` ends the session of a client of the game.
use bsgame_server.Base.{
  contains-insert, ℕ, ◌≤◌, ◌≡◌, refl, sym, ap, ◌∙◌, subst, List, [], ◌∷◌, ◌++◌, Bool, true, false,
  if◌then◌else◌, inl, inr, Bool-cases, arith, none, some, lookup, insert, erase, lookup-erase,
}
use bsgame_server.Base.Int.{ℤ, pos, eqb_ℤ_self, sub_int32}
use bsgame_server.Base.Run.{Run, done}
use bsgame_server.Session.{Session}
use bsgame_server.Service.{Service, Reading, release_session, read_loop, read_session, read_client}
use bsgame_server.Service.Table.{is_dry, get_session-some}
use bsgame_server.Service.Loop.{AllReadings, is_dry_rest}
use bsgame_server.Server.{Game, recv_game, release_game}
use bsgame_server.Server.Inputs.{enough, IsRequests}
use bsgame_server.Server.Keep.{IsRunning, release_game-IsRunning}
use bsgame_server.Server.Clients.{IsClient, receive-IsClient}

-- `errno` is EAGAIN after no call of `recv`.
unfoldable pub never_blocks : List Reading → Bool
never_blocks [] = true
never_blocks (x ∷ rest) = let others = never_blocks rest in if x.would_block then false else others

-- A call that returns with the session `fd` out of the table, its descriptor closed once more, and a valid game.
abbrev pub Ends : ℤ → Service → Run (Service × Game) → Type 0
Ends fd v call =
    (v' : Service) × (g' : Game) × (call ≡ done (v', g'))
    × (lookup fd v'.session_map ≡ none)
    × (v'.closed ≡ v.closed ++ (fd ∷ []))
    × IsRunning g'

module _ (fuel : ℕ) where
  release-Ends :
      (fd : ℤ) (s : Session) (v : Service) (g : Game)
      → s.socket_fd ≡ fd
      → IsRunning g
      → Ends fd v (
          release_session
            (recv_game fuel)
            release_game
            s
            (record v { session_map = insert s.socket_fd (some s) v.session_map })
            g)
  unfolding release_session
  release-Ends fd s v g p h =
      let k = s.socket_fd in
      let (g', e, h') = release_game-IsRunning s g h in
      (
        record v {
          session_map = erase k (insert k (some s) v.session_map);
          session_count = sub_int32 v.session_count (pos 1);
          closed = v.closed ++ (k ∷ []);
        },
        g',
        rw (contains-insert k (some s) v.session_map, e) refl,
        subst (λ i. lookup i (erase k (insert k (some s) v.session_map)) ≡ none) p
            (lookup-erase k k (insert k (some s) v.session_map) ∙ rw (eqb_ℤ_self k) refl),
        ap (λ i. v.closed ++ (i ∷ [])) p,
        h',
      )

  Ends-if :
      (fd : ℤ) (v : Service) (c : Bool) (p q : Run (Service × Game))
      → c ≡ false
      → Ends fd v q
      → Ends fd v (if c then p else q)
  Ends-if fd v true p q e h = cc
  Ends-if fd v false p q e h = h

  read_loop-Ends :
      (reads : List Reading) (fd : ℤ) (s : Session) (v : Service) (g : Game)
      → enough ≤ fuel
      → is_dry reads ≡ true
      → never_blocks reads ≡ true
      → AllReadings IsRequests reads
      → s.socket_fd ≡ fd
      → IsClient s.socket_fd s
      → IsRunning g
      → Ends fd v (read_loop (recv_game fuel) release_game reads s v g)
  unfolding read_loop is_dry never_blocks
  read_loop-Ends [] fd s v g f d b n own c h = cc
  read_loop-Ends (x ∷ rest) fd s v g f d b n own c h =
      let (ok, s', g', e, same, k, h') = receive-IsClient fuel f x s g n.0 c h in
      let now : x.would_block ≡ false = ground (arith, b) in
      let later : never_blocks rest ≡ true = ground (arith, b) in
      let v' : Service = record v { session_map = insert s'.socket_fd (some s') v.session_map } in
      rw e (elim (Bool-cases ok) [
        | inr q ↦ rw q (release-Ends fd s' v g' (same ∙ own) h')
        | inl q ↦ rw q (
            Ends-if fd v x.would_block (done (v', g'))
              (read_loop (recv_game fuel) release_game rest s' v' g') now
              (read_loop-Ends rest fd s' v' g' f
                (is_dry_rest (recv_game fuel) release_game x.incoming x.would_block rest s s' g g' d
                  (e ∙ ap (λ o. done (o, s', g')) q))
                later n.1 (same ∙ own) (k q) h'))
      ])

-- The rounds of `OnRecv` are bounded by 163841 or more, the game is valid, and a client of the table of which
-- nothing is left over has sent whole packets with sound requests, which fit the receive buffer at each call of
-- `recv`; a last call finds nothing, and `errno` is EAGAIN after no call before it. Then `ReadClient` takes the
-- session out of the table and closes its descriptor, and the game is still valid.
pub drained_client_released :
    (fuel : ℕ) (fd : ℤ) (s : Session) (reads : List Reading) (v : Service) (g : Game)
    → enough ≤ fuel
    → lookup fd v.session_map ≡ some (some s)
    → IsClient fd s
    → is_dry reads ≡ true
    → never_blocks reads ≡ true
    → AllReadings IsRequests reads
    → IsRunning g
    → Ends fd v (read_client (recv_game fuel) release_game fd reads v g)
unfolding read_client read_session
drained_client_released fuel fd s reads v g f e c d b n h = rw (get_session-some fd (some s) v e) (
    read_loop-Ends fuel reads fd s v g f d b n c.entry.own
      (subst (λ k. IsClient k s) (sym c.entry.own) c) h)
