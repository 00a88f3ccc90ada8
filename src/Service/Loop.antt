-- ===== src/Service/Loop.antt =====
-- CoreLib/Service.cpp: the loop of `ReadClient`, over any property of the sessions that a call of
-- `ReciveMessage` keeps.
use bsgame_server.Base.{
  contains-insert, ◌≡◌, refl, sym, ap, ◌∙◌, subst, List, [], ◌∷◌, ◌++◌, ℕ, Bool, true, false,
  if◌then◌else◌, take-nil, inl, inr, Bool-cases, Option-cases, arith, none, some, lookup, insert,
  erase,
}
use bsgame_server.Base.Int.{ℤ, pos, pos_part, sub_int32}
use bsgame_server.Base.Run.{Run, done}
use bsgame_server.RecvBuffer.{free_size}
use bsgame_server.Session.{Session, receive_message}
use bsgame_server.Service.{
  Service, Reading, release_session, receive, read_loop, read_session, read_client,
}
use bsgame_server.Service.Table.{
  AllEntries, insert-AllEntries, erase-AllEntries, is_dry, get_session-none, get_session-some,
}

-- A call that returns in a table whose sessions have `E`, and a state with `P`.
abbrev pub Fine {ℓ κ μ} :
    {S : Type ℓ} → (ℤ → Session → Type κ) → (S → Type μ) → Run (Service × S) → Type (ℓ ⊔ κ ⊔ μ)
Fine {S = S} E P call =
    (v' : Service) × (st' : S) × (call ≡ done (v', st')) × AllEntries E v'.session_map × P st'

-- A call of `ReciveMessage` that returns: with `true`, the session still has `E`.
abbrev pub Keeps {ℓ κ μ} :
    {S : Type ℓ}
    → (ℤ → Session → Type κ)
    → (S → Type μ)
    → Session
    → Run (Bool × Session × S)
    → Type (ℓ ⊔ κ ⊔ μ)
Keeps {S = S} E P s call =
    (ok : Bool) × (s' : Session) × (st' : S) × (call ≡ done (ok, s', st'))
    × (s'.socket_fd ≡ s.socket_fd)
    × (ok ≡ true → E s'.socket_fd s')
    × P st'

-- A property of what there is to read at each call.
abbrev pub AllReadings {ℓ} : (Reading → Type ℓ) → List Reading → Type ℓ
AllReadings G [] = Unit
AllReadings G (x ∷ rest) = G x × AllReadings G rest

-- A message was handled, so there was something to read.
pub is_dry_rest {ℓ} :
    {S : Type ℓ} (on_recv : ℤ → List ℕ → ℕ → S → Run (S × ℕ))
    (release_message : Session → S → Run S) (incoming : List ℕ) (b : Bool) (rest : List Reading)
    (s s' : Session) (st st' : S)
    → is_dry (record { incoming = incoming; would_block = b } ∷ rest) ≡ true
    → receive on_recv release_message (record { incoming = incoming; would_block = b }) s st
      ≡ done (true, s', st')
    → is_dry rest ≡ true
unfolding is_dry receive receive_message
is_dry_rest on_recv release_message [] b rest s s' st st' d e =
    ground (arith, take-nil {A = ℕ} (pos_part (free_size s.recv_buffer)), e)
is_dry_rest on_recv release_message (c ∷ bytes) b rest s s' st st' d e = d

module _ {ℓ κ μ ν} {S : Type ℓ} (E : ℤ → Session → Type κ) (G : Reading → Type ν) (P : S → Type μ)
    (on_recv : ℤ → List ℕ → ℕ → S → Run (S × ℕ)) (release_message : Session → S → Run S)
    (own : (k : ℤ) (s : Session) → E k s → s.socket_fd ≡ k)
    (receive_keeps : (x : Reading) (s : Session) (st : S)
      → G x
      → E s.socket_fd s
      → P st
      → Keeps E P s (receive on_recv release_message x s st))
    (release_returns : (s : Session) (st : S)
      → P st
      → (st' : S) × (release_message s st ≡ done st') × P st') where
  release-Fine :
      (s : Session) (v : Service) (st : S)
      → AllEntries E v.session_map
      → P st
      → Fine E P (
          release_session on_recv release_message s
            (record v { session_map = insert s.socket_fd (some s) v.session_map })
            st)
  unfolding release_session
  release-Fine s v st t h =
      let (st', e, h') = release_returns s st h in
      (
        record v {
          session_map = erase s.socket_fd (insert s.socket_fd (some s) v.session_map);
          session_count = sub_int32 v.session_count (pos 1);
          closed = v.closed ++ (s.socket_fd ∷ []);
        },
        st',
        rw (contains-insert s.socket_fd (some s) v.session_map, e) refl,
        erase-AllEntries E v.session_map s.socket_fd (some s) t,
        h',
      )

  Fine-if :
      (c : Bool) (p q : Run (Service × S)) → Fine E P p → Fine E P q → Fine E P (if c then p else q)
  Fine-if true p q a b = a
  Fine-if false p q a b = b

  read_loop-Fine :
      (reads : List Reading) (s : Session) (v : Service) (st : S)
      → is_dry reads ≡ true
      → AllReadings G reads
      → E s.socket_fd s
      → AllEntries E v.session_map
      → P st
      → Fine E P (read_loop on_recv release_message reads s v st)
  unfolding read_loop is_dry
  read_loop-Fine [] s v st d g n t h = cc
  read_loop-Fine (x ∷ rest) s v st d g n t h =
      let (ok, s', st', e, same, k, h') = receive_keeps x s st g.0 n h in
      rw e (elim (Bool-cases ok) [
        | inr q ↦ rw q (release-Fine s' v st' t h')
        | inl q ↦
            let n' = k q in
            let t' =
              insert-AllEntries E v.session_map s'.socket_fd (some s')
                (λ y f. let p : s' ≡ y = cc in subst (E s'.socket_fd) p n') t in
            let v' : Service = record v {
              session_map = insert s'.socket_fd (some s') v.session_map;
            } in
            rw q (
              Fine-if x.would_block (done (v', st'))
                (read_loop on_recv release_message rest s' v' st') (v', st', refl, t', h')
                (read_loop-Fine rest s' v' st'
                  (is_dry_rest on_recv release_message x.incoming x.would_block rest s s' st st' d
                    (e ∙ ap (λ o. done (o, s', st')) q))
                  g.1 n' t' h'))
      ])

  pub read_client-Fine :
      (fd : ℤ) (reads : List Reading) (v : Service) (st : S)
      → is_dry reads ≡ true
      → AllReadings G reads
      → AllEntries E v.session_map
      → P st
      → Fine E P (read_client on_recv release_message fd reads v st)
  unfolding read_client read_session
  read_client-Fine fd reads v st d g t h = elim (Option-cases (lookup fd v.session_map)) [
    | inl e ↦ rw (get_session-none fd v e) (
      record v { session_map = insert fd none v.session_map },
      st,
      refl,
      insert-AllEntries E v.session_map fd none (λ s f. cc) t,
      h,
    )
    | inr (none, e) ↦ rw (get_session-some fd none v e) (v, st, refl, t, h)
    | inr (some s, e) ↦
        let n = t fd s e in
        rw (get_session-some fd (some s) v e)
          (read_loop-Fine reads s v st d g (subst (λ k. E k s) (sym (own fd s n)) n) t h)
  ]
