-- ===== src/Service/Table.antt =====
-- CoreLib/Service.cpp: what holds of the table of sessions.
use bsgame_server.Base.{
  ℕ, ◌≡◌, refl, sym, ap, ◌∙◌, subst, List, [], ◌∷◌, Bool, true, false, not, ◌||◌, inl, inr,
  Bool-cases, arith, Option, none, some, IntMap, lookup, insert, erase, lookup-insert, lookup-erase,
}
use bsgame_server.Base.Int.{ℤ, pos, ltb_ℤ, eqb_ℤ, eqb_ℤ→eq}
use bsgame_server.Base.Run.{done}
use bsgame_server.RecvBuffer.Laws.{IsValid}
use bsgame_server.RecvBuffer.Queue.{create-IsValid}
use bsgame_server.Session.{Session, open_session}
use bsgame_server.Service.{
  Service, Accepted, Reading, add_session, get_session, register, epoll_register, take_client,
  accept_loop,
}

-- A session that stands under `k`.
pub record IsEntry (k : ℤ) (s : Session) : Type 0 where
  pub own : s.socket_fd ≡ k
  pub connected : s.connected ≡ true
  pub buffer : IsValid s.recv_buffer

-- Each session of the table, with the descriptor that it stands under.
abbrev pub AllEntries {ℓ} : (ℤ → Session → Type ℓ) → IntMap (Option Session) → Type ℓ
AllEntries E m = (k : ℤ) (s : Session) → lookup k m ≡ some (some s) → E k s

module _ {ℓ} (E : ℤ → Session → Type ℓ) where
  pub insert-AllEntries :
      (m : IntMap (Option Session)) (k : ℤ) (o : Option Session)
      → ((s : Session) → o ≡ some s → E k s)
      → AllEntries E m
      → AllEntries E (insert k o m)
  insert-AllEntries m k o h v j s e = elim (Bool-cases (eqb_ℤ k j)) [
    | inl q ↦
        let same : o ≡ some s = ground (arith, lookup-insert k j o m, q, e) in
        subst (λ i. E i s) (eqb_ℤ→eq k j q) (h s same)
    | inr q ↦ v j s (sym (lookup-insert k j o m ∙ rw q refl) ∙ e)
  ]

  pub erase-AllEntries :
      (m : IntMap (Option Session)) (k : ℤ) (o : Option Session)
      → AllEntries E m
      → AllEntries E (erase k (insert k o m))
  erase-AllEntries m k o v j s e = elim (Bool-cases (eqb_ℤ k j)) [
    | inl q ↦ ground (arith, lookup-erase k j (insert k o m), q, e)
    | inr q ↦
        v j s (sym (lookup-erase k j (insert k o m) ∙ rw q (lookup-insert k j o m ∙ rw q refl)) ∙ e)
  ]

  pub add_session-AllEntries :
      (peer : ℕ) (s : Session) (v : Service)
      → E s.socket_fd s
      → AllEntries E v.session_map
      → AllEntries E (add_session peer s v).session_map
  unfolding add_session
  add_session-AllEntries peer s v h t =
      insert-AllEntries v.session_map s.socket_fd (some s)
        (λ x e. let p : s ≡ x = cc in subst (E s.socket_fd) p h) t

  take_client-AllEntries :
      (a : Accepted) (v : Service)
      → E a.client_fd (open_session a.client_fd)
      → AllEntries E v.session_map
      → AllEntries E (take_client a v).1.session_map
  unfolding take_client register epoll_register open_session
  take_client-AllEntries a v h t = elim (Bool-cases a.non_block) [
    | inl e ↦ elim (Bool-cases a.registered) [
      | inl f ↦ rw (e, f) (add_session-AllEntries a.peer (open_session a.client_fd) v h t)
      | inr f ↦ rw (e, f) t
    ]
    | inr e ↦ rw e t
  ]

pub open_session-IsEntry : (fd : ℤ) → IsEntry fd (open_session fd)
unfolding open_session
open_session-IsEntry fd = record {
  own = refl;
  connected = refl;
  buffer = create-IsValid 0x10000 (omega arith);
}

-- The calls of `accept` come to an end: one of them gives no descriptor.
unfoldable pub ends : List Accepted → Bool
ends [] = false
ends (a ∷ rest) = not (ltb_ℤ (pos 0) a.client_fd) || ends rest

-- A session of each new client belongs in the table.
abbrev pub AllOpen {ℓ} : (ℤ → Session → Type ℓ) → List Accepted → Type ℓ
AllOpen E [] = Unit {ℓ}
AllOpen E (a ∷ rest) =
    (ltb_ℤ (pos 0) a.client_fd ≡ true → E a.client_fd (open_session a.client_fd)) × AllOpen E rest

pub accept_loop-AllEntries {ℓ} :
    (E : ℤ → Session → Type ℓ) (accepts : List Accepted) (v : Service)
    → ends accepts ≡ true
    → AllOpen E accepts
    → AllEntries E v.session_map
    → (v' : Service) × (accept_loop accepts v ≡ done v') × AllEntries E v'.session_map
unfolding accept_loop ends
accept_loop-AllEntries E [] v h o t = cc
accept_loop-AllEntries E (a ∷ rest) v h o t = elim (Bool-cases (ltb_ℤ (pos 0) a.client_fd)) [
  | inr e ↦ (v, rw e refl, t)
  | inl e ↦
      let more : ends rest ≡ true = ground (arith, e, h) in
      let t1 = take_client-AllEntries E a v (o.0 e) t in
      elim (Bool-cases (take_client a v).0) [
        | inl r ↦
            let (v', s, t') = accept_loop-AllEntries E rest (take_client a v).1 more o.1 t1 in
            (v', rw (e, r) s, t')
        | inr r ↦ ((take_client a v).1, rw (e, r) refl, t1)
      ]
]

-- The calls of `recv` come to an end: one of them gives no byte.
unfoldable pub is_dry : List Reading → Bool
is_dry [] = false
is_dry (x ∷ rest) = elim x.incoming [ [] ↦ true | b ∷ bytes ↦ is_dry rest ]

pub get_session-none :
    (fd : ℤ) (v : Service)
    → lookup fd v.session_map ≡ none
    → get_session fd v ≡ (none, record v { session_map = insert fd none v.session_map })
unfolding get_session
get_session-none fd v e =
    ap
      (λ (o : Option (Option Session)). elim o as (λ _. Option Session × Service) [
        | none ↦ (none, record v { session_map = insert fd none v.session_map })
        | some x ↦ (x, v)
      ])
      e

pub get_session-some :
    (fd : ℤ) (o : Option Session) (v : Service)
    → lookup fd v.session_map ≡ some o
    → get_session fd v ≡ (o, v)
unfolding get_session
get_session-some fd o v e =
    ap
      (λ (p : Option (Option Session)). elim p as (λ _. Option Session × Service) [
        | none ↦ (none, record v { session_map = insert fd none v.session_map })
        | some x ↦ (x, v)
      ])
      e
