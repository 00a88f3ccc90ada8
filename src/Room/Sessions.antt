-- ===== src/Room/Sessions.antt =====
-- GameBS/BS_GameRoom.cpp: the sessions of a room, and the messages that go to all of them.
use bsgame_server.Base.{
  ◌≡◌, refl, ap, ◌∙◌, List, [], ◌∷◌, ◌++◌, true, some, if◌then◌else◌, IntMap, lookup, erase, inl,
  inr, Bool-cases,
}
use bsgame_server.Base.Int.{ℤ, eqb_ℤ, eqb_ℤ→eq}
use mathlib.Core.Option
use bsgame_server.SendBuffer.Chunk.{SendBuffer}
use bsgame_server.Session.{Session, push_buffer, send}
use bsgame_server.Session.Sending.{push_buffers, send-push_buffers}

abbrev pub SessionMap : Type 0
SessionMap = IntMap Session

-- A loop over a map, with the result for each key.
unfoldable pub each {ℓ κ} : {V : Type ℓ} {W : Type κ} → (ℤ → V → W) → IntMap V → IntMap W
each f [] = []
each f ((k, v) ∷ m) = (k, f k v) ∷ each f m

pub lookup-each {ℓ κ} :
    {V : Type ℓ} {W : Type κ} (f : ℤ → V → W) (k : ℤ) (m : IntMap V)
    → lookup k (each f m) ≡ Option.map (f k) (lookup k m)
unfolding lookup each
lookup-each f k [] = refl
lookup-each f k ((j, v) ∷ m) = elim (Bool-cases (eqb_ℤ j k)) [
  | inl e ↦ rw e (ap (λ i. some (f i v)) (eqb_ℤ→eq j k e))
  | inr e ↦ rw e (lookup-each f k m)
]

-- `DelSession`.
unfoldable pub del_session : SessionMap → ℤ → SessionMap
del_session m fd = erase fd m

-- `BroadcastPushMessage`.
unfoldable pub broadcast_push_message : SendBuffer → SessionMap → SessionMap
unfolding each
broadcast_push_message b m = each (λ _ s. push_buffer s b) m

-- `Broadcast`. `results` says what `sendmsg` returns for each descriptor; the second part is what each
-- `sendmsg` is given.
unfoldable pub broadcast : (ℤ → ℤ) → SendBuffer → SessionMap → SessionMap × IntMap (List SendBuffer)
unfolding each
broadcast results b m =
    (each (λ k s. (send (results k) s b).2) m, each (λ k s. (send (results k) s b).1) m)

-- `BroadcastAnother` leaves one session out, which sends nothing.
unfoldable pub broadcast_another :
    (ℤ → ℤ) → SendBuffer → ℤ → SessionMap → SessionMap × IntMap (List SendBuffer)
unfolding each
broadcast_another results b fd m = (
  each (λ k s. if eqb_ℤ fd k then s else (send (results k) s b).2) m,
  each (λ k s. if eqb_ℤ fd k then [] else (send (results k) s b).1) m,
)

unfoldable pub broadcast_push_all : List SendBuffer → SessionMap → SessionMap
unfolding broadcast_push_message
broadcast_push_all [] m = m
broadcast_push_all (b ∷ bs) m = broadcast_push_all bs (broadcast_push_message b m)

lookup-broadcast_push_all :
    (bs : List SendBuffer) (m : SessionMap) (k : ℤ) (s : Session)
    → lookup k m ≡ some s
    → lookup k (broadcast_push_all bs m) ≡ some (push_buffers s bs)
unfolding broadcast_push_all broadcast_push_message push_buffers
lookup-broadcast_push_all [] m k s e = e
lookup-broadcast_push_all (b ∷ bs) m k s e =
    lookup-broadcast_push_all bs (broadcast_push_message b m) k (push_buffer s b)
      (lookup-each (λ _ x. push_buffer x b) k m ∙ ap (Option.map (λ x. push_buffer x b)) e)

-- The messages that `BroadcastPushMessage` queued go out with the next `Broadcast`: each connected
-- session of the room gives `sendmsg` what waited before, these messages in order, and the broadcast
-- one last, and then nothing waits.
pub broadcast_flushes :
    (results : ℤ → ℤ) (bs : List SendBuffer) (b : SendBuffer) (m : SessionMap) (k : ℤ) (s : Session)
    → lookup k m ≡ some s
    → s.connected ≡ true
    → (lookup k (broadcast results b (broadcast_push_all bs m)).1
        ≡ some (s.send_buffers ++ (bs ++ (b ∷ []))))
      × (lookup k (broadcast results b (broadcast_push_all bs m)).0
          ≡ some (record s { send_buffers = [] }))
unfolding broadcast
broadcast_flushes results bs b m k s e c =
    let q = lookup-broadcast_push_all bs m k s e in
    let sent = send-push_buffers (results k) s bs b c in
    (
      lookup-each (λ j x. (send (results j) x b).1) k (broadcast_push_all bs m)
          ∙ ap (Option.map (λ x. (send (results k) x b).1)) q
          ∙ ap (λ r. some r.1) sent,
      lookup-each (λ j x. (send (results j) x b).2) k (broadcast_push_all bs m)
          ∙ ap (Option.map (λ x. (send (results k) x b).2)) q
          ∙ ap (λ r. some r.2) sent,
    )

-- For a connected session of the room, `BroadcastAnother` changes nothing and sends nothing if
-- it is the one to leave out, and otherwise sends what waited and the message, after which
-- nothing waits.
pub broadcast_another_lem :
    (results : ℤ → ℤ) (b : SendBuffer) (fd : ℤ) (m : SessionMap) (k : ℤ) (s : Session)
    → lookup k m ≡ some s
    → s.connected ≡ true
    → (lookup k (broadcast_another results b fd m).0
        ≡ some (if eqb_ℤ fd k then s else record s { send_buffers = [] }))
      × (lookup k (broadcast_another results b fd m).1
          ≡ some (if eqb_ℤ fd k then [] else s.send_buffers ++ (b ∷ [])))
unfolding broadcast_another push_buffers
broadcast_another_lem results b fd m k s e c =
    let sent = send-push_buffers (results k) s [] b c in
    (
      lookup-each (λ j x. if eqb_ℤ fd j then x else (send (results j) x b).2) k m
          ∙ ap (Option.map (λ x. if eqb_ℤ fd k then x else (send (results k) x b).2)) e
          ∙ ap (λ r. some (if eqb_ℤ fd k then s else r.2)) sent,
      lookup-each (λ j x. if eqb_ℤ fd j then [] else (send (results j) x b).1) k m
          ∙ ap (Option.map (λ x. if eqb_ℤ fd k then [] else (send (results k) x b).1)) e
          ∙ ap (λ r. some (if eqb_ℤ fd k then [] else r.1)) sent,
    )
