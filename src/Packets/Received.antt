-- ===== src/Packets/Received.antt =====
-- A packet of GameBS/BS_PacketHandler.h read back by the loop of GameBS/BS_GameSession.cpp, `OnRecv`.
use bsgame_server.Base.{
  ℕ, ◌+◌, ◌^◌, ◌≤◌, ◌<◌, ◌≡◌, refl, sym, ap, ap₂, ◌∙◌, subst, List, [], ◌∷◌, ◌++◌, append-nil, some,
  arith, length, inl,
}
use bsgame_server.Base.Words.{bytes16, word16-bytes16}
use bsgame_server.Base.Run.{Run, done, fault, ◌>>=◌}
use bsgame_server.Framing.{header_size, packet_size, on_recv}
use bsgame_server.Framing.Packets.{IsPacket, join, handle_all, on_recv-join}
use bsgame_server.SendBuffer.Chunk.{SendBuffer, chunk_size}
use bsgame_server.SendBuffer.Store.{Memory, content}
use bsgame_server.SendBuffer.Alloc.{IsValid}
use bsgame_server.SendBuffer.Writer.{make_packet}
use bsgame_server.Packets.Layout.{exact_lem}

-- A packet whose header gives its length.
framed :
    (d id : ℕ) (payload : List ℕ)
    → length payload ≡ d
    → d + header_size < 2 ^ 16
    → IsPacket ((bytes16 id ++ bytes16 (d + header_size)) ++ payload)
unfolding packet_size
framed d id payload e h =
    (omega (arith), word16-bytes16 (d + header_size) payload h ∙ ap some (omega (arith, e)))

>>=-unit :
    {S : Type 0} (m : Run S) (n : ℕ)
    → ◌>>=◌ {B = S × ℕ} (m >>= λ s. done s) (λ s'. done (s', n))
      ≡ ◌>>=◌ {B = S × ℕ} m (λ s'. done (s', n))
>>=-unit (done s) n = refl
>>=-unit (fault x) n = refl

-- `OnRecv` on one packet: one call of `HandlePacket`, with exactly this packet.
on_recv-one :
    {S : Type 0} (handle_packet : List ℕ → ℕ → S → Run S) (p : List ℕ) (fuel : ℕ) (s : S)
    → IsPacket p
    → 2 ≤ fuel
    → on_recv handle_packet fuel p (length p) s
      ≡ (handle_packet p (length p) s >>= λ s'. done (s', length p))
unfolding handle_all
on_recv-one {S} handle_packet p fuel s k h =
    let e : p ++ [] ≡ p = append-nil p in
    let e2 : (p ++ []) ++ [] ≡ p = append-nil (p ++ []) ∙ e in
    sym (ap₂ (λ b n. on_recv handle_packet fuel b n s) e2 (ap length e2))
    ∙ on_recv-join handle_packet (p ∷ []) [] [] fuel s (k, tt) (inl (omega arith)) (omega arith)
    ∙ ap₂
        (λ b n. ◌>>=◌ {B = S × ℕ} (handle_packet b (length p) s >>= λ t. done t) (λ t. done (t, n)))
        e (ap length e)
    ∙ >>=-unit (handle_packet p (length p) s) (length p)

-- On a valid store, a packet whose fields fill it, of at most 65531 bytes of payload, is made without a fault;
-- and what `sendmsg` then reads of it, `OnRecv` on the other side hands to `HandlePacket` as exactly one
-- packet of that size, and uses up.
pub made-received :
    {S : Type 0} (handle_packet : List ℕ → ℕ → S → Run S) (fuel : ℕ) (s : S) (m : Memory) (d id : ℕ)
    (fields : List (List ℕ))
    → 2 ≤ fuel
    → IsValid m
    → d + header_size ≤ chunk_size
    → length (join fields) ≡ d
    → (b : SendBuffer) × (m' : Memory) × (make_packet m d id fields ≡ done (b, m'))
      × (length (content m' b) ≡ d + header_size)
      × (on_recv handle_packet fuel (content m' b) (length (content m' b)) s ≡ (
          handle_packet (content m' b) (length (content m' b)) s >>= λ s'.
          done (s', length (content m' b))))
made-received handle_packet fuel s m d id fields f v h e =
    let (b, m', made, bytes, valid) = exact_lem m d id fields v h e in
    let k = framed d id (join fields) e (omega (arith, h)) in
    (
      b,
      m',
      made,
      ap length bytes ∙ omega (arith, e),
      on_recv-one handle_packet (content m' b) fuel s (subst IsPacket (sym bytes) k) f,
    )
