-- ===== src/Framing/Packets.antt =====
-- What `OnRecv` does with a stream of packets, with a part of one, and with a header of size 0.
use bsgame_server.Base.{
  ℕ, zero, suc, ◌+◌, ◌-◌, ◌≤◌, ◌<◌, ◌≡◌, refl, sym, ap, ◌∙◌, ◌⊎◌, inl, inr, List, [], ◌∷◌, ◌++◌,
  some, append_assoc, length, drop, length-append, drop-append, drop-drop, arith, lt→ltb, le→ltb,
}
use native.Mathlib.Nat.{add-zero}
use bsgame_server.Base.Words.{word16}
use bsgame_server.Base.Run.{Run, done, fault, out_of_fuel, ◌>>=◌, Run-cases}
use bsgame_server.Framing.{packet_size, on_recv_loop, on_recv, header_size}

-- A packet: at least a header, whose `size` is the packet's length.
abbrev pub IsPacket : List ℕ → Type 0
IsPacket p = (header_size ≤ length p) × (packet_size p ≡ some (length p))

abbrev pub AllPackets : List (List ℕ) → Type 0
AllPackets [] = Unit {0}
AllPackets (p ∷ ps) = IsPacket p × AllPackets ps

-- The front of a packet of which more is still to come.
abbrev pub IsPartial : List ℕ → Type 0
IsPartial q =
    (length q < header_size)
    ⊎ ((n : ℕ) × (packet_size q ≡ some n) × (length q < n) × (header_size ≤ length q))

abbrev pub join : List (List ℕ) → List ℕ
join [] = []
join (p ∷ ps) = p ++ join ps

-- The header is read from the first four bytes alone.
packet_size-append : (p q : List ℕ) → header_size ≤ length p → packet_size (p ++ q) ≡ packet_size p
unfolding packet_size word16
packet_size-append [] q h = absurd (omega arith)
packet_size-append (a ∷ []) q h = absurd (omega arith)
packet_size-append (a ∷ b ∷ []) q h = absurd (omega arith)
packet_size-append (a ∷ b ∷ c ∷ []) q h = absurd (omega arith)
packet_size-append (a ∷ b ∷ c ∷ d ∷ p) q h = refl

module _ {ℓ} {S : Type ℓ} (handle_packet : List ℕ → ℕ → S → Run S) where
  -- The specification: one call of `HandlePacket` for each packet, in order. Each is given the array
  -- from its packet on.
  unfoldable pub handle_all : List (List ℕ) → List ℕ → S → Run S
  handle_all [] rest s = done s
  handle_all (p ∷ ps) rest s =
      handle_packet (p ++ (join ps ++ rest)) (length p) s >>= handle_all ps rest

  loop-stops :
      (rest junk buffer : List ℕ) (fuel len use_len : ℕ) (s : S)
      → drop use_len buffer ≡ rest ++ junk
      → len ≡ use_len + length rest
      → IsPartial rest
      → on_recv_loop handle_packet (suc fuel) buffer len use_len s ≡ done (s, use_len)
  unfolding on_recv_loop
  loop-stops rest junk buffer fuel len use_len s e l (inl short) =
      rw (lt→ltb (len - use_len) header_size (omega arith)) refl
  loop-stops rest junk buffer fuel len use_len s e l (inr (n, m, lt, ge)) =
      rw
        (
          le→ltb (len - use_len) header_size (omega arith),
          e,
          packet_size-append rest junk ge,
          m,
          lt→ltb (len - use_len) n (omega arith),
        )
        refl

  loop-takes :
      (p rest buffer : List ℕ) (fuel len use_len : ℕ) (s : S)
      → drop use_len buffer ≡ p ++ rest
      → use_len + length p ≤ len
      → IsPacket p
      → on_recv_loop handle_packet (suc fuel) buffer len use_len s ≡ (
          handle_packet (p ++ rest) (length p) s >>= λ s'.
          on_recv_loop handle_packet fuel buffer len (use_len + length p) s')
  unfolding on_recv_loop
  loop-takes p rest buffer fuel len use_len s e l k =
      rw
        (
          le→ltb (len - use_len) header_size (omega arith),
          e,
          packet_size-append p rest k.0,
          k.1,
          le→ltb (len - use_len) (length p) (omega arith),
        )
        refl

  loop-join :
      (ps : List (List ℕ)) (rest junk buffer : List ℕ) (fuel len use_len : ℕ) (s : S)
      → drop use_len buffer ≡ join ps ++ (rest ++ junk)
      → len ≡ use_len + (length (join ps) + length rest)
      → AllPackets ps
      → IsPartial rest
      → length ps < fuel
      → on_recv_loop handle_packet fuel buffer len use_len s
        ≡ (handle_all ps (rest ++ junk) s >>= λ s'. done (s', use_len + length (join ps)))
  unfolding handle_all
  loop-join ps rest junk buffer zero len use_len s e l all part f = absurd (omega arith)
  loop-join [] rest junk buffer (suc fuel) len use_len s e l all part f =
      loop-stops rest junk buffer fuel len use_len s e (omega arith) part
      ∙ ap (λ n. done (s, n)) {x = use_len} (omega arith)
  loop-join (p ∷ ps) rest junk buffer (suc fuel) len use_len s e l all part f =
      loop-takes p (join ps ++ (rest ++ junk)) buffer fuel len use_len s
        (e ∙ append_assoc p (join ps) (rest ++ junk)) (omega (arith, length-append p (join ps)))
        all.0
      ∙ elim (Run-cases (handle_packet (p ++ (join ps ++ (rest ++ junk))) (length p) s)) [
        | inl (s', h) ↦ rw h (
            loop-join ps rest junk buffer fuel len (use_len + length p) s'
              (sym (drop-drop (length p) use_len buffer)
                ∙ ap (drop (length p)) (e ∙ append_assoc p (join ps) (rest ++ junk))
                ∙ drop-append p (join ps ++ (rest ++ junk)) (length p) refl)
              (omega (arith, length-append p (join ps))) all.1 part (omega arith)
            ∙ ap (λ n. handle_all ps (rest ++ junk) s' >>= λ t. done (t, n))
                {x = use_len + length p + length (join ps)}
                (omega (arith, length-append p (join ps))))
        | inr (x, h) ↦ rw h refl
      ]

  -- A buffer that holds whole packets and then a part of one: `OnRecv` handles each packet once,
  -- in order, and reports the bytes of exactly these packets as used. One round for each packet
  -- and a last one are enough.
  pub on_recv-join :
      (ps : List (List ℕ)) (rest junk : List ℕ) (fuel : ℕ) (s : S)
      → AllPackets ps
      → IsPartial rest
      → length ps < fuel
      → on_recv handle_packet fuel (join ps ++ (rest ++ junk)) (length (join ps ++ rest)) s
        ≡ (handle_all ps (rest ++ junk) s >>= λ s'. done (s', length (join ps)))
  unfolding on_recv
  on_recv-join ps rest junk fuel s all part f =
      loop-join ps rest junk (join ps ++ (rest ++ junk)) fuel (length (join ps ++ rest)) 0 s refl
        (omega (arith, length-append (join ps) rest)) all part f
      ∙ ap (λ n. handle_all ps (rest ++ junk) s >>= λ t. done (t, n)) {x = 0 + length (join ps)}
          (omega arith)

  -- A header with `size` 0 is never left, if `HandlePacket` always returns for it: whatever the
  -- number of rounds, the loop is still running.
  pub zero_size_spins :
      (buffer : List ℕ) (len use_len : ℕ)
      → use_len + header_size ≤ len
      → packet_size (drop use_len buffer) ≡ some 0
      → ((s : S) → (s' : S) × (handle_packet (drop use_len buffer) 0 s ≡ done s'))
      → (fuel : ℕ) (s : S)
      → on_recv_loop handle_packet fuel buffer len use_len s ≡ fault out_of_fuel
  unfolding on_recv_loop
  zero_size_spins buffer len use_len h e total zero s = refl
  zero_size_spins buffer len use_len h e total (suc fuel) s =
      rw
        (
          le→ltb (len - use_len) header_size (omega arith),
          e,
          le→ltb (len - use_len) 0 (omega arith),
          (total s).1,
          add-zero,
        )
        (zero_size_spins buffer len use_len h e total fuel (total s).0)
