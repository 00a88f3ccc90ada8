-- ===== src/Packets/Layout.antt =====
-- Which packets hold all of their fields, and which lose some.
use bsgame_server.Base.{
  ℕ, ◌+◌, ◌-◌, ◌*◌, ◌^◌, ◌≤◌, ◌<◌, ◌≡◌, refl, sym, ap, ◌∙◌, subst, List, [], ◌∷◌, ◌++◌, arith,
  append_assoc, append-nil, length, take, drop, length-append, length-take, take-append, le→ltb,
  lt→ltb,
}
use native.Mathlib.Nat.{mod-eq_of_lt}
use bsgame_server.Base.Int.{ℤ, to_word}
use bsgame_server.Base.Words.{bytes8, bytes16, bytes32}
use bsgame_server.Base.Run.{Run, done}
use bsgame_server.Framing.{header_size}
use bsgame_server.Framing.Packets.{join}
use bsgame_server.SendBuffer.Chunk.{SendBuffer, chunk_size}
use bsgame_server.SendBuffer.Store.{Memory, content}
use bsgame_server.SendBuffer.Writer.{make_packet}
use bsgame_server.SendBuffer.Alloc.{IsValid}
use bsgame_server.SendBuffer.Frame.{fit}
use bsgame_server.SendBuffer.Packet.{Packet, packet_bytes}
use bsgame_server.SendBuffer.Packet.Make.{make_packet_lem}
use bsgame_server.Packets.{
  Hit, hit_fields, make_hit, make_attack, Move, move_fields, fields_of, move_list_size,
  make_move_list, Attack, attack_fields, attack_list_size, make_attack_list, Chat, chat_size,
  make_close_player, int_field, make_chat, PlayerData, player_fields, player_size,
}

-- With room for all, every field is accepted.
pub fit_all :
    (fields : List (List ℕ)) (room : ℕ) → length (join fields) ≤ room → fit room fields ≡ fields
unfolding fit
fit_all [] room h = refl
fit_all (x ∷ xs) room h =
    rw (le→ltb room (length x) (omega (arith, length-append x (join xs))))
      (ap (◌∷◌ x) (fit_all xs (room - length x) (omega (arith, length-append x (join xs)))))

-- A packet whose fields fill it up to the last byte: `sendmsg` reads the header and the fields, and
-- nothing else.
exact_content :
    {m : Memory} {d id : ℕ} {fields : List (List ℕ)} {b : SendBuffer} {m' : Memory}
    → Packet m d id fields b m'
    → length (join fields) ≡ d
    → content m' b ≡ (bytes16 id ++ bytes16 (d + header_size)) ++ join fields
unfolding content
exact_content {d = d} {id = id} {fields = fields} {b = b} {m' = m'} p e =
    let all : fit d fields ≡ fields = fit_all fields d (omega arith) in
    let (rest, h) = p.bytes in
    ap (λ n. take n (drop b.start (m'.chunk b.owner).buffer)) p.size
    ∙ ap (take (d + header_size)) h
    ∙ take-append (packet_bytes id d fields) rest (d + header_size) (
        omega (
          arith,
          e,
          ap (λ fs. length (join fs)) all,
          length-append (bytes16 id ++ bytes16 (d + header_size)) (join (fit d fields)),
        ))
    ∙ ap (λ fs. (bytes16 id ++ bytes16 (d + header_size)) ++ join fs) all

pub join-append : (xs ys : List (List ℕ)) → join (xs ++ ys) ≡ join xs ++ join ys
join-append [] ys = refl
join-append (x ∷ xs) ys = ap (◌++◌ x) (join-append xs ys) ∙ sym (append_assoc x (join xs) (join ys))

length-fields_of {ℓ} :
    {A : Type ℓ} (f : A → List (List ℕ)) (n : ℕ)
    → ((x : A) → length (join (f x)) ≡ n)
    → (xs : List A) → length (join (fields_of f xs)) ≡ length xs * n
length-fields_of f n h [] = omega arith
length-fields_of f n h (x ∷ xs) = omega (
  arith,
  h x,
  length-fields_of f n h xs,
  ap length (join-append (f x) (fields_of f xs)),
  length-append (join (f x)) (join (fields_of f xs)),
)

-- A packet that is made, and what `sendmsg` reads of it.
abbrev pub Makes : Memory → Run (SendBuffer × Memory) → List ℕ → Type 0
Makes m call bytes =
    (b : SendBuffer) × (m' : Memory) × (call ≡ done (b, m')) × (content m' b ≡ bytes) × IsValid m'

pub exact_lem :
    (m : Memory) (d id : ℕ) (fields : List (List ℕ))
    → IsValid m
    → d + header_size ≤ chunk_size
    → length (join fields) ≡ d
    → Makes m (make_packet m d id fields) ((bytes16 id ++ bytes16 (d + header_size)) ++ join fields)
exact_lem m d id fields v h e =
    let (b, m', s, p) = make_packet_lem m d id fields v h in (b, m', s, exact_content p e, p.valid)

-- On a valid store, a move list of at most 2730 moves is sent whole: the count, then 24 bytes
-- for each move.
pub make_move_list_lem :
    (m : Memory) (moves : List Move)
    → IsValid m
    → length moves ≤ 2730
    → Makes m (make_move_list m moves) (
        (bytes16 3 ++ bytes16 (move_list_size moves + header_size))
        ++ (bytes16 (length moves) ++ join (fields_of move_fields moves)))
unfolding make_move_list
make_move_list_lem m moves v h =
    rw (mod-eq_of_lt {n = move_list_size moves} {m = 2 ^ 16} (omega arith)) (
      exact_lem m (move_list_size moves) 3 (bytes16 (length moves) ∷ fields_of move_fields moves) v
        (omega arith) (omega (arith, length-fields_of move_fields 24 (λ x. refl) moves)))

-- On a valid store, an attack list of at most 8191 attacks is sent whole: the count, then 8
-- bytes for each.
pub make_attack_list_lem :
    (m : Memory) (attacks : List Attack)
    → IsValid m
    → length attacks ≤ 8191
    → Makes m (make_attack_list m attacks) (
        (bytes16 9 ++ bytes16 (attack_list_size attacks + header_size))
        ++ (bytes16 (length attacks) ++ join (fields_of attack_fields attacks)))
unfolding make_attack_list
make_attack_list_lem m attacks v h =
    rw (mod-eq_of_lt {n = attack_list_size attacks} {m = 2 ^ 16} (omega arith)) (
      exact_lem m (attack_list_size attacks) 9
        (bytes16 (length attacks) ∷ fields_of attack_fields attacks) v (omega arith)
        (omega (arith, length-fields_of attack_fields 8 (λ x. refl) attacks)))

-- One attack, and one hit, are sent whole.
pub make_attack_lem :
    (m : Memory) (a : Attack)
    → IsValid m
    → Makes m (make_attack m a) ((bytes16 7 ++ bytes16 (8 + header_size)) ++ join (attack_fields a))
unfolding make_attack
make_attack_lem m a v = exact_lem m 8 7 (attack_fields a) v (omega arith) refl

pub make_hit_lem :
    (m : Memory) (h : Hit)
    → IsValid m
    → Makes m (make_hit m h) ((bytes16 8 ++ bytes16 (12 + header_size)) ++ join (hit_fields h))
unfolding make_hit
make_hit_lem m h v = exact_lem m 12 8 (hit_fields h) v (omega arith) refl

pub make_close_player_lem :
    (m : Memory) (code : ℤ)
    → IsValid m
    → Makes m
        (make_close_player m code)
        ((bytes16 6 ++ bytes16 (4 + header_size)) ++ join (int_field code ∷ []))
unfolding make_close_player
make_close_player_lem m code v = exact_lem m 4 6 (int_field code ∷ []) v (omega arith) refl

-- On a valid store, a chat message of at most 65522 bytes, all of which are there, is sent
-- whole.
pub make_chat_lem :
    (m : Memory) (c : Chat)
    → IsValid m
    → c.text_len ≤ 65522
    → c.text_len ≤ length c.text
    → Makes m (make_chat m c) (
        (bytes16 4 ++ bytes16 (chat_size c + header_size))
        ++ (bytes32 c.code
            ++ (bytes8 c.chat_type ++ (bytes32 c.text_len ++ take c.text_len c.text))))
unfolding make_chat
make_chat_lem m c v h k =
    rw
      (
        mod-eq_of_lt {n = c.text_len} {m = 2 ^ 16} (omega arith),
        le→ltb (length c.text) c.text_len k,
        mod-eq_of_lt {n = chat_size c} {m = 2 ^ 16} (omega arith),
      )
      (subst
        (λ t.
          Makes m
            (make_packet m (chat_size c) 4 (
              bytes32 c.code
              ∷ bytes8 c.chat_type
              ∷ bytes32 c.text_len
              ∷ take c.text_len c.text
              ∷ []))
            ((bytes16 4 ++ bytes16 (chat_size c + header_size))
              ++ (bytes32 c.code ++ (bytes8 c.chat_type ++ (bytes32 c.text_len ++ t)))))
        (append-nil (take c.text_len c.text))
        (exact_lem m (chat_size c) 4
          (bytes32 c.code ∷ bytes8 c.chat_type ∷ bytes32 c.text_len ∷ take c.text_len c.text ∷ []) v
          (omega arith)
          (omega
            (arith, length-append (take c.text_len c.text) [], length-take c.text_len c.text))))

-- Of a player whose name has more than 24 bytes, `Write` accepts all fields of the packet but
-- the name: the packet says how long the name is, and holds none of it.
pub fit_dropped :
    (p : PlayerData)
    → 24 < p.name_len
    → p.name_len ≤ length p.name
    → fit player_size (player_fields p)
      ≡ bytes16 p.player_type ∷ bytes8 p.hp ∷ bytes32 (to_word p.code) ∷ bytes16 p.name_len ∷ []
unfolding fit
fit_dropped p h k =
    rw (lt→ltb 24 (length (take p.name_len p.name)) (omega (arith, length-take p.name_len p.name)))
      refl

-- Of a player whose name has at most 24 bytes, `Write` accepts all fields of the packet.
pub player_name_kept :
    (p : PlayerData) → p.name_len ≤ 24 → fit player_size (player_fields p) ≡ player_fields p
player_name_kept p h =
    fit_all (player_fields p) player_size
      (omega (arith, length-append (take p.name_len p.name) [], length-take p.name_len p.name))
