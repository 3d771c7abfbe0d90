-- ===== src/Modbus/Exchange.antt =====
-- apps/agri_station_demo/agri_modbus_tcp.hpp: the client and the server understand one another.
use openember.Prelude.{
  ℕ, zero, suc, ◌+◌, ◌*◌, ◌/◌, ◌%◌, ◌≤◌, ◌<◌, ◌≡◌, refl, sym, ◌∙◌, ap, Bool, true, false, ◌||◌,
  List, [], ◌∷◌, ◌++◌, some, arith, length, take, drop, All, length-take, length-drop, subst, ltb,
  ◌==◌,
}
use openember.Prelude.Word.{u16}
use openember.Modbus.Bytes.{IsWord, be16, put_be16, be16-put_be16, put_words}
use openember.Modbus.Bank.{Bank, read_holding}
use openember.Modbus.Pdu.{fc_read_holding, handle_pdu, handle_read}
use openember.Modbus.Socket.{
  Network, IsStream, read_full, write_full, read_full_lem, write_full_lem,
}
use openember.Modbus.Server.{frame, serve_one_request}
use openember.Modbus.Client.{
  request, words, decode_read, Client, exchange, read_connected, read_holding_registers,
}

take-length : (xs : List ℕ) → take (length xs) xs ≡ xs
take-length [] = refl
take-length (x ∷ xs) = ap (λ ys. x ∷ ys) (take-length xs)

drop-length : (xs : List ℕ) → drop (length xs) xs ≡ []
drop-length [] = refl
drop-length (x ∷ xs) = drop-length xs

pub length-put_words : (vs : List ℕ) → length (put_words vs) ≡ 2 * length vs
unfolding put_words
length-put_words [] = refl
length-put_words (v ∷ vs) = omega (arith, length-put_words vs)

words-put_words : (vs : List ℕ) → All IsWord vs → words (length vs) (put_words vs) ≡ vs
unfolding words put_words
words-put_words [] h = refl
words-put_words (v ∷ vs) h = rw (be16-put_be16 v h.0) (ap (λ us. v ∷ us) (words-put_words vs h.1))

-- The registers that a read asks for.
abbrev pub slice : Bank → ℕ → ℕ → List ℕ
slice bank start quantity = take quantity (drop start bank)

slice-All :
    (bank : Bank) (start quantity : ℕ) → All IsWord bank → All IsWord (slice bank start quantity)
slice-All bank start quantity h = taken quantity (drop start bank) (dropped start bank h)
  where
    dropped : (n : ℕ) (vs : List ℕ) → All IsWord vs → All IsWord (drop n vs)
    dropped zero vs h = h
    dropped (suc n) [] h = tt
    dropped (suc n) (v ∷ vs) h = dropped n vs h.1

    taken : (n : ℕ) (vs : List ℕ) → All IsWord vs → All IsWord (take n vs)
    taken zero vs h = tt
    taken (suc n) [] h = tt
    taken (suc n) (v ∷ vs) h = (h.0, taken n vs h.1)

abbrev pub query : ℕ → ℕ → ℕ → List ℕ
query fc a b = fc ∷ (put_be16 a ++ put_be16 b)

length-slice :
    (bank : Bank) (start quantity : ℕ)
    → start + quantity ≤ length bank
    → length (slice bank start quantity) ≡ quantity
length-slice bank start quantity h =
    omega (arith, length-take quantity (drop start bank), length-drop start bank)

-- A read of registers that the bank has.
abbrev pub IsInBank : Bank → ℕ → ℕ → Type 0
IsInBank bank start quantity =
    (0 < quantity) × (quantity ≤ 125) × (start + quantity ≤ length bank) × IsWord start

abbrev pub read_answer : Bank → ℕ → ℕ → List ℕ
read_answer bank start quantity =
    fc_read_holding ∷ (quantity * 2) ∷ put_words (slice bank start quantity)

pub handle_pdu_read :
    (bank : Bank) (start quantity : ℕ)
    → IsInBank bank start quantity
    → handle_pdu bank (query fc_read_holding start quantity)
      ≡ (some (read_answer bank start quantity), bank)
unfolding handle_pdu handle_read read_holding
handle_pdu_read bank start quantity (h₀, h₁, h₂, h₃) =
    rw (be16-put_be16 start (omega arith), be16-put_be16 quantity (omega arith))
      (ground (arith, length-take quantity (drop start bank), length-drop start bank))

decode_read_answer :
    (bank : Bank) (start quantity : ℕ)
    → All IsWord bank
    → IsInBank bank start quantity
    → decode_read quantity (read_answer bank start quantity) ≡ some (slice bank start quantity)
unfolding decode_read
decode_read_answer bank start quantity w (h₀, h₁, h₂, h₃) =
    let vs = slice bank start quantity in
    let e : length vs ≡ quantity = length-slice bank start quantity h₂ in
    let d : words quantity (put_words vs) ≡ vs =
      subst (λ (n : ℕ). words n (put_words vs) ≡ vs) e
        (words-put_words vs (slice-All bank start quantity w)) in
    ground (arith, d, e, length-put_words vs)

module _ (net : Network) (stream : IsStream net) where
  open net use {Socket}
  open stream use {pending, sent}

  -- The answer of the server, as it goes over the stream.
  abbrev pub read_reply : ℕ → ℕ → List ℕ → List ℕ
  read_reply tid unit pdu = frame (put_be16 tid ++ put_be16 0) unit pdu

  -- The server answers a read request that has arrived, in whatever chunks, with the registers.
  serve_read :
      (bank : Bank) (tid unit start quantity : ℕ) (s : Socket)
      → IsInBank bank start quantity
      → pending s ≡ request tid unit fc_read_holding start quantity
      → (t : Socket) × (serve_one_request net bank s ≡ (true, bank, t))
        × (sent t ≡ sent s ++ read_reply tid unit (read_answer bank start quantity))
        × (pending t ≡ [])
  unfolding serve_one_request
  serve_read bank tid unit start quantity s h p =
      let (t, e, pt, st) = read_full_lem net stream 7 s (rw p (omega arith)) in
      let (u, e', pu, su) = read_full_lem net stream 5 t (rw (pt, p) (omega arith)) in
      let (v, e'', sv, pv) =
        write_full_lem net stream (read_reply tid unit (read_answer bank start quantity)) u in
      let e₂ : read_full net 5 t ≡ (some (query fc_read_holding start quantity), u) =
        e' ∙ ap (λ (xs : List ℕ). (some (take 5 xs), u)) (pt ∙ ap (drop 7) p) in
      (
        v,
        rw (e, p, e₂, handle_pdu_read bank start quantity h, e'') refl,
        rw (sv, su, st) refl,
        rw (pv, pu, pt, p) refl,
      )

  -- The steps of the client, given what its three calls of the stream do.
  client_steps :
      (bank : Bank) (unit start quantity : ℕ) (c : Client net) (s t u v : Socket)
      → All IsWord bank
      → IsInBank bank start quantity
      → let answer = read_answer bank start quantity in
        write_full net (request c.next_tid unit fc_read_holding start quantity) s ≡ (true, t)
        → read_full net 7 t ≡ (some (take 7 (read_reply c.next_tid unit answer)), u)
        → read_full net (length answer) u ≡ (some answer, v)
        → read_connected net unit start quantity c (some s) ≡ (
          some (slice bank start quantity),
          record c { socket = some v; next_tid = u16 (suc c.next_tid) },
        )
  unfolding exchange
  client_steps bank unit start quantity c s t u v w h e e₁ e₂ =
      let small : (quantity == 0 || ltb 125 quantity) ≡ false = ground arith in
      rw (small, e, e₁, length_field)
        (ground (arith, e₂, decode_read_answer bank start quantity w h, length-answer))
    where
      length-answer : length (read_answer bank start quantity) ≡ 2 + 2 * quantity
      length-answer = omega (
        arith,
        length-put_words (slice bank start quantity),
        length-slice bank start quantity h.2,
      )

      length_field :
          be16
            (u16 (1 + length (read_answer bank start quantity)) / 256 % 256)
            (u16 (1 + length (read_answer bank start quantity)) % 256)
          ≡ 1 + length (read_answer bank start quantity)
      length_field = omega (arith, length-answer)

  -- The client reads the registers back out of such an answer, and stays connected.
  client_reads :
      (bank : Bank) (unit start quantity : ℕ) (c : Client net) (s : Socket)
      → All IsWord bank
      → IsInBank bank start quantity
      → c.socket ≡ some s
      → pending s ≡ read_reply c.next_tid unit (read_answer bank start quantity)
      → (t : Socket) × (read_holding_registers net unit start quantity c ≡ (
        some (slice bank start quantity),
        record c { socket = some t; next_tid = u16 (suc c.next_tid) },
      ))
        × (sent t ≡ sent s ++ request c.next_tid unit fc_read_holding start quantity)
        × (pending t ≡ [])
  unfolding read_holding_registers exchange
  client_reads bank unit start quantity c s w h o p =
      let answer = read_answer bank start quantity in
      let (t, e, st, pt) =
        write_full_lem net stream (request c.next_tid unit fc_read_holding start quantity) s in
      let q : pending t ≡ read_reply c.next_tid unit answer = pt ∙ p in
      let (u, e', pu, su) = read_full_lem net stream 7 t (rw q (omega arith)) in
      let (v, e'', pv, sv) =
        read_full_lem net stream (length answer) u (rw (pu, q) (omega arith)) in
      let e₁ = e' ∙ ap (λ (xs : List ℕ). (some (take 7 xs), u)) q in
      let r : pending u ≡ answer = pu ∙ ap (drop 7) q in
      let e₂ =
        e''
        ∙ ap (λ (xs : List ℕ). (some (take (length answer) xs), v)) r
        ∙ ap (λ (xs : List ℕ). (some xs, v)) (take-length answer) in
      (
        v,
        ap (read_connected net unit start quantity c) o
            ∙ client_steps bank unit start quantity c s t u v w h e e₁ e₂,
        sv ∙ su ∙ st,
        pv ∙ ap (drop (length answer)) r ∙ drop-length answer,
      )

  -- A read request that the client sends, served from a bank that has the registers, comes back as
  -- exactly those registers: when the server socket has the request of the client on its way and
  -- nothing sent before, and the client socket receives what the server sends, the client returns
  -- the registers of the bank, stays connected with the next transaction id, and has sent the
  -- request that the server was given.
  pub read_round_trip :
      (bank : Bank) (unit start quantity : ℕ) (c : Client net) (a s : Socket)
      → All IsWord bank
      → IsInBank bank start quantity
      → c.socket ≡ some s
      → pending a ≡ request c.next_tid unit fc_read_holding start quantity
      → sent a ≡ []
      → pending s ≡ sent (serve_one_request net bank a).2
      → (t : Socket) × (read_holding_registers net unit start quantity c ≡ (
        some (slice bank start quantity),
        record c { socket = some t; next_tid = u16 (suc c.next_tid) },
      ))
        × (sent t ≡ sent s ++ pending a)
  read_round_trip bank unit start quantity c a s w h o p f g =
      let (b, e, sb, pb) = serve_read bank c.next_tid unit start quantity a h p in
      let reply = read_reply c.next_tid unit (read_answer bank start quantity) in
      let arrived : pending s ≡ reply =
        g ∙ ap (λ (r : Bool × Bank × Socket). sent r.2) e ∙ sb ∙ ap (λ xs. xs ++ reply) f in
      let (t, r, st, pt) = client_reads bank unit start quantity c s w h o arrived in
      (t, r, st ∙ ap (λ xs. sent s ++ xs) (sym p))
