-- ===== src/Modbus/Socket.antt =====
-- apps/agri_station_demo/agri_modbus_tcp.hpp: ReadFull and WriteFull, over the system's sockets.
use openember.Prelude.{
  ℕ, zero, suc, ◌+◌, ◌-◌, ◌≤◌, ◌<◌, ◌≡◌, refl, ◌∙◌, Bool, true, false, List, [], ◌∷◌, ◌++◌, Option,
  none, some, arith, length, take, drop, length-take, length-drop, append-nil, append_assoc,
  take-add, drop-add, take-append-drop,
}

-- recv() and send(): `recv n` gives a chunk of bytes or fails, and an empty chunk is the end of the
-- stream; `send` tells how many of the bytes it took, or fails.
pub record Network : Type 1 where
  pub Socket : Type 0
  pub recv : ℕ → Socket → Option (List ℕ) × Socket
  pub send : List ℕ → Socket → Option ℕ × Socket

module _ (net : Network) where
  open net use {Socket, recv, send}

  abbrev read_chunk :
      (ℕ → List ℕ → Socket → Option (List ℕ) × Socket)
      → ℕ
      → List ℕ
      → Option (List ℕ) × Socket
      → Option (List ℕ) × Socket
  read_chunk next n got (none, s) = (none, s)
  read_chunk next n got (some [], s) = (none, s)
  read_chunk next n got (some (b ∷ bs), s) = next (n - length (b ∷ bs)) (got ++ b ∷ bs) s

  -- The loop of ReadFull: n bytes are to come. Each round that goes on has received a byte, so n
  -- rounds are enough.
  unfoldable pub read_rounds : ℕ → ℕ → List ℕ → Socket → Option (List ℕ) × Socket
  read_rounds f zero got s = (some got, s)
  read_rounds zero (suc n) got s = (none, s)
  read_rounds (suc f) (suc n) got s = read_chunk (read_rounds f) (suc n) got (recv (suc n) s)

  -- ReadFull: the bytes read, or `none` where it returns false.
  unfoldable pub read_full : ℕ → Socket → Option (List ℕ) × Socket
  read_full n s = read_rounds n n [] s

  abbrev send_chunk : (List ℕ → Socket → Bool × Socket) → List ℕ → Option ℕ × Socket → Bool × Socket
  send_chunk next bytes (none, s) = (false, s)
  send_chunk next bytes (some zero, s) = (false, s)
  send_chunk next bytes (some (suc k), s) = next (drop (suc k) bytes) s

  -- The loop of WriteFull: the bytes that are left.
  unfoldable pub write_rounds : ℕ → List ℕ → Socket → Bool × Socket
  write_rounds f [] s = (true, s)
  write_rounds zero (b ∷ bs) s = (false, s)
  write_rounds (suc f) (b ∷ bs) s = send_chunk (write_rounds f) (b ∷ bs) (send (b ∷ bs) s)

  -- WriteFull.
  unfoldable pub write_full : List ℕ → Socket → Bool × Socket
  write_full bytes s = write_rounds (length bytes) bytes s

-- A connected stream: what is on its way to a socket, what the socket has sent, and the promise of
-- recv() and send() that they move at least one byte, and of the bytes at hand, in their order.
pub record IsStream (net : Network) : Type 0 where
  pub pending : net.Socket → List ℕ
  pub sent : net.Socket → List ℕ
  pub recv_gives :
      (n : ℕ) (s : net.Socket)
      → 0 < n
      → 0 < length (pending s)
      → (k : ℕ) × (t : net.Socket) × (k < n)
        × (k < length (pending s))
        × (net.recv n s ≡ (some (take (suc k) (pending s)), t))
        × (pending t ≡ drop (suc k) (pending s))
        × (sent t ≡ sent s)
  pub send_takes :
      (bytes : List ℕ) (s : net.Socket)
      → 0 < length bytes
      → (k : ℕ) × (t : net.Socket) × (k < length bytes)
        × (net.send bytes s ≡ (some (suc k), t))
        × (sent t ≡ sent s ++ take (suc k) bytes)
        × (pending t ≡ pending s)

module _ (net : Network) (stream : IsStream net) where
  open net use {Socket, recv, send}
  open stream use {pending, sent, recv_gives, send_takes}

  read_chunk-cons :
      (next : ℕ → List ℕ → Socket → Option (List ℕ) × Socket) (n k : ℕ) (got xs : List ℕ)
      (t : Socket)
      → k < length xs
      → read_chunk net next n got (some (take (suc k) xs), t)
        ≡ next (n - suc k) (got ++ take (suc k) xs) t
  read_chunk-cons next n k got [] t h = absurd (omega arith)
  read_chunk-cons next n k got (x ∷ xs) t h =
      let e : length (take k xs) ≡ k = omega (arith, length-take k xs) in rw e refl

  read_rounds_lem :
      (f n : ℕ) (got : List ℕ) (s : Socket)
      → n ≤ f
      → n ≤ length (pending s)
      → (t : Socket) × (read_rounds net f n got s ≡ (some (got ++ take n (pending s)), t))
        × (pending t ≡ drop n (pending s))
        × (sent t ≡ sent s)
  unfolding read_rounds
  read_rounds_lem f zero got s hf hn = (s, rw append-nil refl, refl, refl)
  read_rounds_lem zero (suc n) got s hf hn = absurd (omega arith)
  read_rounds_lem (suc f) (suc n) got s hf hn =
      let (k, t, kn, kp, e, pe, se) = recv_gives (suc n) s (omega arith) (omega arith) in
      let (u, e', pe', se') =
        read_rounds_lem f (suc n - suc k) (got ++ take (suc k) (pending s)) t (omega arith)
          (rw pe (omega (arith, length-drop (suc k) (pending s)))) in
      let w : suc k + (suc n - suc k) ≡ suc n = omega arith in
      (
        u,
        rw (e, read_chunk-cons (read_rounds net f) (suc n) k got (pending s) t kp, e', pe)
            (rw (append_assoc, take-add (suc k) (suc n - suc k) (pending s), w)),
        rw (pe', pe, drop-add (suc k) (suc n - suc k) (pending s), w),
        se' ∙ se,
      )

  -- ReadFull of no more bytes than are on their way returns exactly the next n of them, in whatever
  -- chunks they arrive, and leaves the rest.
  pub read_full_lem :
      (n : ℕ) (s : Socket)
      → n ≤ length (pending s)
      → (t : Socket) × (read_full net n s ≡ (some (take n (pending s)), t))
        × (pending t ≡ drop n (pending s))
        × (sent t ≡ sent s)
  unfolding read_full
  read_full_lem n s h = read_rounds_lem n n [] s (omega arith) h

  write_rounds_lem :
      (f : ℕ) (bytes : List ℕ) (s : Socket)
      → length bytes ≤ f
      → (t : Socket) × (write_rounds net f bytes s ≡ (true, t))
        × (sent t ≡ sent s ++ bytes)
        × (pending t ≡ pending s)
  unfolding write_rounds
  write_rounds_lem f [] s h = (s, refl, rw append-nil refl, refl)
  write_rounds_lem zero (b ∷ bs) s h = absurd (omega arith)
  write_rounds_lem (suc f) (b ∷ bs) s h =
      let (k, t, kb, e, se, pe) = send_takes (b ∷ bs) s (omega arith) in
      let (u, e', se', pe') =
        write_rounds_lem f (drop (suc k) (b ∷ bs)) t
          (omega (arith, length-drop (suc k) (b ∷ bs))) in
      (u, rw e e', rw (se', se, append_assoc, take-append-drop (suc k) (b ∷ bs)), pe' ∙ pe)

  -- WriteFull sends all the bytes, in their order, however few of them each call of send() takes.
  pub write_full_lem :
      (bytes : List ℕ) (s : Socket)
      → (t : Socket) × (write_full net bytes s ≡ (true, t))
        × (sent t ≡ sent s ++ bytes)
        × (pending t ≡ pending s)
  unfolding write_full
  write_full_lem bytes s = write_rounds_lem (length bytes) bytes s (omega arith)
