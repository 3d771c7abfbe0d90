-- ===== src/Tests/SbusFrames.antt =====
-- Frames of platform/lpio/src/SBUSReader.cpp.
use openember.Prelude.{
  ℕ, zero, suc, ◌%◌, ◌^◌, ◌≤◌, ◌≡◌, refl, List, [], ◌∷◌, arith, length, Bool, false, not, ◌⊎◌, ◌==◌,
  if◌then◌else◌, true, ltb, ◌&&◌, All,
}
use openember.Sbus.Frame.{channel, decode_frame}
use openember.Sbus.Receive.{
  Serial, Answer, gives, again, fails, not_open, has_errno, received, device_timeout, device_error,
  serial_read, recv_frame, recv_loop, IsFrame, recv_frame-IsFrame,
}
use openember.Prelude.Text.{is_empty}
use openember.Sbus.Decoding.{number, sent_channel, channel_lem, IsByte}

-- A frame whose channels have many bits set.
abbrev raw : List ℕ
raw =
    15 ∷ 231 ∷ 63 ∷ 249 ∷ 207 ∷ 127 ∷ 254 ∷ 243 ∷ 159 ∷ 255 ∷ 252 ∷ 231 ∷ 63 ∷ 249 ∷ 207 ∷ 127 ∷ 254
    ∷ 243 ∷ 159 ∷ 255 ∷ 252 ∷ 231 ∷ 63 ∷ 0 ∷ 0 ∷ []

-- A port with the bytes that are still to come; it gives one at a time, and then has none. 256
-- stands for a read that fails with EIO. It is open while bytes are to come.
abbrev one_byte : List ℕ → Answer × List ℕ
one_byte [] = (again, [])
one_byte (b ∷ bs) = (if b == 256 then fails 5 else gives (b ∷ []), bs)

abbrev give : ℕ → List ℕ → Answer × List ℕ
give zero p = (again, p)
give (suc n) p = one_byte p

one_byte_bound :
    (c : Bool) (n b : ℕ) (bs q bytes : List ℕ)
    → ◌≡◌ {A = Answer × List ℕ} (if c then fails 5 else gives (b ∷ []), bs) (gives bytes, q)
    → length bytes ≤ suc n
one_byte_bound true n b bs q bytes h = cc h
one_byte_bound false n b bs q bytes h = let e : b ∷ [] ≡ bytes = cc h in rw (← e) (omega arith)

give_bound :
    (n : ℕ) (p q : List ℕ) (bytes : List ℕ) → give n p ≡ (gives bytes, q) → length bytes ≤ n
give_bound zero p q bytes h = cc
give_bound (suc n) [] q bytes h = cc
give_bound (suc n) (b ∷ bs) q bytes h = one_byte_bound (b == 256) n b bs q bytes h

abbrev port : Serial
port = record {
  Port = List ℕ;
  is_open = λ p. not (is_empty p);
  read = give;
  read_bound = give_bound;
}

abbrev are_bytes : List ℕ → Bool
are_bytes [] = true
are_bytes (b ∷ bs) = ltb b 256 && are_bytes bs

are_bytes-All : (bytes : List ℕ) → are_bytes bytes ≡ true → All IsByte bytes
are_bytes-All [] h = tt
are_bytes-All (b ∷ bs) h = (ground (arith, h), are_bytes-All bs (ground (arith, h)))

-- The third channel starts at bit 6 of a byte: its highest bit is lost.
channel_lem_example : channel raw 2 ≡ sent_channel raw 2 % 2 ^ 10
channel_lem_example = channel_lem raw 2 (omega arith) refl (are_bytes-All raw refl)

lost_bit : (channel raw 2 ≡ 831) × (sent_channel raw 2 ≡ 1855)
unfolding channel number
lost_bit = (refl, refl)

recv_frame-IsFrame_example :
    let p : List ℕ = 1 ∷ 2 ∷ raw in
    ((port.is_open p ≡ false) × (recv_frame port 30 p ≡ (device_error not_open, p)))
    ⊎ ((port.is_open p ≡ true) × IsFrame port (recv_frame port 30 p).0)
recv_frame-IsFrame_example = recv_frame-IsFrame port 30 (1 ∷ 2 ∷ raw)

-- Two stray bytes are skipped.
two_skipped : (recv_frame port 30 (1 ∷ 2 ∷ raw)).0 ≡ received (decode_frame raw)
unfolding recv_frame recv_loop serial_read
two_skipped = refl

-- An error of the port ends a frame that has begun.
port_fails : (recv_frame port 30 (15 ∷ 231 ∷ 256 ∷ raw)).0 ≡ device_error (has_errno 5)
unfolding recv_frame recv_loop serial_read
port_fails = refl

-- The deadline passes while a frame is read.
runs_out : (recv_frame port 4 (1 ∷ 2 ∷ raw)).0 ≡ device_timeout
unfolding recv_frame recv_loop serial_read
runs_out = refl
