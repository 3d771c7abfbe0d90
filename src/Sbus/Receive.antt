-- ===== src/Sbus/Receive.antt =====
-- platform/lpio/src/SBUSReader.cpp: readByte and recvFrame, over SerialPort::read of
-- platform/lpio/src/SerialPort.cpp.
use openember.Prelude.{
  ℕ, zero, suc, ◌-◌, ◌≤◌, ◌≡◌, ◌⊎◌, ap, refl, Bool, true, false, not, Bool-cases, inl, inr, List,
  [], ◌∷◌, ◌++◌, arith, ltb, ◌==◌, if◌then◌else◌, length, get_or, length-append,
}
use openember.Sbus.Frame.{SbusFrame, frame_bytes, decode_frame}

-- What ::read answers once no signal interrupts it: bytes, EAGAIN or EWOULDBLOCK, or another errno.
pub data Answer : Type 0 where
  gives : List ℕ → Answer
  again : Answer
  fails : ℕ → Answer

-- An open or a closed port with its descriptor's ::read of at most n bytes.
pub record Serial : Type 1 where
  pub Port : Type 0
  pub is_open : Port → Bool
  pub read : ℕ → Port → Answer × Port
  pub read_bound :
      (n : ℕ) (p q : Port) (bytes : List ℕ) → read n p ≡ (gives bytes, q) → length bytes ≤ n

-- DeviceNotOpenError, and a DeviceError with its errno.
pub data DeviceError : Type 0 where
  not_open : DeviceError
  has_errno : ℕ → DeviceError

pub data ReadResult : Type 0 where
  reads : List ℕ → ReadResult
  throws : DeviceError → ReadResult

-- What recvFrame returns or throws.
pub data Received : Type 0 where
  received : SbusFrame → Received
  device_timeout : Received
  device_error : DeviceError → Received

abbrev pub read_result : Answer → ReadResult
read_result (gives bytes) = reads bytes
read_result again = reads []
read_result (fails e) = throws (has_errno e)

module _ (serial : Serial) where
  open serial use {Port, is_open, read, read_bound}

  -- SerialPort::read.
  unfoldable pub serial_read : ℕ → Port → ReadResult × Port
  serial_read n p =
      if not (is_open p)
      then (throws not_open, p)
      else if n == 0
      then (reads [], p)
      else (read_result (read n p).0, (read n p).1)

  -- One turn of the outer loop, from readByte on: the bytes of the frame so far. No byte is
  -- readByte's time-out, which the turn catches.
  abbrev hunt : List ℕ → List ℕ
  hunt [] = []
  hunt (b ∷ bs) = if b == 0x0F then b ∷ [] else []

  -- What to ask of the port: a byte while no frame has begun, and else the rest of the frame.
  abbrev wanted : List ℕ → ℕ
  wanted [] = 1
  wanted (b ∷ raw) = frame_bytes - length (b ∷ raw)

  -- One turn of either loop with the bytes read.
  abbrev take_in : List ℕ → List ℕ → List ℕ
  take_in [] bytes = hunt bytes
  take_in (b ∷ raw) bytes = (b ∷ raw) ++ bytes

  -- What follows a read: an exception of the port leaves both loops.
  abbrev turn : (List ℕ → Port → Received × Port) → List ℕ → Port → ReadResult → Received × Port
  turn next raw q (throws e) = (device_error e, q)
  turn next raw q (reads bytes) =
      let raw' = take_in raw bytes in
      let more = next raw' q in
      let resync = next [] q in
      if ltb (length raw') frame_bytes
      then more
      else if not (get_or raw' 24 0 == 0)
      then resync
      else (received (decode_frame raw'), q)

  -- The loops of recvFrame. The clock does not go back, so it is before the deadline at the first k
  -- readings and at no later one; each turn of either loop starts with a reading. `raw` is empty in
  -- the outer loop.
  unfoldable pub recv_loop : ℕ → List ℕ → Port → Received × Port
  recv_loop zero raw p = (device_timeout, p)
  recv_loop (suc k) raw p =
      turn (recv_loop k) raw (serial_read (wanted raw) p).1 (serial_read (wanted raw) p).0

  -- recvFrame.
  unfoldable pub recv_frame : ℕ → Port → Received × Port
  recv_frame readings p =
      if not (is_open p) then (device_error not_open, p) else recv_loop readings [] p

  -- A frame that recvFrame returns is the decoding of 25 bytes that begin with 0x0F and end with 0,
  -- and an error that it throws is one that a read of the port has thrown.
  abbrev pub IsFrame : Received → Type 0
  IsFrame device_timeout = Unit
  IsFrame (device_error e) = (n : ℕ) × (q : Port) × ((serial_read n q).0 ≡ throws e)
  IsFrame (received f) =
      (f ≡ decode_frame f.raw)
      × (length f.raw ≡ frame_bytes)
      × (get_or f.raw 0 0 ≡ 0x0F)
      × (get_or f.raw 24 0 ≡ 0)

  -- The bytes of a frame that has begun.
  abbrev HasBegun : List ℕ → Type 0
  HasBegun [] = Unit
  HasBegun (b ∷ raw) = (b ≡ 0x0F) × (length (b ∷ raw) ≤ frame_bytes)

  serial_read_bound :
      (n : ℕ) (p : Port) (bytes : List ℕ) → (serial_read n p).0 ≡ reads bytes → length bytes ≤ n
  unfolding serial_read
  serial_read_bound n p bytes h = go (is_open p) (n == 0) (read n p).0 refl h
    where
      go :
          (b c : Bool) (a : Answer)
          → (read n p).0 ≡ a
          → let r : ReadResult × Port =
              if not b
              then (throws not_open, p)
              else if c
              then (reads [], p)
              else (read_result a, (read n p).1) in
            r.0 ≡ reads bytes → length bytes ≤ n
      go false c a e k = cc k
      go true true a e k = let none_read : [] ≡ bytes = cc k in omega (arith, ap length none_read)
      go true false again e k =
          let none_read : [] ≡ bytes = cc k in omega (arith, ap length none_read)
      go true false (fails x) e k = cc k
      go true false (gives given) e k =
          let same : given ≡ bytes = cc k in read_bound n p (read n p).1 bytes (cc (e, same))

  hunt-HasBegun : (bytes : List ℕ) → HasBegun (hunt bytes)
  hunt-HasBegun [] = tt
  hunt-HasBegun (b ∷ bs) = elim (Bool-cases (b == 0x0F)) [
    | inl e ↦ rw e (ground arith, omega arith)
    | inr e ↦ rw e tt
  ]

  take_in-HasBegun :
      (raw bytes : List ℕ) → length bytes ≤ wanted raw → HasBegun raw → HasBegun (take_in raw bytes)
  take_in-HasBegun [] bytes l h = hunt-HasBegun bytes
  take_in-HasBegun (b ∷ raw) bytes l h = (h.0, omega (arith, length-append raw bytes))

  full-IsFrame :
      (raw : List ℕ)
      → HasBegun raw
      → ltb (length raw) frame_bytes ≡ false
      → get_or raw 24 0 ≡ 0
      → IsFrame (received (decode_frame raw))
  unfolding decode_frame
  full-IsFrame [] h l e = ground arith
  full-IsFrame (b ∷ raw) h l e = (refl, ground arith, h.0, e)

  turn-IsFrame :
      (next : List ℕ → Port → Received × Port) (raw : List ℕ) (p : Port) (r : ReadResult)
      → ((raw' : List ℕ) (q : Port) → HasBegun raw' → IsFrame (next raw' q).0)
      → HasBegun raw
      → (serial_read (wanted raw) p).0 ≡ r
      → IsFrame (turn next raw (serial_read (wanted raw) p).1 r).0
  turn-IsFrame next raw p (throws e) rest h k = (wanted raw, p, k)
  turn-IsFrame next raw p (reads bytes) rest h k =
      let q = (serial_read (wanted raw) p).1 in
      let begun = take_in-HasBegun raw bytes (serial_read_bound (wanted raw) p bytes k) h in
      elim (Bool-cases (ltb (length (take_in raw bytes)) frame_bytes)) [
        | inl e ↦ rw e (rest (take_in raw bytes) q begun)
        | inr e ↦ rw e (elim (Bool-cases (get_or (take_in raw bytes) 24 0 == 0)) [
          | inl e' ↦ rw e' (full-IsFrame (take_in raw bytes) begun e (ground (arith, e')))
          | inr e' ↦ rw e' (rest [] q tt)
        ])
      ]

  recv_loop-IsFrame :
      (k : ℕ) (raw : List ℕ) (p : Port) → HasBegun raw → IsFrame (recv_loop k raw p).0
  unfolding recv_loop
  recv_loop-IsFrame zero raw p h = tt
  recv_loop-IsFrame (suc k) raw p h =
      turn-IsFrame (recv_loop k) raw p (serial_read (wanted raw) p).0
        (λ raw' q g. recv_loop-IsFrame k raw' q g) h refl

  -- Of a port that is not open recvFrame reads nothing and throws DeviceNotOpenError. Of an open one,
  -- whatever it delivers, recvFrame ends after the readings of the clock before the deadline, with a
  -- time-out, with an error that a read of the port has thrown, or with the decoding of exactly 25
  -- bytes, of which the first is 0x0F and the last 0.
  pub recv_frame-IsFrame :
      (readings : ℕ) (p : Port)
      → ((is_open p ≡ false) × (recv_frame readings p ≡ (device_error not_open, p)))
        ⊎ ((is_open p ≡ true) × IsFrame (recv_frame readings p).0)
  unfolding recv_frame
  recv_frame-IsFrame readings p = elim (Bool-cases (is_open p)) [
    | inl e ↦ inr (e, rw e (recv_loop-IsFrame readings [] p tt))
    | inr e ↦ inl (e, rw e refl)
  ]
