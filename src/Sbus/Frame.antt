-- ===== src/Sbus/Frame.antt =====
-- platform/lpio/src/SBUSReader.cpp: decodeFrame. Bytes are numbers below 256.
use openember.Prelude.{
  ℕ, zero, suc, ◌+◌, ◌-◌, ◌*◌, ◌/◌, ◌%◌, ◌^◌, Bool, not, List, [], ◌∷◌, ◌==◌, get_or,
}
use openember.Prelude.Word.{u16}

abbrev pub frame_bytes : ℕ
frame_bytes = 25

abbrev pub channel_count : ℕ
channel_count = 16

pub record SbusFrame : Type 0 where
  pub channels : List ℕ
  pub switches : List ℕ
  pub frame_lost : Bool
  pub failsafe : Bool
  pub raw : List ℕ

-- The body of the loop over the channels. The two parts of `v` do not overlap, so `|` is a sum, and
-- `& 0x07FF` is a remainder.
unfoldable pub channel : List ℕ → ℕ → ℕ
channel raw i =
    let bit_index = i * 11 in
    let byte_index = 1 + bit_index / 8 in
    let bit_offset = bit_index % 8 in
    let v =
      u16 (get_or raw byte_index 0 / 2 ^ bit_offset)
      + u16 (get_or raw (byte_index + 1) 0 * 2 ^ (8 - bit_offset)) in
    v % 2048

-- The loop: n channels from the i-th on.
unfoldable pub channels_from : List ℕ → ℕ → ℕ → List ℕ
channels_from raw zero i = []
channels_from raw (suc n) i = channel raw i ∷ channels_from raw n (suc i)

-- `(flags >> k) & 1`.
abbrev pub flag : ℕ → ℕ → ℕ
flag flags k = flags / 2 ^ k % 2

-- decodeFrame.
unfoldable pub decode_frame : List ℕ → SbusFrame
decode_frame raw =
    let flags = get_or raw 23 0 in
    record {
      channels = channels_from raw channel_count 0;
      switches = flag flags 4 ∷ flag flags 5 ∷ [];
      frame_lost = not (flag flags 2 == 0);
      failsafe = not (flag flags 3 == 0);
      raw = raw;
    }
