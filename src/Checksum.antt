-- ===== src/Checksum.antt =====
-- components/algorithm/src/checksum.cpp: the checksums of byte strings.
use openember.Prelude.{ℕ, zero, suc, ◌+◌, ◌-◌, ◌*◌, ◌/◌, ◌%◌, List, [], ◌∷◌, ◌==◌, if◌then◌else◌}
use openember.Prelude.Bits.{bit_xor}
use openember.Prelude.Word.{u8, u16, u32}
pub mod Appended

-- The loop of xor_checksum.
unfoldable pub xor_from : ℕ → List ℕ → ℕ
xor_from value [] = value
xor_from value (b ∷ bytes) = xor_from (bit_xor value b) bytes

-- xor_checksum.
abbrev pub xor_checksum : List ℕ → ℕ
xor_checksum bytes = xor_from 0 bytes

-- The loop of sum8.
unfoldable pub sum_from : ℕ → List ℕ → ℕ
sum_from value [] = value
sum_from value (b ∷ bytes) = sum_from (u8 (value + b)) bytes

-- sum8.
abbrev pub sum8 : List ℕ → ℕ
sum8 bytes = sum_from 0 bytes

-- The loop over the bits of a byte.
unfoldable pub times : ℕ → (ℕ → ℕ) → ℕ → ℕ
times zero turn crc = crc
times (suc n) turn crc = times n turn (turn crc)

-- The turn of the loop of crc8 over the bits.
abbrev pub crc8_bit : ℕ → ℕ → ℕ
crc8_bit polynomial crc =
    if crc / 128 % 2 == 1 then u8 (bit_xor (crc * 2) polynomial) else u8 (crc * 2)

-- crc8.
unfoldable pub crc8 : List ℕ → ℕ → ℕ → ℕ
crc8 [] polynomial crc = crc
crc8 (b ∷ bytes) polynomial crc =
    crc8 bytes polynomial (times 8 (crc8_bit polynomial) (bit_xor crc b))

-- The turn of the loop of crc16_modbus over the bits.
abbrev pub modbus_bit : ℕ → ℕ
modbus_bit crc = if crc % 2 == 1 then u16 (bit_xor (crc / 2) 0xA001) else u16 (crc / 2)

-- crc16_modbus.
unfoldable pub crc16_modbus : List ℕ → ℕ → ℕ
crc16_modbus [] crc = crc
crc16_modbus (b ∷ bytes) crc = crc16_modbus bytes (times 8 modbus_bit (bit_xor crc b))

-- The turn of the loop of crc16_ccitt_false over the bits.
abbrev pub ccitt_bit : ℕ → ℕ
ccitt_bit crc = if crc / 32768 % 2 == 1 then u16 (bit_xor (crc * 2) 0x1021) else u16 (crc * 2)

-- crc16_ccitt_false.
unfoldable pub crc16_ccitt_false : List ℕ → ℕ → ℕ
crc16_ccitt_false [] crc = crc
crc16_ccitt_false (b ∷ bytes) crc =
    crc16_ccitt_false bytes (times 8 ccitt_bit (bit_xor crc (u16 (b * 256))))

-- The turn of the loop of crc32 over the bits.
abbrev pub crc32_bit : ℕ → ℕ
crc32_bit crc = if crc % 2 == 1 then bit_xor (crc / 2) 0xEDB88320 else crc / 2

-- The loop of crc32.
unfoldable pub crc32_from : List ℕ → ℕ → ℕ
crc32_from [] crc = crc
crc32_from (b ∷ bytes) crc = crc32_from bytes (times 8 crc32_bit (bit_xor crc b))

-- crc32: `~crc` is the difference to the greatest value.
abbrev pub crc32 : List ℕ → ℕ → ℕ
crc32 bytes initial = 4294967295 - crc32_from bytes initial
