-- ===== src/Tests/Checksums.antt =====
-- Checksums of components/algorithm at their published check values.
use openember.Prelude.{◌/◌, ◌%◌, ◌≡◌, refl, [], ◌∷◌, ◌++◌, arith}
use openember.Prelude.Text.{Text, codes}
use openember.Checksum.{
  xor_checksum, sum_from, sum8, times, crc8, crc16_modbus, crc16_ccitt_false, crc32_from, crc32,
}
use openember.Checksum.Appended.{appended_cancels}

abbrev nine : Text
nine = codes "123456789"

crc8_check : crc8 nine 0x07 0 ≡ 0xF4
unfolding codes crc8 times
crc8_check = refl

crc16_modbus_check : crc16_modbus nine 0xFFFF ≡ 0x4B37
unfolding codes crc16_modbus times
crc16_modbus_check = refl

crc16_ccitt_false_check : crc16_ccitt_false nine 0xFFFF ≡ 0x29B1
unfolding codes crc16_ccitt_false times
crc16_ccitt_false_check = refl

crc32_check : crc32 nine 0xFFFFFFFF ≡ 0xCBF43926
unfolding codes crc32_from times
crc32_check = refl

sum8_check : sum8 nine ≡ 0xDD
unfolding codes sum_from
sum8_check = refl

appended_cancels_example :
    let modbus = crc16_modbus nine 65535 in
    let ccitt = crc16_ccitt_false nine 65535 in
    (xor_checksum (nine ++ xor_checksum nine ∷ []) ≡ 0)
    × (crc8 (nine ++ crc8 nine 7 65535 ∷ []) 7 65535 ≡ 0)
    × (crc16_modbus (nine ++ modbus % 256 ∷ modbus / 256 ∷ []) 65535 ≡ 0)
    × (crc16_ccitt_false (nine ++ ccitt / 256 ∷ ccitt % 256 ∷ []) 65535 ≡ 0)
appended_cancels_example = appended_cancels nine 7 65535 (omega arith)
