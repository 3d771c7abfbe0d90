-- ===== src/Modbus/Bytes.antt =====
-- apps/agri_station_demo/agri_modbus_tcp.hpp: Be16 and PutBe16. Bytes are numbers below 256; the
-- two bytes of a word do not overlap, so `|` is a sum.
use openember.Prelude.{ℕ, ◌+◌, ◌*◌, ◌/◌, ◌%◌, ◌<◌, ◌≡◌, List, [], ◌∷◌, ◌++◌, arith, get_or}
use openember.Prelude.Word.{u16}

abbrev pub be16 : ℕ → ℕ → ℕ
be16 high low = u16 (high * 256 + low)

-- Be16(p + i).
abbrev pub be16_at : List ℕ → ℕ → ℕ
be16_at bytes i = be16 (get_or bytes i 0) (get_or bytes (i + 1) 0)

-- PutBe16.
abbrev pub put_be16 : ℕ → List ℕ
put_be16 v = (v / 256 % 256) ∷ (v % 256) ∷ []

abbrev pub IsWord : ℕ → Type 0
IsWord v = v < 65536

abbrev pub IsByte : ℕ → Type 0
IsByte b = b < 256

pub be16-put_be16 : (v : ℕ) → IsWord v → be16 (v / 256 % 256) (v % 256) ≡ v
be16-put_be16 v h = omega arith

-- The payload of a read response.
unfoldable pub put_words : List ℕ → List ℕ
put_words [] = []
put_words (v ∷ vs) = put_be16 v ++ put_words vs
