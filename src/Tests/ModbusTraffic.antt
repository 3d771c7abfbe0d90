-- ===== src/Tests/ModbusTraffic.antt =====
-- Traffic of apps/agri_station_demo/agri_modbus_tcp.hpp over a stream of single bytes.
use openember.Prelude.{
  ℕ, suc, ◌<◌, ◌≡◌, ◌≢◌, refl, true, List, [], ◌∷◌, ◌++◌, Option, some, sym, arith, length, take,
  drop,
}
use openember.Modbus.Bytes.{put_words}
use openember.Modbus.Bank.{Bank, read_holding, get_register}
use openember.Modbus.Pdu.{handle_read, handle_pdu, fc_read_holding, fc_write_single}
use openember.Modbus.Socket.{
  Network, IsStream, read_full, read_full_lem, read_rounds, write_full, write_rounds,
  write_full_lem,
}
use openember.Modbus.Server.{serve_one_request}
use openember.Modbus.Client.{Client, read_holding_registers, request}
use openember.Modbus.Exchange.{query, read_round_trip}
use openember.Modbus.Responses.{Fits, handle_pdu_bounds, handle_pdu_write_read}

-- A socket that moves one byte in each call.
pub record Wire : Type 0 where
  pub incoming : List ℕ
  pub outgoing : List ℕ

abbrev recv_byte : ℕ → List ℕ → List ℕ → Option (List ℕ) × Wire
recv_byte n [] out = (some [], record { incoming = []; outgoing = out })
recv_byte n (b ∷ bs) out = (some (b ∷ []), record { incoming = bs; outgoing = out })

abbrev send_byte : List ℕ → Wire → Option ℕ × Wire
send_byte [] s = (some 0, s)
send_byte (b ∷ bs) s = (some 1, record s { outgoing = s.outgoing ++ b ∷ [] })

abbrev bytewise : Network
bytewise = record {
  Socket = Wire;
  recv = λ n s. recv_byte n s.incoming s.outgoing;
  send = send_byte;
}

bytewise_recv :
    (n : ℕ) (xs out : List ℕ)
    → 0 < n
    → 0 < length xs
    → (k : ℕ) × (t : Wire) × (k < n)
      × (k < length xs)
      × (recv_byte n xs out ≡ (some (take (suc k) xs), t))
      × (t.incoming ≡ drop (suc k) xs)
      × (t.outgoing ≡ out)
bytewise_recv n [] out h p = absurd (omega arith)
bytewise_recv n (x ∷ xs) out h p =
    (0, record { incoming = xs; outgoing = out }, h, p, refl, refl, refl)

bytewise_send :
    (bytes : List ℕ) (s : Wire)
    → 0 < length bytes
    → (k : ℕ) × (t : Wire) × (k < length bytes)
      × (send_byte bytes s ≡ (some (suc k), t))
      × (t.outgoing ≡ s.outgoing ++ take (suc k) bytes)
      × (t.incoming ≡ s.incoming)
bytewise_send [] s h = absurd (omega arith)
bytewise_send (b ∷ bs) s h = (0, record s { outgoing = s.outgoing ++ b ∷ [] }, h, refl, refl, refl)

abbrev bytewise-IsStream : IsStream bytewise
bytewise-IsStream = record {
  pending = λ s. s.incoming;
  sent = λ s. s.outgoing;
  recv_gives = λ n s. bytewise_recv n s.incoming s.outgoing;
  send_takes = bytewise_send;
}

abbrev field_bank : Bank
field_bank = 10 ∷ 512 ∷ 65535 ∷ 3 ∷ []

abbrev server : Wire
server = record { incoming = request 41 7 fc_read_holding 1 2; outgoing = [] }

abbrev answered : Wire
answered = record {
  incoming = 0 ∷ 41 ∷ 0 ∷ 0 ∷ 0 ∷ 7 ∷ 7 ∷ 3 ∷ 4 ∷ 2 ∷ 0 ∷ 255 ∷ 255 ∷ [];
  outgoing = [];
}

abbrev station : Client bytewise
station = record { socket = some answered; next_tid = 41 }

served : (serve_one_request bytewise field_bank server).2.outgoing ≡ answered.incoming
unfolding serve_one_request read_full read_rounds write_full write_rounds handle_pdu handle_read
    read_holding put_words
served = refl

read_round_trip_example :
    (t : Wire) × (read_holding_registers bytewise 7 1 2 station
      ≡ (some (512 ∷ 65535 ∷ []), record station { socket = some t; next_tid = 42 }))
    × (t.outgoing ≡ server.incoming)
read_round_trip_example =
    read_round_trip bytewise bytewise-IsStream field_bank 7 1 2 station server answered
      (omega arith, (omega arith, (omega arith, (omega arith, tt))))
      (omega arith, omega arith, omega arith, omega arith) refl refl refl (sym served)

handle_pdu_write_read_example :
    let bank' = (handle_pdu field_bank (query fc_write_single 2 9)).1 in
    ((handle_pdu field_bank (query fc_write_single 2 9)).0 ≡ some (query fc_write_single 2 9))
    × ((handle_pdu bank' (query fc_read_holding 2 1)).0
        ≡ some (fc_read_holding ∷ 2 ∷ put_words (9 ∷ [])))
    × ((j : ℕ) → j ≢ 2 → get_register bank' j ≡ get_register field_bank j)
handle_pdu_write_read_example =
    handle_pdu_write_read field_bank 2 9 (omega arith) (omega arith) (omega arith)

handle_pdu_bounds_example :
    Fits (handle_pdu field_bank (3 ∷ 0 ∷ 0 ∷ 0 ∷ 4 ∷ [])).0
    × (length (handle_pdu field_bank (3 ∷ 0 ∷ 0 ∷ 0 ∷ 4 ∷ [])).1 ≡ 4)
handle_pdu_bounds_example = handle_pdu_bounds field_bank (3 ∷ 0 ∷ 0 ∷ 0 ∷ 4 ∷ [])

read_full_lem_example :
    (t : Wire) × (read_full bytewise 4 answered ≡ (some (0 ∷ 41 ∷ 0 ∷ 0 ∷ []), t))
    × (t.incoming ≡ drop 4 answered.incoming)
    × (t.outgoing ≡ [])
read_full_lem_example = read_full_lem bytewise bytewise-IsStream 4 answered (omega arith)

write_full_lem_example :
    (t : Wire) × (write_full bytewise (1 ∷ 2 ∷ 3 ∷ []) server ≡ (true, t))
    × (t.outgoing ≡ 1 ∷ 2 ∷ 3 ∷ [])
    × (t.incoming ≡ server.incoming)
write_full_lem_example = write_full_lem bytewise bytewise-IsStream (1 ∷ 2 ∷ 3 ∷ []) server
