-- ===== src/Modbus/Server.antt =====
-- apps/agri_station_demo/agri_modbus_tcp.hpp: ServeOneRequest.
use openember.Prelude.{
  ℕ, ◌+◌, ◌-◌, Bool, false, not, ◌||◌, List, ◌∷◌, ◌++◌, Option, none, some, ltb, ◌==◌,
  if◌then◌else◌, length, take, get_or,
}
use openember.Prelude.Word.{u16}
use openember.Modbus.Bytes.{be16_at, put_be16}
use openember.Modbus.Bank.{Bank}
use openember.Modbus.Pdu.{handle_pdu}
use openember.Modbus.Socket.{Network, read_full, write_full}

-- A frame: transaction and protocol id, the length of what follows, the unit id and the PDU.
abbrev pub frame : List ℕ → ℕ → List ℕ → List ℕ
frame ids unit pdu = ids ++ (put_be16 (u16 (1 + length pdu)) ++ unit ∷ pdu)

module _ (net : Network) where
  open net use {Socket}

  abbrev reply : List ℕ → Option (List ℕ) × Bank → Socket → Bool × Bank × Socket
  reply mbap (none, bank) s = (false, bank, s)
  reply mbap (some response, bank) s =
      let (done, t) = write_full net (frame (take 4 mbap) (get_or mbap 6 0) response) s in
      (done, bank, t)

  abbrev serve_pdu : Bank → List ℕ → Option (List ℕ) × Socket → Bool × Bank × Socket
  serve_pdu bank mbap (none, s) = (false, bank, s)
  serve_pdu bank mbap (some pdu, s) = reply mbap (handle_pdu bank pdu) s

  abbrev serve_header : Bank → Option (List ℕ) × Socket → Bool × Bank × Socket
  serve_header bank (none, s) = (false, bank, s)
  serve_header bank (some mbap, s) =
      let len = be16_at mbap 4 in
      let rest = serve_pdu bank mbap (read_full net (len - 1) s) in
      if not (be16_at mbap 2 == 0) || ltb len 2 || ltb 260 len then (false, bank, s) else rest

  -- ServeOneRequest: whether it succeeded, the bank and the socket.
  unfoldable pub serve_one_request : Bank → Socket → Bool × Bank × Socket
  serve_one_request bank s = serve_header bank (read_full net 7 s)
