-- ===== src/Network/Uri.antt =====
-- components/network/socket_uri.cpp: parse_endpoint.
use openember.Prelude.{
  ℕ, ◌+◌, ◌-◌, ◌*◌, Bool, false, not, ◌||◌, List, [], ◌∷◌, Option, none, some, ltb, ◌==◌,
  if◌then◌else◌, length, take, drop, get_or,
}
use openember.Prelude.Text.{Text, codes, is_empty, starts_with, find, rfind}

pub data Scheme : Type 0 where
  unix tcp udp unknown : Scheme

pub data Result : Type 0 where
  ok err_invalid_arg err_unsupported : Result

pub record Endpoint : Type 0 where
  pub scheme : Scheme
  pub host : Text
  pub port : ℕ
  pub path : Text

-- Endpoint{}.
abbrev pub no_endpoint : Endpoint
no_endpoint = record { scheme = unknown; host = []; port = 0; path = [] }

-- The loop over the digits of the port.
unfoldable pub parse_port : ℕ → Text → Option ℕ
parse_port port [] = some port
parse_port port (c ∷ s) =
    let next = port * 10 + (c - b'0') in
    let rest = parse_port next s in
    if ltb c b'0' || ltb b'9' c then none else if ltb 65535 next then none else rest

-- The host and the port as texts.
unfoldable pub split_bracketed : Text → Option ℕ → Option (Text × Text)
split_bracketed rest none = none
split_bracketed rest (some rb) =
    if ltb (length rest) (rb + 2) || not (get_or rest (rb + 1) 0 == b':')
    then none
    else some (take (rb - 1) (drop 1 rest), drop (rb + 2) rest)

unfoldable pub split_plain : Text → Option ℕ → Option (Text × Text)
split_plain rest none = none
split_plain rest (some p) = some (take p rest, drop (p + 1) rest)

abbrev pub is_bracketed : Text → Bool
is_bracketed [] = false
is_bracketed (c ∷ s) = c == b'['

unfoldable pub split_host_port : Text → Option (Text × Text)
split_host_port rest =
    if is_bracketed rest
    then split_bracketed rest (find b']' rest)
    else split_plain rest (rfind b':' rest)

abbrev pub with_port : Text → Endpoint → Option ℕ → Result × Endpoint
with_port host ep none = (err_invalid_arg, ep)
with_port host ep (some p) = (ok, record ep { host = host; port = p })

abbrev pub finish_host_port : Endpoint → Option (Text × Text) → Result × Endpoint
finish_host_port ep none = (err_invalid_arg, ep)
finish_host_port ep (some (host, port)) =
    if is_empty host || is_empty port
    then (err_invalid_arg, ep)
    else with_port host ep (parse_port 0 port)

-- parse_host_port.
unfoldable pub parse_host_port : Text → Endpoint → Result × Endpoint
parse_host_port rest ep = finish_host_port ep (split_host_port rest)

-- parse_endpoint.
unfoldable pub parse_endpoint : Text → Result × Endpoint
parse_endpoint uri =
    let path = drop 7 uri in
    let rest = drop 6 uri in
    let unix_result = if is_empty path then err_invalid_arg else ok in
    if is_empty uri
    then (err_invalid_arg, no_endpoint)
    else if starts_with uri (codes "unix://")
    then (unix_result, record no_endpoint { scheme = unix; path = path })
    else if starts_with uri (codes "tcp://")
    then parse_host_port rest (record no_endpoint { scheme = tcp })
    else if starts_with uri (codes "udp://")
    then parse_host_port rest (record no_endpoint { scheme = udp })
    else (err_unsupported, no_endpoint)

-- The calls that Socket makes of the system's sockets; a call's result is a parameter.
pub data SocketCall : Type 0 where
  open_unix_server : Text → ℕ → SocketCall
  open_tcp_server : Text → ℕ → ℕ → SocketCall
  open_unix_client : Text → SocketCall
  open_tcp_client : Text → ℕ → ℕ → SocketCall
  open_udp : Text → ℕ → SocketCall
  udp_connect : Text → ℕ → SocketCall

module _ (call : SocketCall → Result) where
  -- The result of a call, and the calls made.
  abbrev one : SocketCall → Result × List SocketCall
  one c = (call c, c ∷ [])

  abbrev pub listen_on : Endpoint → ℕ → Scheme → Result × List SocketCall
  listen_on ep backlog unix = one (open_unix_server ep.path backlog)
  listen_on ep backlog tcp = one (open_tcp_server ep.host ep.port backlog)
  listen_on ep backlog udp =
      one (open_udp (if is_empty ep.host then codes "0.0.0.0" else ep.host) ep.port)
  listen_on ep backlog unknown = (err_unsupported, [])

  abbrev pub then_connect : Endpoint → Result → Result × List SocketCall
  then_connect ep ok = (
    call (udp_connect ep.host ep.port),
    open_udp (codes "0.0.0.0") 0 ∷ udp_connect ep.host ep.port ∷ [],
  )
  then_connect ep e = (e, open_udp (codes "0.0.0.0") 0 ∷ [])

  abbrev pub connect_to : Endpoint → Scheme → Result × List SocketCall
  connect_to ep unix = one (open_unix_client ep.path)
  connect_to ep tcp = one (open_tcp_client ep.host ep.port 5000)
  connect_to ep udp = then_connect ep (call (open_udp (codes "0.0.0.0") 0))
  connect_to ep unknown = (err_unsupported, [])

  abbrev pub when_parsed :
      (Endpoint → Scheme → Result × List SocketCall) → Result × Endpoint → Result × List SocketCall
  when_parsed act (ok, ep) = act ep ep.scheme
  when_parsed act (e, ep) = (e, [])

  -- Socket::listen.
  unfoldable pub listen : Text → ℕ → Result × List SocketCall
  listen uri backlog = when_parsed (λ ep scheme. listen_on ep backlog scheme) (parse_endpoint uri)

  -- Socket::connect.
  unfoldable pub connect : Text → Result × List SocketCall
  connect uri = when_parsed connect_to (parse_endpoint uri)
