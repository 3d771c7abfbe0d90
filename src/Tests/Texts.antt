-- ===== src/Tests/Texts.antt =====
-- URIs of components/network/socket_uri.cpp and keys of components/transport/src/key_builder.cpp.
use openember.Prelude.{false, ◌≡◌, refl, true, [], ◌∷◌, ◌++◌, arith}
use openember.Prelude.Int.{pos}
use openember.Prelude.Text.{Text, codes, to_string, starts_with, find}
use openember.Transport.KeyBuilder.{
  KeyBuilder, normalize_name, strip_front, strip_back, prefix, node_info_key, parameter_key,
}
use openember.Transport.Keys.{key, family, node_info, parameter, key-family}
use openember.Network.Uri.{
  parse_endpoint, parse_host_port, split_host_port, split_bracketed, parse_port, ok, listen,
  open_tcp_server,
}
use openember.Network.UriLaws.{
  at_scheme, scheme_text, written, parse_endpoint_round_trip, Completes, parse_endpoint-Completes,
}

abbrev robot : KeyBuilder
robot = record { robot_id = codes "r1"; namespace_name = codes "/arm/" }

-- The information of one node and a parameter of another share a key.
shared :
    key robot (node_info (codes "a/params/b")) ≡ key robot (parameter (codes "a") (codes "b/info"))
unfolding key node_info_key parameter_key prefix normalize_name strip_front strip_back codes
shared = refl

key-family_example :
    family (node_info (codes "a/params/b")) ≡ family (parameter (codes "a") (codes "b/info"))
key-family_example =
    key-family robot (node_info (codes "a/params/b")) (parameter (codes "a") (codes "b/info"))
      shared

-- A leading dot becomes a leading slash, which a second normalisation removes.
dotted : (normalize_name (codes ".a") ≡ codes "/a") × (normalize_name (codes "/a") ≡ codes "a")
unfolding normalize_name strip_front strip_back codes
dotted = (refl, refl)

-- The host "::1", in brackets.
parse_endpoint_round_trip_example :
    let host : Text = b':' ∷ b':' ∷ b'1' ∷ [] in
    parse_endpoint (scheme_text true ++ written false host (to_string (pos 8080)))
    ≡ (ok, record (at_scheme true) { host = host; port = 8080 })
parse_endpoint_round_trip_example =
    parse_endpoint_round_trip true false (b':' ∷ b':' ∷ b'1' ∷ []) 8080 refl (omega arith)
      (ground arith, (ground arith, (ground arith, tt)))

-- A plain host may hold a closing bracket.
plain_bracket :
    let host : Text = b'a' ∷ b']' ∷ b'b' ∷ [] in
    parse_endpoint (scheme_text false ++ written true host (to_string (pos 80)))
    ≡ (ok, record (at_scheme false) { host = host; port = 80 })
plain_bracket =
    parse_endpoint_round_trip false true (b'a' ∷ b']' ∷ b'b' ∷ []) 80 refl (omega arith)
      (ground arith)

parse_endpoint-Completes_example : Completes (parse_endpoint (codes "udp://10.0.0.1:65535"))
parse_endpoint-Completes_example = parse_endpoint-Completes (codes "udp://10.0.0.1:65535")

listens :
    listen (λ c. ok) (codes "tcp://[::1]:80") 4 ≡ (ok, open_tcp_server (codes "::1") 80 4 ∷ [])
unfolding listen parse_endpoint parse_host_port split_host_port split_bracketed parse_port
    starts_with find codes
listens = refl
