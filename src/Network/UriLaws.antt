-- ===== src/Network/UriLaws.antt =====
-- components/network/socket_uri.cpp: what parse_endpoint makes of the URIs that its header lists.
use openember.Prelude.{
  ℕ, zero, suc, ◌+◌, ◌-◌, ◌*◌, ◌/◌, ◌%◌, ◌≤◌, ◌<◌, ◌≡◌, ◌≢◌, refl, sym, ◌∙◌, ap, Bool, true, false,
  Bool-cases, ◌||◌, inl, inr, [], ◌∷◌, ◌++◌, Option, none, some, arith, ltb, length, take, drop,
  get_or, All, take-append_length, drop-append_length, length-append, drop-add,
}
use native.Mathlib.Nat.{suc-add}
use mathlib.Core.Option
use openember.Prelude.Int.{pos}
use openember.Prelude.Text.{Text, codes, is_empty, starts_with, find, rfind, digits_of, to_string}
use openember.Network.Uri.{
  Scheme, Result, tcp, udp, unix, unknown, ok, err_invalid_arg, err_unsupported, Endpoint,
  no_endpoint, parse_port, split_bracketed, split_plain, is_bracketed, split_host_port, with_port,
  finish_host_port, parse_host_port, parse_endpoint,
}

parse_digit :
    (n : ℕ) (ds : Text) → n ≤ 65535 → parse_port (n / 10) ((b'0' + n % 10) ∷ ds) ≡ parse_port n ds
unfolding parse_port
parse_digit n ds h =
    let e : n / 10 * 10 + (b'0' + n % 10 - b'0') ≡ n = omega arith in rw e (ground arith)

-- Printing and parsing of a port.
parse_port-digits_of :
    (f n : ℕ) (ds : Text) → n < f → n ≤ 65535 → parse_port 0 (digits_of f n ds) ≡ parse_port n ds
unfolding digits_of parse_port
parse_port-digits_of zero n ds h k = absurd (omega arith)
parse_port-digits_of (suc f) n ds h k = elim (Bool-cases (ltb n 10)) [
  | inl e ↦ rw e (ground arith)
  | inr e ↦ rw e (
      parse_port-digits_of f (n / 10) ((b'0' + n % 10) ∷ ds) (ground arith) (omega arith)
      ∙ parse_digit n ds k)
]

-- The digits are characters from 0 to 9, and there is at least one.
abbrev IsDigit : ℕ → Type 0
IsDigit c = (b'0' ≤ c) × (c ≤ b'9')

digits_of-IsDigit : (f n : ℕ) (ds : Text) → All IsDigit ds → All IsDigit (digits_of f n ds)
unfolding digits_of
digits_of-IsDigit zero n ds h = h
digits_of-IsDigit (suc f) n ds h = elim (Bool-cases (ltb n 10)) [
  | inl e ↦ rw e ((omega arith, omega arith), h)
  | inr e ↦
      rw e (digits_of-IsDigit f (n / 10) ((b'0' + n % 10) ∷ ds) ((omega arith, omega arith), h))
]

rfind-IsDigit : (s : Text) → All IsDigit s → rfind b':' s ≡ none
unfolding rfind
rfind-IsDigit [] h = refl
rfind-IsDigit (c ∷ s) h = rw (rfind-IsDigit s h.1) (ground (arith, h.0))

-- The last colon of host:port is the one before the port, whatever the host holds.
rfind-append :
    (host port : Text) → All IsDigit port → rfind b':' (host ++ b':' ∷ port) ≡ some (length host)
unfolding rfind
rfind-append [] port h = rw (rfind-IsDigit port h) refl
rfind-append (c ∷ host) port h = rw (rfind-append host port h) refl

find-append :
    (c : ℕ) (host rest : Text)
    → All (λ d. d ≢ c) host
    → find c (host ++ c ∷ rest) ≡ some (length host)
unfolding find
find-append c [] rest h = ground arith
find-append c (d ∷ host) rest h = rw (find-append c host rest h.1) (ground (arith, h.0))

digits_of-ne-nil : (f n : ℕ) (ds : Text) → n < f → is_empty (digits_of f n ds) ≡ false
unfolding digits_of
digits_of-ne-nil zero n ds h = absurd (omega arith)
digits_of-ne-nil (suc f) n ds h = elim (Bool-cases (ltb n 10)) [
  | inl e ↦ rw e refl
  | inr e ↦ rw e (digits_of-ne-nil f (n / 10) _ (ground arith))
]

abbrev port_text : ℕ → Text
port_text n = to_string (pos n)

around_place :
    (host : Text) (c : ℕ) (port : Text)
    → (take (length host) (host ++ c ∷ port) ≡ host)
      × (drop (length host + 1) (host ++ c ∷ port) ≡ port)
around_place host c port = (
  take-append_length host (c ∷ port),
  sym (drop-add (length host) 1 (host ++ c ∷ port))
      ∙ ap (drop 1) (drop-append_length host (c ∷ port)),
)

get_or-append :
    (host : Text) (c : ℕ) (rest : Text) (i : ℕ)
    → get_or (host ++ c ∷ rest) (length host + i) 0 ≡ get_or (c ∷ rest) i 0
get_or-append [] c rest i = ground arith
get_or-append (h ∷ host) c rest i = rw suc-add (get_or-append host c rest i)

-- What a host and a printed port are parsed to.
finish_ok :
    (ep : Endpoint) (host : Text) (n : ℕ)
    → is_empty host ≡ false
    → n ≤ 65535
    → finish_host_port ep (some (host, port_text n)) ≡ (ok, record ep { host = host; port = n })
unfolding to_string parse_port
finish_ok ep host n h k =
    let parsed : parse_port 0 (port_text n) ≡ some n =
      parse_port-digits_of (suc n) n [] (omega arith) k in
    rw (h, digits_of-ne-nil (suc n) n [] (omega arith), parsed) refl

split_host_port-plain :
    (host : Text) (n : ℕ)
    → is_bracketed (host ++ b':' ∷ port_text n) ≡ false
    → split_host_port (host ++ b':' ∷ port_text n) ≡ some (host, port_text n)
unfolding split_host_port split_plain to_string
split_host_port-plain host n h =
    let port = port_text n in
    let (t, d) = around_place host b':' port in
    rw (h, rfind-append host port (digits_of-IsDigit (suc n) n [] tt)) (rw (t, d) refl)

split_host_port-bracketed :
    (host : Text) (n : ℕ)
    → All (λ c. c ≢ b']') host
    → split_host_port (b'[' ∷ (host ++ b']' ∷ b':' ∷ port_text n)) ≡ some (host, port_text n)
unfolding split_host_port split_bracketed find
split_host_port-bracketed host n h =
    let port = port_text n in
    let tail = b':' ∷ port in
    let s = host ++ b']' ∷ tail in
    let k = length host in
    let found : find b']' (b'[' ∷ s) ≡ some (suc k) =
      ap (Option.map suc) (find-append b']' host tail h) in
    let e₁ : suc k + 1 ≡ suc (k + 1) = omega arith in
    let e₂ : suc k + 2 ≡ suc (k + 2) = omega arith in
    let e₃ : suc k - 1 ≡ k = omega arith in
    let long : ltb (suc (length s)) (suc (k + 2)) ≡ false =
      ground (arith, length-append host (b']' ∷ tail)) in
    let colon : get_or s (k + 1) 0 ≡ b':' = get_or-append host b']' tail 1 in
    let rest : drop (k + 2) s ≡ port =
      sym (drop-add k 2 s) ∙ ap (drop 2) (drop-append_length host (b']' ∷ tail)) in
    let first : take k s ≡ host = take-append_length host (b']' ∷ tail) in
    rw found (rw (e₁, e₂, e₃) (rw (long, colon) (rw (rest, first) refl)))

-- The two schemes with a host and a port.
abbrev pub scheme_text : Bool → Text
scheme_text true = codes "tcp://"
scheme_text false = codes "udp://"

abbrev pub at_scheme : Bool → Endpoint
at_scheme true = record no_endpoint { scheme = tcp }
at_scheme false = record no_endpoint { scheme = udp }

parse_endpoint-scheme :
    (is_tcp : Bool) (rest : Text)
    → parse_endpoint (scheme_text is_tcp ++ rest) ≡ parse_host_port rest (at_scheme is_tcp)
unfolding parse_endpoint starts_with codes
parse_endpoint-scheme true rest = refl
parse_endpoint-scheme false rest = refl

-- The first character, if there is one, is no opening bracket.
abbrev pub BeginsPlain : Text → Type 0
BeginsPlain [] = Unit
BeginsPlain (c ∷ host) = c ≢ b'['

stays_plain :
    (n : ℕ) (h : Text)
    → is_empty h ≡ false
    → BeginsPlain h
    → is_bracketed (h ++ b':' ∷ to_string (pos n)) ≡ false
stays_plain n [] e b = cc
stays_plain n (c ∷ h) e b = ground (arith, b)

-- The two ways to write a host and a port: plainly, or with the host in brackets.
abbrev pub written : Bool → Text → Text → Text
written true host port = host ++ b':' ∷ port
written false host port = b'[' ∷ (host ++ b']' ∷ b':' ∷ port)

-- What a way of writing asks of the host: not to begin with an opening bracket, or to have no closing
-- one.
abbrev pub Suits : Bool → Text → Type 0
Suits true host = BeginsPlain host
Suits false host = All (λ c. c ≢ b']') host

split_host_port-written :
    (is_plain : Bool) (host : Text) (n : ℕ)
    → is_empty host ≡ false
    → Suits is_plain host
    → split_host_port (written is_plain host (port_text n)) ≡ some (host, port_text n)
split_host_port-written true host n ne h = split_host_port-plain host n (stays_plain n host ne h)
split_host_port-written false host n ne h = split_host_port-bracketed host n h

-- A tcp:// or udp:// URI of a nonempty host and a decimal port up to 65535 is parsed to that host and
-- port, in each of two ways of writing it: as host:port, if the host does not begin with an opening
-- bracket (it may hold colons and other brackets), and as [host]:port, if the host has no closing
-- bracket.
pub parse_endpoint_round_trip :
    (is_tcp is_plain : Bool) (host : Text) (n : ℕ)
    → is_empty host ≡ false
    → n ≤ 65535
    → Suits is_plain host
    → parse_endpoint (scheme_text is_tcp ++ written is_plain host (to_string (pos n)))
      ≡ (ok, record (at_scheme is_tcp) { host = host; port = n })
unfolding parse_host_port
parse_endpoint_round_trip is_tcp is_plain host n ne k h =
    parse_endpoint-scheme is_tcp (written is_plain host (to_string (pos n)))
    ∙ ap (finish_host_port (at_scheme is_tcp)) (split_host_port-written is_plain host n ne h)
    ∙ finish_ok (at_scheme is_tcp) host n ne k

parse_port-le : (a : ℕ) (s : Text) (n : ℕ) → a ≤ 65535 → parse_port a s ≡ some n → n ≤ 65535
unfolding parse_port
parse_port-le a [] n h e = ground arith
parse_port-le a (c ∷ s) n h e = ground (arith, parse_port-le (a * 10 + (c - b'0')) s n)

-- What a URI without an error gives: a path for unix://, and a host and a port for the others.
abbrev pub IsComplete : Scheme → Endpoint → Type 0
IsComplete unix ep = is_empty ep.path ≡ false
IsComplete tcp ep = (is_empty ep.host ≡ false) × (ep.port ≤ 65535)
IsComplete udp ep = (is_empty ep.host ≡ false) × (ep.port ≤ 65535)
IsComplete unknown ep = ⊥

abbrev pub Completes : Result × Endpoint → Type 0
Completes (ok, ep) = IsComplete ep.scheme ep
Completes (err_invalid_arg, ep) = Unit
Completes (err_unsupported, ep) = Unit

with_port-Completes :
    (is_tcp : Bool) (host port : Text)
    → is_empty host ≡ false
    → Completes (with_port host (at_scheme is_tcp) (parse_port 0 port))
with_port-Completes is_tcp host port h =
    go is_tcp (parse_port 0 port) (λ n e. parse_port-le 0 port n (omega arith) e)
  where
    go :
        (b : Bool) (r : Option ℕ)
        → ((n : ℕ) → r ≡ some n → n ≤ 65535)
        → Completes (with_port host (at_scheme b) r)
    go b none k = tt
    go true (some n) k = (h, k n refl)
    go false (some n) k = (h, k n refl)

finish-Completes :
    (is_tcp : Bool) (r : Option (Text × Text)) → Completes (finish_host_port (at_scheme is_tcp) r)
finish-Completes is_tcp none = tt
finish-Completes is_tcp (some (host, port)) = elim (Bool-cases (is_empty host || is_empty port)) [
  | inl e ↦ rw e tt
  | inr e ↦ rw e (with_port-Completes is_tcp host port (ground (arith, e)))
]

-- Whatever the URI, if it is parsed without an error then its scheme is known, a unix:// URI has a
-- path, and a tcp:// or udp:// URI has a host and a port of at most 65535, which fits uint16_t.
pub parse_endpoint-Completes : (uri : Text) → Completes (parse_endpoint uri)
unfolding parse_endpoint parse_host_port
parse_endpoint-Completes uri = elim (Bool-cases (is_empty uri)) [
  | inl e ↦ rw e tt
  | inr e ↦ rw e (elim (Bool-cases (starts_with uri (codes "unix://"))) [
    | inl f ↦ rw f (elim (Bool-cases (is_empty (drop 7 uri))) [ inl g ↦ rw g tt | inr g ↦ rw g g ])
    | inr f ↦ rw f (elim (Bool-cases (starts_with uri (codes "tcp://"))) [
      | inl g ↦ rw g (finish-Completes true (split_host_port (drop 6 uri)))
      | inr g ↦ rw g (elim (Bool-cases (starts_with uri (codes "udp://"))) [
        | inl i ↦ rw i (finish-Completes false (split_host_port (drop 6 uri)))
        | inr i ↦ rw i tt
      ])
    ])
  ])
]
