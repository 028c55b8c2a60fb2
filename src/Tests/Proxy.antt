-- ===== src/Tests/Proxy.antt =====
-- src/core/socks5.rs at concrete inputs.
use xssh_rust_lib.Base.{
  ◌+◌, ◌*◌, ◌<◌, ℕ, codes, true, false, List, [], ◌∷◌, ◌++◌, none, some, ok, contains, nat_eq,
  length, ◌≡◌, ◌↔◌, refl, list_beq,
}
use xssh_rust_lib.Base.Async.{ready}
use xssh_rust_lib.Base.Str.Utf8.{from_utf8, as_bytes}
use xssh_rust_lib.Base.Str.Decimal.{to_decimal}
use xssh_rust_lib.Operation.{OperationContext, run}
use xssh_rust_lib.Socks5.Options.{
  Socks5Authentication, username_password, Socks5ProxyOptions, default_options,
}
use xssh_rust_lib.Socks5.Server.{
  Server, start_server, accept_client, accepts, Reach, begin, next, Reach-full,
}
use xssh_rust_lib.Socks5.Stream.{Network, Socket, read_exact, write_all}
use xssh_rust_lib.Socks5.Stream.Laws.{read_exact-ok}
use xssh_rust_lib.Socks5.Address.{show_ipv4, show_ipv6}
use xssh_rust_lib.Socks5.Handshake.{authenticate, select_method, check_credentials}
use xssh_rust_lib.Socks5.Handshake.{
  read_connect_request, read_host, read_domain, domain_text, ConnectRequest,
}
use xssh_rust_lib.Socks5.Handshake.Request.{Encodes, read_connect_request-ok}
use xssh_rust_lib.Socks5.Handshake.Sound.{
  asked_method, greeting, proof_of, answers, authenticate-transcript,
}

-- A network that delivers each operation in its turn, and a context that sets no limit.
abbrev pub calm : Network
calm n = record {
  around = record {
    latest = 18446744073709551615;
    now = n;
    cancelled_at = none;
    cancel_first = false;
  };
  ready_at = some n;
  fault = none;
  gone_out = 0;
}

abbrev unlimited : OperationContext
unlimited = record { deadline = none }

abbrev pub login : Socks5Authentication
login = username_password (codes "u") (codes "pw")

abbrev pub client : Socket
client = record {
  input = 5 ∷ 2 ∷ 0 ∷ 2 ∷ 1 ∷ 1 ∷ b'u' ∷ 2 ∷ b'p' ∷ b'w' ∷ 99 ∷ [];
  output = [];
  operations = 0;
}

abbrev version_and_count : List ℕ
version_and_count = 5 ∷ 2 ∷ []

two_read : (read_exact calm 2 unlimited (codes "read") client).0 ≡ ready (ok (5 ∷ 2 ∷ []))
unfolding read_exact run
two_read = refl

read_exact-ok_example :
    let after = (read_exact calm 2 unlimited (codes "read") client).1 in
    (length version_and_count ≡ 2)
    × (client.input ≡ version_and_count ++ after.input)
    × (after.output ≡ [])
read_exact-ok_example = read_exact-ok calm unlimited (codes "read") client 2 two_read

let_in : (authenticate calm unlimited login client).0 ≡ ready (ok tt)
unfolding authenticate read_exact run select_method contains write_all check_credentials list_beq
    as_bytes codes
let_in = refl

authenticate-transcript_example :
    let after = (authenticate calm unlimited login client).1 in
    (methods : List ℕ) × (contains methods (asked_method login) ≡ true)
    × (client.input ≡ (greeting methods ++ proof_of login) ++ after.input)
    × (after.output ≡ client.output ++ answers login)
authenticate-transcript_example = authenticate-transcript calm unlimited login client let_in

compressed :
    show_ipv6 (0x20 ∷ 1 ∷ 0xd ∷ 0xb8 ∷ 0 ∷ 0 ∷ 0 ∷ 0 ∷ 0 ∷ 0 ∷ 0 ∷ 0 ∷ 0 ∷ 0 ∷ 0 ∷ 1 ∷ [])
    ≡ codes "2001:db8::1"
unfolding show_ipv6 to_decimal
compressed = refl

mapped :
    show_ipv6 (0 ∷ 0 ∷ 0 ∷ 0 ∷ 0 ∷ 0 ∷ 0 ∷ 0 ∷ 0 ∷ 0 ∷ 255 ∷ 255 ∷ 127 ∷ 0 ∷ 0 ∷ 1 ∷ [])
    ≡ codes "::ffff:127.0.0.1"
unfolding show_ipv6 show_ipv4 to_decimal
mapped = refl

-- A request for port 443 of a host by its name, with two bytes of the relayed stream behind it.
abbrev asker : Socket
asker = record {
  input = 5 ∷ 1 ∷ 0 ∷ 3 ∷ 2 ∷ b'd' ∷ b'b' ∷ 1 ∷ 187 ∷ 22 ∷ 3 ∷ [];
  output = [];
  operations = 3;
}

abbrev asked : ConnectRequest
asked = record { host = codes "db"; port = 443; command = 1 }

was_asked : (read_connect_request calm unlimited asker).0 ≡ ready (ok asked)
unfolding read_connect_request read_host read_domain domain_text read_exact run from_utf8 codes
was_asked = refl

read_connect_request-ok_example :
    let after = (read_connect_request calm unlimited asker).1 in
    (address_type : ℕ) × (encoded : List ℕ) × (high low : ℕ) × Encodes address_type encoded
      (codes "db")
    × (443 ≡ high * 256 + low)
    × (0 < 443)
    × (asker.input ≡ (5 ∷ 1 ∷ 0 ∷ address_type ∷ encoded ++ high ∷ low ∷ []) ++ after.input)
    × (after.output ≡ [])
read_connect_request-ok_example = read_connect_request-ok calm unlimited asker was_asked

-- A proxy for one client at a time, with a second client at the door.
abbrev single : Socks5ProxyOptions
single = record default_options { max_connections = 1 }

abbrev occupied : Server
occupied = accept_client (start_server single)

occupied-Reach : Reach single occupied
occupied-Reach = next begin accepts

Reach-full_example :
    (occupied.permits + occupied.connections ≡ 1)
    × ((accept_client occupied ≡ occupied) ↔ (occupied.connections ≡ 1))
Reach-full_example = Reach-full single occupied occupied-Reach
