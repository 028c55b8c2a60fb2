-- ===== src/Socks5/Handshake/Request.antt =====
-- src/core/socks5.rs, `read_connect_request`: the bytes that a request is read from.
use xssh_rust_lib.Base.{
  ℕ, ◌+◌, ◌*◌, ◌<◌, Text, true, false, ◌||◌, List, [], ◌∷◌, ◌++◌, Option, none, some, ok, length,
  ◌==◌, ◌!=◌, nat_eq, ◌≡◌, ◌≢◌, refl, sym, ◌∙◌, ap, arith, subst,
}
use mathlib.Core.Path.{ap₂}
use mathlib.Core.List.{append-nil}
use xssh_rust_lib.Base.Async.{Async, ready, ◌>>=◌}
use xssh_rust_lib.Base.Async.Laws.{
  Ensures, >>=-Ensures, guard-Ensures, branch-Ensures, pure-Ensures, raise-Ensures,
}
use xssh_rust_lib.Base.Async.Failing.{fail_with-Ensures}
use xssh_rust_lib.Base.Str.Utf8.{from_utf8}
use xssh_rust_lib.Operation.{OperationContext}
use xssh_rust_lib.Socks5.Stream.{Network, Socket}
use xssh_rust_lib.Socks5.Address.{show_ipv4, show_ipv6}
use xssh_rust_lib.Socks5.Handshake.{
  byte_at, general, read, read_request, domain_text, read_domain, read_host, read_connect_request,
  ConnectRequest, RequestError, socks5_version, socks5_atyp_ipv4, socks5_atyp_domain,
  socks5_atyp_ipv6,
}
use xssh_rust_lib.Socks5.Handshake.Exchange.{
  Exchanged, one_byte, two_bytes, after_both, as-Exchanged, reading,
}

-- How a host stands in a request: the type of its address, and the bytes behind it.
pub data Encodes : ℕ → List ℕ → Text → Type 0 where
  ipv4 : (bytes : List ℕ) → length bytes ≡ 4 → Encodes socks5_atyp_ipv4 bytes (show_ipv4 bytes)
  domain :
      (bytes : List ℕ) (host : Text)
      → bytes ≢ []
      → from_utf8 bytes ≡ some host
      → Encodes socks5_atyp_domain (length bytes ∷ bytes) host
  ipv6 : (bytes : List ℕ) → length bytes ≡ 16 → Encodes socks5_atyp_ipv6 bytes (show_ipv6 bytes)

four_bytes :
    (bytes : List ℕ)
    → length bytes ≡ 4
    → bytes ≡ byte_at bytes 0 ∷ byte_at bytes 1 ∷ byte_at bytes 2 ∷ byte_at bytes 3 ∷ []
four_bytes [] h = cc
four_bytes (a ∷ []) h = absurd (omega arith)
four_bytes (a ∷ b ∷ []) h = absurd (omega arith)
four_bytes (a ∷ b ∷ c ∷ []) h = absurd (omega arith)
four_bytes (a ∷ b ∷ c ∷ d ∷ []) h = refl
four_bytes (a ∷ b ∷ c ∷ d ∷ e ∷ bytes) h = absurd (omega arith)

named : (bytes : List ℕ) (count : ℕ) → length bytes ≡ count → (count == 0) ≡ false → bytes ≢ []
named bytes count size nonempty e =
    let none_read : length bytes ≡ 0 = ap length e in absurd (ground arith)

type_is : (address_type expected : ℕ) → (address_type == expected) ≡ true → expected ≡ address_type
type_is address_type expected h = ground arith

nonzero : (port : ℕ) → (port == 0) ≡ false → 0 < port
nonzero port h = ground arith

request_bytes :
    (header encoded bytes : List ℕ)
    → length header ≡ 4
    → length bytes ≡ 2
    → (byte_at header 0 != socks5_version || byte_at header 2 != 0) ≡ false
    → header ++ (encoded ++ bytes)
      ≡ socks5_version ∷ byte_at header 1 ∷ 0 ∷ byte_at header 3 ∷ encoded
        ++ byte_at bytes 0 ∷ byte_at bytes 1 ∷ []
request_bytes header encoded bytes h4 h2 sound =
    let right_version : byte_at header 0 ≡ socks5_version = ground arith in
    let reserved : byte_at header 2 ≡ 0 = ground arith in
    ap₂ ◌++◌
      (four_bytes header h4
        ∙ ap₂ (λ v r. v ∷ byte_at header 1 ∷ r ∷ byte_at header 3 ∷ []) right_version reserved)
      (ap (λ t. encoded ++ t) (two_bytes bytes h2))

module _ (network : Network) (context : OperationContext) where
  -- A read of a request, and what follows it.
  then_request :
      {B : Type 0} (count : ℕ) (operation : Text) (f : List ℕ → Async Socket RequestError B)
      (s : Socket) {Q : B → Socket → Type 0}
      → ((bytes : List ℕ) (s' : Socket)
          → length bytes ≡ count
          → Exchanged s s' bytes []
          → Ensures (f bytes s') Q)
      → Ensures ((read_request network context count operation >>= f) s) Q
  then_request count operation f s next =
      >>=-Ensures (read_request network context count operation) f s
        {P = λ bytes s'. (length bytes ≡ count) × Exchanged s s' bytes []}
        (fail_with-Ensures general (read network context count operation) s
          (reading network context count operation s))
        λ bytes s' (size, e). next bytes s' size e

  abbrev HostRead : ℕ → Socket → Text → Socket → Type 0
  HostRead address_type s host s' =
      (encoded : List ℕ) × Encodes address_type encoded host × Exchanged s s' encoded []

  domain_text-Ensures :
      (text : Option Text) (s : Socket) {Q : Text → Socket → Type 0}
      → ((host : Text) → text ≡ some host → Q host s)
      → Ensures (domain_text network context text s) Q
  unfolding domain_text
  domain_text-Ensures none s h = raise-Ensures _ s
  domain_text-Ensures (some host) s h = pure-Ensures host s (h host refl)

  read_domain-Ensures :
      (s : Socket) → Ensures (read_domain network context s) (HostRead socks5_atyp_domain s)
  unfolding read_domain domain_text
  read_domain-Ensures s = then_request 1 _ _ s λ count s1 count_size e1.
      guard-Ensures _ _ _ s1 λ nonempty. then_request _ _ _ s1 λ bytes s2 size e2.
        domain_text-Ensures (from_utf8 bytes) s2 λ host decoded. (
          length bytes ∷ bytes,
          domain bytes host (named bytes (byte_at count 0) size nonempty) decoded,
          as-Exchanged (after_both e1 e2)
              (ap (λ t. t ++ bytes) (one_byte count count_size ∙ ap (λ n. n ∷ []) (sym size))) refl,
        )

  read_host-Ensures :
      (address_type : ℕ) (s : Socket)
      → Ensures (read_host network context address_type s) (HostRead address_type s)
  unfolding read_host
  read_host-Ensures address_type s =
      branch-Ensures (address_type == socks5_atyp_ipv4) _ _ s
        (λ is_ipv4. then_request 4 _ _ s λ bytes s' size e. pure-Ensures _ s' (
          bytes,
          subst (λ t. Encodes t bytes (show_ipv4 bytes))
              (type_is address_type socks5_atyp_ipv4 is_ipv4) (ipv4 bytes size),
          e,
        ))
        λ _.
          branch-Ensures (address_type == socks5_atyp_domain) _ _ s
            (λ is_domain.
              subst (λ t. Ensures (read_domain network context s) (HostRead t s))
                (type_is address_type socks5_atyp_domain is_domain) (read_domain-Ensures s))
            λ _.
              branch-Ensures (address_type == socks5_atyp_ipv6) _ _ s
                (λ is_ipv6. then_request 16 _ _ s λ bytes s' size e. pure-Ensures _ s' (
                  bytes,
                  subst (λ t. Encodes t bytes (show_ipv6 bytes))
                      (type_is address_type socks5_atyp_ipv6 is_ipv6) (ipv6 bytes size),
                  e,
                ))
                λ _. raise-Ensures _ s

  abbrev RequestRead : Socket → ConnectRequest → Socket → Type 0
  RequestRead s request s' =
      (address_type : ℕ) × (encoded : List ℕ) × (high low : ℕ) × Encodes address_type encoded
        request.host
      × (request.port ≡ high * 256 + low)
      × (0 < request.port)
      × Exchanged s s'
          (socks5_version ∷ request.command ∷ 0 ∷ address_type ∷ encoded ++ high ∷ low ∷ []) []

  read_connect_request-Ensures :
      (s : Socket) → Ensures (read_connect_request network context s) (RequestRead s)
  unfolding read_connect_request
  read_connect_request-Ensures s = then_request 4 _ _ s λ header s1 header_size e1.
      guard-Ensures (byte_at header 0 != socks5_version || byte_at header 2 != 0) _ _ s1 λ sound.
        >>=-Ensures (read_host network context (byte_at header 3)) _ s1
          (read_host-Ensures (byte_at header 3) s1)
          λ host s2 (encoded, encodes, e2). then_request 2 _ _ s2 λ bytes s3 size e3.
            guard-Ensures _ _ _ s3 λ positive. pure-Ensures _ s3 (
              byte_at header 3,
              encoded,
              byte_at bytes 0,
              byte_at bytes 1,
              encodes,
              refl,
              nonzero _ positive,
              as-Exchanged (after_both e1 (after_both e2 e3))
                  (request_bytes header encoded bytes header_size size sound) refl,
            )

  -- A request is returned only when the client has sent its bytes: the version, the command, a zero,
  -- the type of the address, the host in that type, and a port that is not zero, high byte first.
  -- No byte beyond these has been taken, and nothing has been sent.
  pub read_connect_request-ok :
      (s : Socket) {request : ConnectRequest}
      → (read_connect_request network context s).0 ≡ ready (ok request)
      → let s' = (read_connect_request network context s).1 in
        (address_type : ℕ) × (encoded : List ℕ) × (high low : ℕ) × Encodes address_type encoded
          request.host
        × (request.port ≡ high * 256 + low)
        × (0 < request.port)
        × (s.input
            ≡ (socks5_version ∷ request.command ∷ 0 ∷ address_type ∷ encoded ++ high ∷ low ∷ [])
              ++ s'.input)
        × (s'.output ≡ s.output)
  read_connect_request-ok s h =
      let (address_type, encoded, high, low, encodes, port, positive, e) =
        (read_connect_request-Ensures s).ensured h in
      (
        address_type,
        encoded,
        high,
        low,
        encodes,
        port,
        positive,
        e.taken,
        e.sent_on ∙ append-nil s.output,
      )
