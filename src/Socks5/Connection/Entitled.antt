-- ===== src/Socks5/Connection/Entitled.antt =====
-- src/core/socks5.rs, `handle_connection`: for which clients the SSH session is used.
use xssh_rust_lib.Base.{
  ℕ, ◌+◌, ◌*◌, ◌<◌, Text, true, false, List, [], ◌∷◌, ◌++◌, not, ◌==◌, contains, ◌≡◌, ◌⊎◌, inl, inr,
  refl, ◌∙◌, subst, nat_eq, arith,
}
use xssh_rust_lib.Base.Async.Laws.{Ensures}
use xssh_rust_lib.Base.Async.Parts.{on_first, attempt}
use xssh_rust_lib.Base.Async.Parts.Laws.{
  Leaves, >>=-Leaves, branch-Leaves, attempt-Leaves, attempt-Ensures, ignore-raise, ignore-Leaves,
}
use xssh_rust_lib.Operation.{OperationContext}
use xssh_rust_lib.Operation.Within.Timed.{timed-Leaves}
use xssh_rust_lib.Operation.Within.{Environment}
use xssh_rust_lib.Session.Transport.{Transport}
use xssh_rust_lib.Session.Raw.{SshSession}
use xssh_rust_lib.Channel.Stream.{SshChannelStream}
use xssh_rust_lib.Channel.Relaying.{Relaying}
use xssh_rust_lib.Socks5.Options.{Socks5Authentication, Socks5ProxyOptions}
use xssh_rust_lib.Socks5.Stream.{Network, Socket}
use xssh_rust_lib.Socks5.Handshake.{
  ConnectRequest, authenticate, read_connect_request, socks5_connect, socks5_version,
}
use xssh_rust_lib.Socks5.Handshake.Sound.{greeting, proof_of, asked_method, authenticate-transcript}
use xssh_rust_lib.Socks5.Handshake.Request.{Encodes, read_connect_request-ok}
use xssh_rust_lib.Socks5.Connection.{handle_connection, serve, reply, refuse}

-- The bytes of a greeting that offers the method of the proxy.
abbrev pub Greeted : Socks5Authentication → List ℕ → List ℕ → Type 0
Greeted authentication input rest =
    (methods : List ℕ) × (contains methods (asked_method authentication) ≡ true)
    × (input ≡ (greeting methods ++ proof_of authentication) ++ rest)

-- The bytes of a request with a command.
abbrev pub Requested : ℕ → List ℕ → List ℕ → Type 0
Requested command input rest =
    (host : Text) × (address_type : ℕ) × (encoded : List ℕ) × (high low : ℕ) × Encodes address_type
      encoded host
    × (0 < high * 256 + low)
    × (input ≡ (socks5_version ∷ command ∷ 0 ∷ address_type ∷ encoded ++ high ∷ low ∷ []) ++ rest)

-- The client has sent a greeting and, right behind it, a request to connect.
abbrev pub Entitled : Socks5Authentication → List ℕ → Type 0
Entitled authentication input =
    (middle rest : List ℕ) × Greeted authentication input middle
    × Requested socks5_connect middle rest

connects :
    (command : ℕ) (input rest : List ℕ)
    → not (command == socks5_connect) ≡ false
    → Requested command input rest
    → Requested socks5_connect input rest
connects command input rest h requested =
    let same : command ≡ socks5_connect = ground arith in
    subst (λ c. Requested c input rest) same requested

module _ {World : Type 0} (network : Network) (environment : Environment (Socket × World))
    (transport : Transport World)
    (relaying : Relaying (Socket × World) (SshChannelStream transport.Stream))
    (session : SshSession) (options : Socks5ProxyOptions) (context : OperationContext)
    (socket : Socket) (world : World) where
  abbrev Safe : Socket × World → Type 0
  Safe s = (s.1 ≡ world) ⊎ Entitled options.authentication socket.input

  serve-Leaves :
      (limited : OperationContext) (request : ConnectRequest) (s : Socket × World)
      (middle rest : List ℕ)
      → Safe s
      → Greeted options.authentication socket.input middle
      → Requested request.command middle rest
      → Leaves
          (serve network environment transport relaying session options context limited request s)
          Safe
  unfolding serve
  serve-Leaves limited request s middle rest safe greeted requested =
      branch-Leaves (not (request.command == socks5_connect)) _ _ s
        (λ other. record { left = safe })
        (λ connect. record {
          left =
              inr (middle, rest, greeted, connects request.command middle rest connect requested);
        })

  read-Ensures :
      (limited : OperationContext) (s : Socket × World)
      → Ensures
          (attempt
            (on_first (read_connect_request network limited))
            (λ failure. refuse network limited failure.code failure.error)
            s)
          (λ request s'. Requested request.command s.0.input s'.0.input × (s'.1 ≡ s.1))
  read-Ensures limited s =
      attempt-Ensures (on_first (read_connect_request network limited)) _ s
        {P = λ request s'. Requested request.command s.0.input s'.0.input × (s'.1 ≡ s.1)}
        (λ failure s' request h.
          ignore-raise (reply network limited failure.code) failure.error s' request h)
        (record {
          ensured = λ {a = request} h.
              let (address_type, encoded, high, low, encodes, port, positive, taken, _) =
                read_connect_request-ok network limited s.0 h in
              (
                (
                  request.host,
                  address_type,
                  encoded,
                  high,
                  low,
                  encodes,
                  subst (λ n. 0 < n) port positive,
                  taken,
                ),
                refl,
              );
        })

  authenticated-Ensures :
      (limited : OperationContext) (s : Socket × World)
      → Ensures
          (on_first (authenticate network limited options.authentication) s)
          (λ _ s'. Greeted options.authentication s.0.input s'.0.input)
  authenticated-Ensures limited s = record {
    ensured = λ h.
        let (methods, offered, taken, _) =
          authenticate-transcript network limited options.authentication s.0 h in
        (methods, offered, taken);
  }

  connection-Leaves :
      Leaves
        (handle_connection network environment transport relaying session options context
          (socket, world))
        Safe
  unfolding handle_connection
  connection-Leaves =
      timed-Leaves environment options.handshake_timeout context _ (socket, world) (inl refl)
        λ limited.
          >>=-Leaves (on_first (authenticate network limited options.authentication)) _
            (socket, world)
            {P = λ _ s. Greeted options.authentication socket.input s.0.input × (s.1 ≡ world)}
            (record { left = inl refl })
            (record {
              ensured = λ h. ((authenticated-Ensures limited (socket, world)).ensured h, refl);
            })
            (λ _ s (greeted, same).
              >>=-Leaves
                (attempt (on_first (read_connect_request network limited))
                  (λ failure. refuse network limited failure.code failure.error))
                _ s
                (attempt-Leaves (on_first (read_connect_request network limited)) _ s
                  (record { left = inl same })
                  (λ failure s' safe.
                    ignore-Leaves (reply network limited failure.code) failure.error s'
                      (record { left = safe })))
                (read-Ensures limited s)
                (λ request s' (requested, kept).
                  serve-Leaves limited request s' s.0.input s'.0.input (inl (kept ∙ same)) greeted
                    requested))

  -- Whatever becomes of a client's connection, the world behind the session is as before, or the client
  -- has sent a greeting that offers the method of the proxy, with the configured credentials where the
  -- proxy asks for them, and right behind it a request to connect to a host and a port that is not zero.
  pub handle_connection-Entitled :
      ((handle_connection network environment transport relaying session options context
          (socket, world)).1.1
        ≡ world)
      ⊎ Entitled options.authentication socket.input
  handle_connection-Entitled = connection-Leaves.left
