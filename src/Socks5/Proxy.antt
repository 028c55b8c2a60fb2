-- ===== src/Socks5/Proxy.antt =====
-- src/core/socks5.rs: how a proxy is built around a listener of `tokio::net`.
use xssh_rust_lib.Base.{Text, codes, Result, ok}
use xssh_rust_lib.Base.Fallible
use xssh_rust_lib.Base.Fallible.{map_err}
use xssh_rust_lib.Base.Async.{Async, pure, lift, fail_with, ◌>>=◌, ◌>>◌}
use xssh_rust_lib.Error.{SshError}
use xssh_rust_lib.Relay.Listener.{Net, connection_error}
use xssh_rust_lib.Socks5.Options.{Socks5ProxyOptions, default_options, validate}

-- `Socks5Proxy` beside its session
pub record Socks5Proxy (Listener : Type 0) : Type 0 where
  pub listener : Listener
  pub options : Socks5ProxyOptions

module _ {World : Type 0} (net : Net World) where
  open net use {TcpListener, Address}

  abbrev pub from_listener : TcpListener → Socks5Proxy TcpListener
  from_listener listener = record { listener = listener; options = default_options }

  unfoldable pub bind_with_options :
      Text → Socks5ProxyOptions → Async World SshError (Socks5Proxy TcpListener)
  unfolding validate
  bind_with_options address options = do
    lift (validate options)
    listener ←
        fail_with (connection_error (codes "failed to bind SOCKS5 listener"))
          (net.bind_tcp_listener address)
    pure (record { listener = listener; options = options })

  unfoldable pub bind : Text → Async World SshError (Socks5Proxy TcpListener)
  unfolding bind_with_options
  bind address = bind_with_options address default_options

  unfoldable pub from_listener_with_options :
      TcpListener → Socks5ProxyOptions → Result SshError (Socks5Proxy TcpListener)
  unfolding validate
  from_listener_with_options listener options =
      Fallible.◌>>◌ (validate options) (ok (record { listener = listener; options = options }))

  unfoldable pub local_addr : Socks5Proxy TcpListener → Result SshError Address
  local_addr proxy =
      map_err (connection_error (codes "failed to inspect SOCKS5 listener address"))
        (net.tcp_local_addr proxy.listener)
