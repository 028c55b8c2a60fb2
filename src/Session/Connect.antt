-- ===== src/Session/Connect.antt =====
-- src/core/session.rs, `classify_connect_error`: what is kept of an error.
use xssh_rust_lib.Base.{true, ◌≡◌, ◌⊎◌, inl, inr, refl, arith, if◌then◌else◌}
use xssh_rust_lib.Error.{SshError, reclassify}
use xssh_rust_lib.Error.Kind.{ErrorKind, is_retryable_kind}
use xssh_rust_lib.Session.{tells_of_handshake, reassign, classify_connect_error}

-- An error of connecting as it was, or as one of the connection or of the handshake, by its message.
abbrev pub Assigned : SshError → SshError → Type 0
Assigned error result =
    ((result ≡ error) × ((error.kind ≡ ErrorKind.host_key) ⊎ (error.kind ≡ ErrorKind.timeout)))
    ⊎ ((result.kind ≡ (
          if tells_of_handshake error.message then ErrorKind.handshake else ErrorKind.connection))
        × (result.retryable ≡ true)
        × (result.message ≡ error.message)
        × (result.context ≡ error.context))

moved :
    (error : SshError)
    → ((if tells_of_handshake error.message
          then reclassify ErrorKind.handshake error
          else reclassify ErrorKind.connection error).kind
        ≡ (if tells_of_handshake error.message then ErrorKind.handshake else ErrorKind.connection))
      × ((if tells_of_handshake error.message
            then reclassify ErrorKind.handshake error
            else reclassify ErrorKind.connection error).retryable
          ≡ true)
      × ((if tells_of_handshake error.message
            then reclassify ErrorKind.handshake error
            else reclassify ErrorKind.connection error).message
          ≡ error.message)
      × ((if tells_of_handshake error.message
            then reclassify ErrorKind.handshake error
            else reclassify ErrorKind.connection error).context
          ≡ error.context)
unfolding reclassify is_retryable_kind
moved error = ground arith

reassign-Assigned :
    (kind : ErrorKind) (error : SshError) → error.kind ≡ kind → Assigned error (reassign kind error)
unfolding reassign
reassign-Assigned ErrorKind.host_key error h = inl (refl, inl h)
reassign-Assigned ErrorKind.timeout error h = inl (refl, inr h)
reassign-Assigned ErrorKind.configuration error h = inr (moved error)
reassign-Assigned ErrorKind.connection error h = inr (moved error)
reassign-Assigned ErrorKind.handshake error h = inr (moved error)
reassign-Assigned ErrorKind.authentication error h = inr (moved error)
reassign-Assigned ErrorKind.channel error h = inr (moved error)
reassign-Assigned ErrorKind.protocol error h = inr (moved error)
reassign-Assigned ErrorKind.cancelled error h = inr (moved error)
reassign-Assigned ErrorKind.internal error h = inr (moved error)

-- An error of a host key or a timeout stays as it is. Any other becomes a retryable error of the
-- handshake, where its message tells of that, and of the connection otherwise, and keeps its message
-- and its context.
pub classify_connect_error-Assigned :
    (error : SshError) → Assigned error (classify_connect_error error)
unfolding classify_connect_error
classify_connect_error-Assigned error = reassign-Assigned error.kind error refl
