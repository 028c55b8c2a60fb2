-- ===== src/Socks5/Handshake.antt =====
-- src/core/socks5.rs: `authenticate`, `read_connect_request` and `write_reply`.
pub mod Exchange
pub mod Sound
pub mod Request
use xssh_rust_lib.Base.{
  ℕ, zero, suc, ◌+◌, ◌*◌, Text, codes, Bool, true, false, ◌&&◌, ◌||◌, not, List, [], ◌∷◌, ◌++◌,
  Option, none, some, Result, ok, err, contains, ◌==◌, ◌!=◌, nat_eq, list_eq, if◌then◌else◌,
}
use xssh_rust_lib.Base.Async.{Async, pure, raise, fail_with, ◌>>=◌, ◌>>◌}
use xssh_rust_lib.Base.Str.Utf8.{as_bytes, from_utf8}
use xssh_rust_lib.Error
use xssh_rust_lib.Error.{SshError}
use xssh_rust_lib.Operation.{OperationContext}
use xssh_rust_lib.Socks5.Options.{Socks5Authentication, no_auth, username_password}
use xssh_rust_lib.Socks5.Stream.{Network, Socket, read_exact, write_all}
use xssh_rust_lib.Socks5.Address.{show_ipv4, show_ipv6}

abbrev pub socks5_version : ℕ
socks5_version = 5

abbrev pub socks5_no_auth : ℕ
socks5_no_auth = 0

abbrev pub socks5_user_password : ℕ
socks5_user_password = 2

abbrev pub socks5_no_acceptable_method : ℕ
socks5_no_acceptable_method = 0xff

abbrev pub socks5_user_password_version : ℕ
socks5_user_password_version = 1

abbrev pub socks5_connect : ℕ
socks5_connect = 1

abbrev pub socks5_atyp_ipv4 : ℕ
socks5_atyp_ipv4 = 1

abbrev pub socks5_atyp_domain : ℕ
socks5_atyp_domain = 3

abbrev pub socks5_atyp_ipv6 : ℕ
socks5_atyp_ipv6 = 4

pub data ReplyCode : Type 0 where
  succeeded general_failure command_not_supported address_type_not_supported : ReplyCode

-- `reply as u8`
abbrev pub reply_byte : ReplyCode → ℕ
reply_byte succeeded = 0
reply_byte general_failure = 1
reply_byte command_not_supported = 7
reply_byte address_type_not_supported = 8

pub record ConnectRequest : Type 0 where
  pub host : Text
  pub port : ℕ
  pub command : ℕ

pub record RequestError : Type 0 where
  pub code : ReplyCode
  pub error : SshError

-- `From<SshError>`
abbrev pub general : SshError → RequestError
general error = record { code = general_failure; error = error }

-- The byte at an index that a read of that many bytes has filled.
abbrev pub byte_at : List ℕ → ℕ → ℕ
byte_at [] i = 0
byte_at (b ∷ bytes) zero = b
byte_at (b ∷ bytes) (suc i) = byte_at bytes i

module _ (network : Network) (context : OperationContext) where
  abbrev pub read : ℕ → Text → Async Socket SshError (List ℕ)
  read count operation = read_exact network count context operation

  abbrev pub write : List ℕ → Text → Async Socket SshError (Unit {0})
  write bytes operation = write_all network bytes context operation

  -- The sub-negotiation of RFC 1929.
  unfoldable pub check_credentials : Text → Text → Async Socket SshError (Unit {0})
  check_credentials username password = do
    auth_header ← read 2 (codes "read SOCKS5 credentials")
    if byte_at auth_header 0 != socks5_user_password_version
        then raise (Error.protocol (codes "SOCKS5 client sent an unsupported credential version"))
        else do
          received_username ← read (byte_at auth_header 1) (codes "read SOCKS5 username")
          password_length ← read 1 (codes "read SOCKS5 password length")
          received_password ← read (byte_at password_length 0) (codes "read SOCKS5 password")
          let accepted =
              received_username == as_bytes username && received_password == as_bytes password
          write (socks5_user_password_version ∷ (if accepted then 0 else 1) ∷ [])
              (codes "reply to SOCKS5 credentials")
          if accepted
              then pure tt
              else raise (Error.authentication (codes "invalid SOCKS5 credentials"))

  unfoldable pub reject_methods : Text → Async Socket SshError (Unit {0})
  reject_methods why = do
    write (socks5_version ∷ socks5_no_acceptable_method ∷ []) (codes "reject SOCKS5 authentication")
    raise (Error.authentication why)

  -- The choice of a method among those that the client offers.
  unfoldable pub select_method : Socks5Authentication → List ℕ → Async Socket SshError (Unit {0})
  unfolding reject_methods
  select_method no_auth methods =
      if contains methods socks5_no_auth
      then write (socks5_version ∷ socks5_no_auth ∷ []) (codes "select SOCKS5 no-auth")
      else reject_methods (codes "SOCKS5 client does not offer the no-auth method")
  select_method (username_password username password) methods =
      if contains methods socks5_user_password
      then (do
        write (socks5_version ∷ socks5_user_password ∷ []) (codes "select SOCKS5 username/password")
        check_credentials username password)
      else reject_methods (codes "SOCKS5 client does not offer username/password authentication")

  unfoldable pub authenticate : Socks5Authentication → Async Socket SshError (Unit {0})
  authenticate authentication = do
    header ← read 2 (codes "read SOCKS5 methods")
    if byte_at header 0 != socks5_version
        then raise (Error.protocol (codes "SOCKS5 client sent an unsupported version"))
        else do
          methods ← read (byte_at header 1) (codes "read SOCKS5 methods")
          select_method authentication methods

  abbrev pub read_request : ℕ → Text → Async Socket RequestError (List ℕ)
  read_request count operation = fail_with general (read count operation)

  unfoldable pub domain_text : Option Text → Async Socket RequestError Text
  domain_text none =
      raise (general (Error.protocol (codes "SOCKS5 domain target is not valid UTF-8")))
  domain_text (some host) = pure host

  unfoldable pub read_domain : Async Socket RequestError Text
  unfolding domain_text
  read_domain = do
    length ← read_request 1 (codes "read SOCKS5 domain length")
    if byte_at length 0 == 0
        then raise (general (Error.protocol (codes "SOCKS5 domain target must not be empty")))
        else do
          bytes ← read_request (byte_at length 0) (codes "read SOCKS5 domain target")
          domain_text (from_utf8 bytes)

  -- The `match` on the address type.
  unfoldable pub read_host : ℕ → Async Socket RequestError Text
  unfolding read_domain
  read_host address_type =
      if address_type == socks5_atyp_ipv4
      then (do bytes ← read_request 4 (codes "read SOCKS5 IPv4 target"); pure (show_ipv4 bytes))
      else if address_type == socks5_atyp_domain
      then read_domain
      else if address_type == socks5_atyp_ipv6
      then (do bytes ← read_request 16 (codes "read SOCKS5 IPv6 target"); pure (show_ipv6 bytes))
      else raise (record {
        code = address_type_not_supported;
        error = Error.protocol (codes "SOCKS5 target address type is not supported");
      })

  unfoldable pub read_connect_request : Async Socket RequestError ConnectRequest
  unfolding read_host
  read_connect_request = do
    header ← read_request 4 (codes "read SOCKS5 connect request")
    if byte_at header 0 != socks5_version || byte_at header 2 != 0
        then raise (general (Error.protocol (codes "invalid SOCKS5 connect request header")))
        else do
          host ← read_host (byte_at header 3)
          bytes ← read_request 2 (codes "read SOCKS5 target port")
          let port = byte_at bytes 0 * 256 + byte_at bytes 1
          if port == 0
              then raise
                  (general (Error.protocol (codes "SOCKS5 target port must be greater than zero")))
              else pure (record { host = host; port = port; command = byte_at header 1 })

  abbrev pub reply_bytes : ReplyCode → List ℕ
  reply_bytes reply =
      socks5_version ∷ reply_byte reply ∷ 0 ∷ socks5_atyp_ipv4 ∷ 0 ∷ 0 ∷ 0 ∷ 0 ∷ 0 ∷ 0 ∷ []

  unfoldable pub write_reply : ReplyCode → Async Socket SshError (Unit {0})
  write_reply reply = write (reply_bytes reply) (codes "write SOCKS5 reply")
