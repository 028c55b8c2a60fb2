-- ===== src/Socks5/Handshake/Sound.antt =====
-- src/core/socks5.rs, `authenticate`: the bytes of a client that is let in.
use mathlib.Core.List.{append-nil}
use xssh_rust_lib.Base.{
  ℕ, Text, true, false, ◌&&◌, List, [], ◌∷◌, ◌++◌, ok, length, contains, ◌==◌, ◌!=◌, nat_eq,
  list_eq, list_beq_iff, if◌then◌else◌, ◌≡◌, refl, sym, ◌∙◌, ap, arith,
}
use xssh_rust_lib.Base.Async.{ready}
use xssh_rust_lib.Base.Async.Laws.{
  Ensures, guard-Ensures, accept-Ensures, branch-Ensures, Ensures-mono,
}
use xssh_rust_lib.Base.Str.Utf8.{as_bytes}
use xssh_rust_lib.Operation.{OperationContext}
use xssh_rust_lib.Socks5.Options.{Socks5Authentication, no_auth, username_password}
use xssh_rust_lib.Socks5.Stream.{Network, Socket}
use xssh_rust_lib.Socks5.Handshake.{
  byte_at, reject_methods, check_credentials, select_method, authenticate, socks5_no_auth,
  socks5_user_password, socks5_user_password_version, socks5_version,
}
use xssh_rust_lib.Socks5.Handshake.Exchange.{
  Exchanged, one_byte, two_bytes, after_both, as-Exchanged, writing, then_read, then_write,
}

-- The credentials as a client sends them.
unfoldable pub credentials : Text → Text → List ℕ
credentials username password =
    let user = as_bytes username in
    let secret = as_bytes password in
    socks5_user_password_version ∷ length user ∷ user ++ (length secret ∷ secret)

-- The four reads of the sub-negotiation, put together.
credentials_read :
    (username password : Text) (header user count secret : List ℕ)
    → length header ≡ 2
    → length user ≡ byte_at header 1
    → length count ≡ 1
    → length secret ≡ byte_at count 0
    → (byte_at header 0 != socks5_user_password_version) ≡ false
    → (user == as_bytes username && secret == as_bytes password) ≡ true
    → header ++ (user ++ (count ++ (secret ++ []))) ≡ credentials username password
unfolding credentials
credentials_read username password header user count secret h2 hu h1 hs version accepted =
    let same_user : user ≡ as_bytes username =
      ground (arith, list_beq_iff user (as_bytes username)) in
    let same_secret : secret ≡ as_bytes password =
      ground (arith, list_beq_iff secret (as_bytes password)) in
    let right_version : byte_at header 0 ≡ socks5_user_password_version = ground arith in
    let header_is : header ≡ socks5_user_password_version ∷ length (as_bytes username) ∷ [] =
      two_bytes header h2
      ∙ ap (λ v. v ∷ byte_at header 1 ∷ []) right_version
      ∙ ap (λ n. socks5_user_password_version ∷ n ∷ []) (sym hu ∙ ap length same_user) in
    let count_is : count ≡ length (as_bytes password) ∷ [] =
      one_byte count h1 ∙ ap (λ n. n ∷ []) (sym hs ∙ ap length same_secret) in
    rw (header_is, count_is, same_user, same_secret, append-nil (as_bytes password)) refl

module _ (network : Network) (context : OperationContext) where
  -- The sub-negotiation succeeds only for the credentials that were configured.
  pub check_credentials-ok :
      (username password : Text) (s : Socket)
      → Ensures (check_credentials network context username password s) (λ _ s'.
        Exchanged s s' (credentials username password) (socks5_user_password_version ∷ 0 ∷ []))
  unfolding check_credentials credentials
  check_credentials-ok username password s =
      then_read network context 2 _ _ s λ header s1 header_size e1.
        guard-Ensures _ _ _ s1 λ version. then_read network context _ _ _ s1 λ user s2 user_size e2.
          then_read network context 1 _ _ s2 λ count s3 count_size e3.
            then_read network context _ _ _ s3 λ secret s4 secret_size e4.
              then_write network context _ _ _ s4 λ s5 e5. accept-Ensures _ _ _ s5 λ accepted.
                as-Exchanged (after_both e1 (after_both e2 (after_both e3 (after_both e4 e5))))
                  (credentials_read username password header user count secret header_size user_size
                    count_size secret_size version accepted)
                  (ap (λ b. socks5_user_password_version ∷ (if b then 0 else 1) ∷ []) accepted)

-- What a client sends to be let in, and what it is sent.
unfoldable pub greeting : List ℕ → List ℕ
greeting methods = socks5_version ∷ length methods ∷ methods

abbrev pub asked_method : Socks5Authentication → ℕ
asked_method no_auth = socks5_no_auth
asked_method (username_password _ _) = socks5_user_password

unfoldable pub proof_of : Socks5Authentication → List ℕ
proof_of no_auth = []
proof_of (username_password username password) = credentials username password

unfoldable pub answers : Socks5Authentication → List ℕ
answers no_auth = socks5_version ∷ socks5_no_auth ∷ []
answers (username_password _ _) =
    socks5_version ∷ socks5_user_password ∷ socks5_user_password_version ∷ 0 ∷ []

greeting_read :
    (header methods : List ℕ)
    → length header ≡ 2
    → length methods ≡ byte_at header 1
    → (byte_at header 0 != socks5_version) ≡ false
    → header ++ methods ≡ greeting methods
unfolding greeting
greeting_read header methods h2 hm version =
    let right_version : byte_at header 0 ≡ socks5_version = ground arith in
    let header_is : header ≡ socks5_version ∷ length methods ∷ [] =
      two_bytes header h2
      ∙ ap (λ v. v ∷ byte_at header 1 ∷ []) right_version
      ∙ ap (λ n. socks5_version ∷ n ∷ []) (sym hm) in
    rw header_is refl

module _ (network : Network) (context : OperationContext) where
  reject-Ensures :
      (why : Text) (s : Socket) {Q : Unit {0} → Socket → Type 0}
      → Ensures (reject_methods network context why s) Q
  unfolding reject_methods
  reject-Ensures why s = then_write network context _ _ _ s λ s' e. record { ensured = λ h. cc }

  select_method-Ensures :
      (authentication : Socks5Authentication) (methods : List ℕ) (s : Socket)
      → Ensures (select_method network context authentication methods s) (λ _ s'.
        (contains methods (asked_method authentication) ≡ true)
        × Exchanged s s' (proof_of authentication) (answers authentication))
  unfolding select_method proof_of answers
  select_method-Ensures no_auth methods s =
      branch-Ensures (contains methods socks5_no_auth) _ _ s
        (λ offered. Ensures-mono _ (writing network context _ _ s) λ _ s' e. (offered, e))
        (λ _. reject-Ensures _ s)
  select_method-Ensures (username_password username password) methods s =
      branch-Ensures (contains methods socks5_user_password) _ _ s
        (λ offered. then_write network context _ _ _ s λ s' e.
          Ensures-mono _ (check_credentials-ok network context username password s')
            λ _ s'' e'. (offered, after_both e e'))
        (λ _. reject-Ensures _ s)

  authenticate-Ensures :
      (authentication : Socks5Authentication) (s : Socket)
      → Ensures (authenticate network context authentication s) (λ _ s'.
        (methods : List ℕ) × (contains methods (asked_method authentication) ≡ true)
        × Exchanged s s' (greeting methods ++ proof_of authentication) (answers authentication))
  unfolding authenticate
  authenticate-Ensures authentication s =
      then_read network context 2 _ _ s λ header s1 header_size e1.
        guard-Ensures _ _ _ s1 λ version.
          then_read network context _ _ _ s1 λ methods s2 methods_size e2.
            Ensures-mono _ (select_method-Ensures authentication methods s2) λ _ s' (offered, e3). (
              methods,
              offered,
              as-Exchanged (after_both (after_both e1 e2) e3)
                  (ap (λ t. t ++ proof_of authentication)
                    (greeting_read header methods header_size methods_size version))
                  refl,
            )

  -- A client is let in only after the bytes of a greeting that offers the method the proxy asks for,
  -- followed by the configured credentials where the proxy asks for credentials; it has taken no
  -- byte beyond them, and has answered with the method, and with success where credentials were
  -- checked. This holds whatever the network does to the operations on the socket.
  pub authenticate-transcript :
      (authentication : Socks5Authentication) (s : Socket)
      → (authenticate network context authentication s).0 ≡ ready (ok tt)
      → let s' = (authenticate network context authentication s).1 in
        (methods : List ℕ) × (contains methods (asked_method authentication) ≡ true)
        × (s.input ≡ (greeting methods ++ proof_of authentication) ++ s'.input)
        × (s'.output ≡ s.output ++ answers authentication)
  authenticate-transcript authentication s h =
      let (methods, offered, e) = (authenticate-Ensures authentication s).ensured h in
      (methods, offered, e.taken, e.sent_on)
