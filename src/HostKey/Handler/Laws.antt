-- ===== src/HostKey/Handler/Laws.antt =====
-- src/core/session.rs, `check_server_key`: when a server is accepted, and how it is refused.
use xssh_rust_lib.Base.{
  ℕ, Text, Bool, true, some, Result, ok, err, ◌≡◌, ◌≢◌, refl, sym, ◌∙◌, ap, arith,
}
use xssh_rust_lib.Error.{SshError, with_host_key_observation, host_key, new}
use xssh_rust_lib.Error.Kind.{ErrorKind}
use xssh_rust_lib.HostKey.Types.{
  HostKeyDecision, HostKeyObservation, trusted, unknown, changed, revoked,
}
use xssh_rust_lib.HostKey.Keys.{SshKeys}
use xssh_rust_lib.HostKey.Patterns.{HashedNames}
use xssh_rust_lib.HostKey.Verifier
use xssh_rust_lib.HostKey.Verifier.{KnownHostKeyVerifier}
use xssh_rust_lib.HostKey.Verifier.Verdict.{verdict, decision-check}
use xssh_rust_lib.HostKey.Tofu.{Call, returned, panicked}
use xssh_rust_lib.HostKey.Handler.{
  HostKeyVerifier, known_hosts_verifier, answer, explain, decide, check_server_key,
}

module _ {K : Type 0} (verifier : HostKeyVerifier K) where
  explain-never :
      (host : Text) (port : ℕ) (decision : HostKeyDecision)
      (seen : Call (Result SshError HostKeyObservation)) {b : Bool}
      → decision ≢ trusted
      → explain verifier host port decision seen ≢ returned (ok b)
  unfolding explain answer
  explain-never host port trusted seen other h = other refl
  explain-never host port unknown panicked other h = cc
  explain-never host port changed panicked other h = cc
  explain-never host port revoked panicked other h = cc
  explain-never host port unknown (returned (err e)) other h = cc
  explain-never host port changed (returned (err e)) other h = cc
  explain-never host port revoked (returned (err e)) other h = cc
  explain-never host port unknown (returned (ok seen)) other h = cc
  explain-never host port changed (returned (ok seen)) other h = cc
  explain-never host port revoked (returned (ok seen)) other h = cc

  decide-ok :
      (host : Text) (port : ℕ) (key : K) (decision : Call (Result SshError HostKeyDecision))
      (store : verifier.Store) {b : Bool}
      → (decide verifier host port key decision store).0 ≡ returned (ok b)
      → (decision ≡ returned (ok trusted)) × (b ≡ true)
  unfolding decide
  decide-ok host port key panicked store h = absurd cc
  decide-ok host port key (returned (err e)) store h = absurd cc
  decide-ok host port key (returned (ok trusted)) store h = (refl, ground arith)
  decide-ok host port key (returned (ok unknown)) store h =
      absurd (explain-never host port unknown _ (λ e. cc) h)
  decide-ok host port key (returned (ok changed)) store h =
      absurd (explain-never host port changed _ (λ e. cc) h)
  decide-ok host port key (returned (ok revoked)) store h =
      absurd (explain-never host port revoked _ (λ e. cc) h)

  pub decide-other :
      (host : Text) (port : ℕ) (key : K) (decision : HostKeyDecision) (store : verifier.Store)
      → decision ≢ trusted
      → decide verifier host port key (returned (ok decision)) store ≡ (
        explain verifier host port decision (verifier.check host port key store).0,
        (verifier.check host port key store).1,
      )
  unfolding decide
  decide-other host port key trusted store other = absurd (other refl)
  decide-other host port key unknown store other = refl
  decide-other host port key changed store other = refl
  decide-other host port key revoked store other = refl

  -- Whatever the verifier, the handler lets a connection go on only when `verify` has answered that
  -- the key is trusted; it never answers that the key is refused without an error.
  pub check_server_key-ok :
      (host : Text) (port : ℕ) (key : K) (store : verifier.Store) {b : Bool}
      → (check_server_key verifier host port key store).0 ≡ returned (ok b)
      → ((verifier.verify host port key store).0 ≡ returned (ok trusted)) × (b ≡ true)
  unfolding check_server_key
  check_server_key-ok host port key store h =
      decide-ok host port key (verifier.verify host port key store).0
        (verifier.verify host port key store).1 h

module _ (keys : SshKeys) (crypto : HashedNames) where
  answer-refusal :
      (host : Text) (port : ℕ) (decision : HostKeyDecision) (seen : HostKeyObservation)
      → decision ≢ trusted
      → (e : SshError) × (answer host port decision seen ≡ err e)
        × (e.kind ≡ ErrorKind.host_key)
        × (e.context.host_key_observation ≡ some seen)
  unfolding answer with_host_key_observation host_key new
  answer-refusal host port trusted seen other = absurd (other refl)
  answer-refusal host port unknown seen other = (_, refl, refl, refl)
  answer-refusal host port changed seen other = (_, refl, refl, refl)
  answer-refusal host port revoked seen other = (_, refl, refl, refl)

  -- With known hosts, a key on which the verdict of the entries is not `trusted` ends the connection
  -- with an error of the kind `host_key`, which carries what `check` observed of that key.
  pub check_server_key-refusal :
      (host : Text) (port : ℕ) (key : keys.PublicKey) (verifier : KnownHostKeyVerifier)
      → verdict crypto host port (keys.fingerprint_sha256 key) verifier.known_hosts.entries
        ≢ trusted
      → (e : SshError) × (check_server_key (known_hosts_verifier keys crypto) host port key verifier
          ≡ (returned (err e), verifier))
        × (e.kind ≡ ErrorKind.host_key)
        × (e.context.host_key_observation
            ≡ some (Verifier.check keys crypto verifier host port key))
  unfolding check_server_key explain Verifier.verify
  check_server_key-refusal host port key verifier other =
      let seen = Verifier.check keys crypto verifier host port key in
      let refused : seen.decision ≢ trusted =
        λ t. other (sym (decision-check keys crypto verifier host port key) ∙ t) in
      let (e, same, kind, carried) = answer-refusal host port seen.decision seen refused in
      let refusal =
        decide-other (known_hosts_verifier keys crypto) host port key seen.decision verifier
          refused in
      (e, refusal ∙ ap (λ r. (returned r, verifier)) same, kind, carried)
