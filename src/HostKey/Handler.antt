-- ===== src/HostKey/Handler.antt =====
-- src/core/session.rs, `check_server_key` of `ClientHandler`, and the trait `HostKeyVerifier` of
-- src/core/host_key.rs that it asks.
pub mod Laws
use xssh_rust_lib.Base.{
  ℕ, Text, codes, Bool, true, false, List, ◌++◌, map, is_empty, Result, ok, err, if◌then◌else◌,
}
use xssh_rust_lib.Base.Str.{join}
use xssh_rust_lib.Base.Str.Decimal.{to_decimal}
use xssh_rust_lib.Error
use xssh_rust_lib.Error.{SshError, with_host_key_observation}
use xssh_rust_lib.HostKey.Types.{
  new_observation, HostKeyDecision, HostKeyObservation, trusted, unknown, changed, revoked,
}
use xssh_rust_lib.HostKey.Keys.{SshKeys}
use xssh_rust_lib.HostKey.Patterns.{HashedNames}
use xssh_rust_lib.HostKey.Verifier
use xssh_rust_lib.HostKey.Verifier.{KnownHostKeyVerifier}
use xssh_rust_lib.HostKey.Tofu
use xssh_rust_lib.HostKey.Tofu.{TofuHostKeyVerifier, Call, returned, panicked}

-- The trait: `Store` is what an implementation keeps behind its `&self`. Either call may change it or
-- panic.
pub record HostKeyVerifier (K : Type 0) : Type 1 where
  pub Store : Type 0
  pub verify : Text → ℕ → K → Store → Call (Result SshError HostKeyDecision) × Store
  pub check : Text → ℕ → K → Store → Call (Result SshError HostKeyObservation) × Store

module _ (keys : SshKeys) where
  -- What an observation is made of where there is nothing but a decision.
  unfoldable pub observe :
      Text
      → ℕ
      → keys.PublicKey
      → Call (Result SshError HostKeyDecision)
      → Call (Result SshError HostKeyObservation)
  observe host port key panicked = panicked
  observe host port key (returned (err e)) = returned (err e)
  observe host port key (returned (ok decision)) =
      returned (ok (new_observation host port (keys.fingerprint_sha256 key) decision))

  -- The default of `check`, which calls `verify` again.
  unfoldable pub default_check :
      {Store : Type 0}
      → (Text → ℕ → keys.PublicKey → Store → Call (Result SshError HostKeyDecision) × Store)
      → Text
      → ℕ
      → keys.PublicKey
      → Store
      → Call (Result SshError HostKeyObservation) × Store
  unfolding observe
  default_check verify host port key store =
      let (decision, store') = verify host port key store in
      (observe host port key decision, store')

module _ (keys : SshKeys) (crypto : HashedNames) where
  -- `impl HostKeyVerifier for KnownHostKeyVerifier`
  abbrev pub known_hosts_verifier : HostKeyVerifier keys.PublicKey
  known_hosts_verifier = record {
    Store = KnownHostKeyVerifier;
    verify = λ host port key verifier.
        (returned (ok (Verifier.verify keys crypto verifier host port key)), verifier);
    check = λ host port key verifier.
        (returned (ok (Verifier.check keys crypto verifier host port key)), verifier);
  }

  -- `impl HostKeyVerifier for TofuHostKeyVerifier`
  abbrev pub tofu_verifier : HostKeyVerifier keys.PublicKey
  tofu_verifier = record {
    Store = TofuHostKeyVerifier;
    verify = Tofu.verify keys crypto;
    check = λ host port key tofu. (returned (Tofu.check keys crypto tofu host port key), tofu);
  }

address : Text → ℕ → Text
address host port = host ++ (codes ":" ++ to_decimal port)

-- `{:?}` of the lines
debug_lines : List ℕ → Text
debug_lines lines = codes "[" ++ (join (codes ", ") (map to_decimal lines) ++ codes "]")

expected_text : List Text → Text
expected_text fingerprints =
    if is_empty fingerprints then codes "<none>" else join (codes ", ") fingerprints

-- What the handler answers for a decision.
unfoldable pub answer : Text → ℕ → HostKeyDecision → HostKeyObservation → Result SshError Bool
unfolding address debug_lines expected_text
answer host port trusted seen = ok true
answer host port unknown seen = err (
    with_host_key_observation seen (
      Error.host_key (
        codes "unknown host key for "
        ++ (address host port
            ++ (codes " (presented fingerprint: " ++ (seen.presented_fingerprint ++ codes ")"))))))
answer host port changed seen = err (
    with_host_key_observation seen (
      Error.host_key (
        codes "host key changed for "
        ++ (address host port
            ++ (codes " (expected: "
                ++ (expected_text seen.expected_fingerprints
                    ++ (codes "; presented: "
                        ++ (seen.presented_fingerprint
                            ++ (codes "; lines: "
                                ++ (debug_lines seen.matched_lines ++ codes ")"))))))))))
answer host port revoked seen = err (
    with_host_key_observation seen (
      Error.host_key (
        codes "revoked host key for "
        ++ (address host port
            ++ (codes " (fingerprint: "
                ++ (seen.presented_fingerprint
                    ++ (codes "; lines: " ++ (debug_lines seen.matched_lines ++ codes ")"))))))))

module _ {K : Type 0} (verifier : HostKeyVerifier K) where
  -- A decision that is not `trusted` is explained by a second look.
  unfoldable pub explain :
      Text
      → ℕ
      → HostKeyDecision
      → Call (Result SshError HostKeyObservation)
      → Call (Result SshError Bool)
  explain host port decision panicked = panicked
  explain host port decision (returned (err e)) = returned (err e)
  explain host port decision (returned (ok seen)) =
      returned (answer host port decision (record seen { decision = decision }))

  unfoldable pub decide :
      Text
      → ℕ
      → K
      → Call (Result SshError HostKeyDecision)
      → verifier.Store
      → Call (Result SshError Bool) × verifier.Store
  unfolding explain
  decide host port key panicked store = (panicked, store)
  decide host port key (returned (err e)) store = (returned (err e), store)
  decide host port key (returned (ok trusted)) store = (returned (ok true), store)
  decide host port key (returned (ok decision)) store =
      let (seen, store') = verifier.check host port key store in
      (explain host port decision seen, store')

  unfoldable pub check_server_key :
      Text → ℕ → K → verifier.Store → Call (Result SshError Bool) × verifier.Store
  unfolding decide
  check_server_key host port key store =
      let (decision, store') = verifier.verify host port key store in
      decide host port key decision store'
