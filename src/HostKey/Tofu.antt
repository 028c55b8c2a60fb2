-- ===== src/HostKey/Tofu.antt =====
-- src/core/host_key.rs: `TofuHostKeyVerifier`, which trusts and records the first key of a host.
-- The lock is poisoned by a panic of a writer, after which every call fails.
pub mod Laws
use xssh_rust_lib.Base.{
  ℕ, Text, codes, Bool, true, false, Option, none, some, Result, ok, err, ◌==◌, if◌then◌else◌,
}
use xssh_rust_lib.Error
use xssh_rust_lib.Error.{SshError}
use xssh_rust_lib.HostKey.Types.{HostKeyDecision, HostKeyObservation, trusted, unknown, decision_eq}
use xssh_rust_lib.HostKey.Keys.{SshKeys}
use xssh_rust_lib.HostKey.Patterns.{HashedNames}
use xssh_rust_lib.HostKey.Verifier
use xssh_rust_lib.HostKey.Verifier.{KnownHostKeyVerifier}

pub record TofuHostKeyVerifier : Type 0 where
  pub verifier : KnownHostKeyVerifier
  pub poisoned : Bool

-- What a call comes to, panics included.
pub data Call {ℓ} (A : Type ℓ) : Type ℓ where
  returned : A → Call A
  panicked : Call A

-- `TofuHostKeyVerifier::new`
abbrev pub new : KnownHostKeyVerifier → TofuHostKeyVerifier
new verifier = record { verifier = verifier; poisoned = false }

abbrev pub lock_poisoned : SshError
lock_poisoned = Error.configuration (codes "TOFU verifier lock poisoned")

unfoldable pub snapshot : TofuHostKeyVerifier → Result SshError KnownHostKeyVerifier
snapshot tofu = if tofu.poisoned then err lock_poisoned else ok tofu.verifier

-- The write of `accept_key`, whose panic poisons the lock.
abbrev accepted :
    Option KnownHostKeyVerifier
    → TofuHostKeyVerifier
    → Call (Result SshError HostKeyDecision) × TofuHostKeyVerifier
accepted none tofu = (panicked, record tofu { poisoned = true })
accepted (some verifier) tofu = (returned (ok trusted), record tofu { verifier = verifier })

module _ (keys : SshKeys) (crypto : HashedNames) where
  open keys use {PublicKey}

  unfoldable pub verify :
      Text
      → ℕ
      → PublicKey
      → TofuHostKeyVerifier
      → Call (Result SshError HostKeyDecision) × TofuHostKeyVerifier
  verify host port key tofu =
      let observation = Verifier.check keys crypto tofu.verifier host port key in
      if tofu.poisoned
      then (returned (err lock_poisoned), tofu)
      else if observation.decision == unknown
      then accepted (Verifier.accept_key keys crypto host port key tofu.verifier) tofu
      else (returned (ok observation.decision), tofu)

  unfoldable pub check :
      TofuHostKeyVerifier → Text → ℕ → PublicKey → Result SshError HostKeyObservation
  check tofu host port key =
      if tofu.poisoned
      then err lock_poisoned
      else ok (Verifier.check keys crypto tofu.verifier host port key)
