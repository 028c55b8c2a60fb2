-- ===== src/HostKey/Verifier.antt =====
-- src/core/host_key.rs: `KnownHostKeyVerifier`, which checks a server key against known hosts.
pub mod Verdict
pub mod Reload
use xssh_rust_lib.Base.{
  ℕ, Text, Bool, true, false, List, [], ◌∷◌, ◌++◌, Option, none, some, Result, ok, is_empty, find,
  not, ◌==◌, ◌!=◌, ◌&&◌, nat_eq, list_eq, option_eq, if◌then◌else◌,
}
use xssh_rust_lib.Base.Fallible.{◌>>=◌}
use xssh_rust_lib.Error.{SshError}
use xssh_rust_lib.HostKey.Types.{
  HostKeyDecision, HostKeyObservation, trusted, unknown, changed, revoked, decision_eq,
}
use xssh_rust_lib.HostKey.Keys.{KnownHostMarker, SshKeys, marker_eq}
use xssh_rust_lib.HostKey.Patterns.{HashedNames, host_token, host_patterns_match}
use xssh_rust_lib.HostKey.KnownHosts
use xssh_rust_lib.HostKey.KnownHosts.{
  KnownHostEntry, KnownHosts, is_some, replace_entry, key_entry, push_key,
}

pub record KnownHostKeyVerifier : Type 0 where
  pub known_hosts : KnownHosts

-- `insert`: a fingerprint with no key behind it
unfoldable pub insert : Text → ℕ → Text → KnownHostKeyVerifier → KnownHostKeyVerifier
insert host port fingerprint verifier = record {
  known_hosts =
      replace_entry
        (record {
          host_patterns = host_token host port;
          marker = none;
          fingerprint = fingerprint;
          public_key = [];
          line = 0;
        })
        verifier.known_hosts;
}

-- The variables of the loop in `check`; `decision` is the observation's so far.
pub record Scan : Type 0 where
  pub decision : HostKeyDecision
  pub expected_fingerprints : List Text
  pub matched_lines : List ℕ
  pub has_expected_key : Bool
  pub trusted_key : Bool

abbrev pub scan_start : Scan
scan_start = record {
  decision = unknown;
  expected_fingerprints = [];
  matched_lines = [];
  has_expected_key = false;
  trusted_key = false;
}

-- The body of the loop for an entry whose patterns match.
unfoldable pub scan_entry : Text → KnownHostEntry → Scan → Scan
scan_entry presented entry scan =
    let lines =
      if entry.line == 0 then scan.matched_lines else scan.matched_lines ++ entry.line ∷ [] in
    let expected = scan.expected_fingerprints ++ entry.fingerprint ∷ [] in
    let same = entry.fingerprint == presented in
    if entry.marker == some KnownHostMarker.revoked
    then record scan {
      decision = if same then revoked else scan.decision;
      expected_fingerprints = expected;
      matched_lines = lines;
      has_expected_key = true;
    }
    else if entry.marker == some KnownHostMarker.certificate_authority
    then record scan { matched_lines = lines }
    else record scan {
      expected_fingerprints = expected;
      matched_lines = lines;
      has_expected_key = true;
      trusted_key = if same then true else scan.trusted_key;
    }

-- What follows the loop.
unfoldable pub conclude : Scan → HostKeyDecision
conclude scan =
    if scan.decision == revoked
    then revoked
    else if scan.trusted_key
    then trusted
    else if scan.has_expected_key
    then changed
    else unknown

module _ (crypto : HashedNames) where
  unfoldable pub expected_fingerprint : Text → ℕ → KnownHostKeyVerifier → Option Text
  expected_fingerprint host port verifier =
      elim (find
        (λ entry.
          not (is_some entry.marker) && host_patterns_match crypto entry.host_patterns host port)
        verifier.known_hosts.entries) [ none ↦ none | some entry ↦ some entry.fingerprint ]

  unfoldable pub scan_entries : Text → ℕ → Text → List KnownHostEntry → Scan → Scan
  unfolding scan_entry
  scan_entries host port presented [] scan = scan
  scan_entries host port presented (entry ∷ entries) scan =
      scan_entries host port presented entries (
        if host_patterns_match crypto entry.host_patterns host port
        then scan_entry presented entry scan
        else scan)

module _ (keys : SshKeys) (crypto : HashedNames) where
  open keys use {PublicKey, fingerprint_sha256}

  unfoldable pub insert_key :
      Text → ℕ → PublicKey → KnownHostKeyVerifier → Option KnownHostKeyVerifier
  insert_key host port key verifier = elim (key_entry keys host port key) [
    | none ↦ none
    | some entry ↦ some (record { known_hosts = replace_entry entry verifier.known_hosts })
  ]

  unfoldable pub accept_key :
      Text → ℕ → PublicKey → KnownHostKeyVerifier → Option KnownHostKeyVerifier
  accept_key host port key verifier = elim (push_key keys host port key verifier.known_hosts) [
    | none ↦ none
    | some hosts ↦ some (record { known_hosts = hosts })
  ]

  unfoldable pub check : KnownHostKeyVerifier → Text → ℕ → PublicKey → HostKeyObservation
  unfolding scan_entries conclude
  check verifier host port key =
      let presented = fingerprint_sha256 key in
      let scan = scan_entries crypto host port presented verifier.known_hosts.entries scan_start in
      record {
        host = host;
        port = port;
        decision = conclude scan;
        presented_fingerprint = presented;
        expected_fingerprints = scan.expected_fingerprints;
        matched_lines = scan.matched_lines;
      }

  -- `HostKeyVerifier::verify`: `check` never fails.
  unfoldable pub verify : KnownHostKeyVerifier → Text → ℕ → PublicKey → HostKeyDecision
  unfolding check
  verify verifier host port key = (check verifier host port key).decision
