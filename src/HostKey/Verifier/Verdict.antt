-- ===== src/HostKey/Verifier/Verdict.antt =====
-- src/core/host_key.rs, `KnownHostKeyVerifier::check`: what the loop over the entries decides, said
-- with no loop variables and no order of the entries.
use mathlib.Core.List.{append-nil, append_assoc}
use xssh_rust_lib.Base.{
  ℕ, Text, Bool, ◌&&◌, ◌||◌, not, List, [], ◌∷◌, ◌++◌, map, none, some, any, retain, ◌==◌, ◌!=◌,
  nat_eq, list_eq, option_eq, if◌then◌else◌, ◌≡◌, refl, arith,
}
use xssh_rust_lib.HostKey.Types.{HostKeyDecision, trusted, unknown, changed, revoked, decision_eq}
use xssh_rust_lib.HostKey.Keys.{KnownHostMarker, SshKeys, marker_eq}
use xssh_rust_lib.HostKey.Patterns.{HashedNames, host_patterns_match}
use xssh_rust_lib.HostKey.KnownHosts.{KnownHostEntry}
use xssh_rust_lib.HostKey.Verifier.{
  KnownHostKeyVerifier, Scan, scan_start, scan_entry, scan_entries, check,
}

-- The entry revokes the fingerprint; vouches for it; names some key for the host.
abbrev pub revokes : Text → KnownHostEntry → Bool
revokes presented entry =
    entry.marker == some KnownHostMarker.revoked && entry.fingerprint == presented

abbrev pub vouches : Text → KnownHostEntry → Bool
vouches presented entry = entry.marker == none && entry.fingerprint == presented

abbrev pub names_key : KnownHostEntry → Bool
names_key entry = not (entry.marker == some KnownHostMarker.certificate_authority)

module _ (crypto : HashedNames) (host : Text) (port : ℕ) where
  abbrev pub about_host : KnownHostEntry → Bool
  about_host entry = host_patterns_match crypto entry.host_patterns host port

  -- The decision of OpenSSH: a revocation wins over everything, a listed key is trusted, another
  -- key than those listed has changed, and a host of which nothing is listed is unknown.
  unfoldable pub verdict : Text → List KnownHostEntry → HostKeyDecision
  verdict presented entries =
      if any (λ entry. about_host entry && revokes presented entry) entries
      then revoked
      else if any (λ entry. about_host entry && vouches presented entry) entries
      then trusted
      else if any (λ entry. about_host entry && names_key entry) entries
      then changed
      else unknown

  module _ (presented : Text) where
    abbrev run : List KnownHostEntry → Scan → Scan
    run = scan_entries crypto host port presented

    decision-run :
        (entries : List KnownHostEntry) (scan : Scan)
        → ((run entries scan).decision == revoked) ≡ (
            scan.decision == revoked
            || any (λ entry. about_host entry && revokes presented entry) entries)
    unfolding scan_entries any
    decision-run [] scan = ground arith
    decision-run (entry ∷ entries) scan =
        ground
          (arith, decision-run entries (scan_entry presented entry scan), decision-run entries scan)

    trusted_key-run :
        (entries : List KnownHostEntry) (scan : Scan)
        → (run entries scan).trusted_key
          ≡ (scan.trusted_key || any (λ entry. about_host entry && vouches presented entry) entries)
    unfolding scan_entries any
    trusted_key-run [] scan = ground arith
    trusted_key-run (entry ∷ entries) scan = ground (
      arith,
      trusted_key-run entries (scan_entry presented entry scan),
      trusted_key-run entries scan,
    )

    has_expected_key-run :
        (entries : List KnownHostEntry) (scan : Scan)
        → (run entries scan).has_expected_key
          ≡ (scan.has_expected_key || any (λ entry. about_host entry && names_key entry) entries)
    unfolding scan_entries any
    has_expected_key-run [] scan = ground arith
    has_expected_key-run (entry ∷ entries) scan = ground (
      arith,
      has_expected_key-run entries (scan_entry presented entry scan),
      has_expected_key-run entries scan,
    )

    expected_fingerprints-run :
        (entries : List KnownHostEntry) (scan : Scan)
        → (run entries scan).expected_fingerprints
          ≡ scan.expected_fingerprints
            ++ map
                (λ entry. entry.fingerprint)
                (retain (λ entry. about_host entry && names_key entry) entries)
    unfolding scan_entries retain
    expected_fingerprints-run [] scan = rw append-nil
    expected_fingerprints-run (entry ∷ entries) scan = ground (
      arith,
      expected_fingerprints-run entries (scan_entry presented entry scan),
      expected_fingerprints-run entries scan,
      append_assoc scan.expected_fingerprints (entry.fingerprint ∷ [])
          (map (λ e. e.fingerprint) (retain (λ e. about_host e && names_key e) entries)),
    )

    matched_lines-run :
        (entries : List KnownHostEntry) (scan : Scan)
        → (run entries scan).matched_lines
          ≡ scan.matched_lines
            ++ map
                (λ entry. entry.line)
                (retain (λ entry. about_host entry && entry.line != 0) entries)
    unfolding scan_entries retain
    matched_lines-run [] scan = rw append-nil
    matched_lines-run (entry ∷ entries) scan = ground (
      arith,
      matched_lines-run entries (scan_entry presented entry scan),
      matched_lines-run entries scan,
      append_assoc scan.matched_lines (entry.line ∷ [])
          (map (λ e. e.line) (retain (λ e. about_host e && e.line != 0) entries)),
    )

module _ (keys : SshKeys) (crypto : HashedNames) where
  open keys use {PublicKey, fingerprint_sha256}

  -- For every verifier, host, port and key, the decision of `check` is the verdict on the entries.
  pub decision-check :
      (verifier : KnownHostKeyVerifier) (host : Text) (port : ℕ) (key : PublicKey)
      → (check keys crypto verifier host port key).decision
        ≡ verdict crypto host port (fingerprint_sha256 key) verifier.known_hosts.entries
  unfolding check verdict
  decision-check verifier host port key =
      let entries = verifier.known_hosts.entries in
      let presented = fingerprint_sha256 key in
      ground (
        arith,
        decision-run crypto host port presented entries scan_start,
        trusted_key-run crypto host port presented entries scan_start,
        has_expected_key-run crypto host port presented entries scan_start,
      )

  -- What the dialog is shown is about the host and the key that were checked: the fingerprints of
  -- the entries that match the host, revoked ones included and certificate authorities not, and the
  -- lines of all entries that match it but for line 0, in the order of the file.
  pub observation-check :
      (verifier : KnownHostKeyVerifier) (host : Text) (port : ℕ) (key : PublicKey)
      → let seen = check keys crypto verifier host port key in
        let entries = verifier.known_hosts.entries in
        (seen.host ≡ host)
        × (seen.port ≡ port)
        × (seen.presented_fingerprint ≡ fingerprint_sha256 key)
        × (seen.expected_fingerprints
            ≡ map
                (λ entry. entry.fingerprint)
                (retain (λ entry. about_host crypto host port entry && names_key entry) entries))
        × (seen.matched_lines
            ≡ map
                (λ entry. entry.line)
                (retain (λ entry. about_host crypto host port entry && entry.line != 0) entries))
  unfolding check
  observation-check verifier host port key =
      let entries = verifier.known_hosts.entries in
      let presented = fingerprint_sha256 key in
      (
        refl,
        refl,
        refl,
        expected_fingerprints-run crypto host port presented entries scan_start,
        matched_lines-run crypto host port presented entries scan_start,
      )
