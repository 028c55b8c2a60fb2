-- ===== src/HostKey/Types.antt =====
-- src/core/host_key.rs: the decision on a server key, and what a confirmation dialog is shown.
use xssh_rust_lib.Base.{[], ℕ, List, Text, Bool, true, false, ◌≡◌, ◌↔◌, PartialEq, arith}

pub data HostKeyDecision : Type 0 where
  trusted unknown changed revoked : HostKeyDecision

abbrev decision_beq : HostKeyDecision → HostKeyDecision → Bool
decision_beq trusted trusted = true
decision_beq unknown unknown = true
decision_beq changed changed = true
decision_beq revoked revoked = true
decision_beq _ _ = false

pub decision_beq_iff : (a b : HostKeyDecision) → (decision_beq a b ≡ true) ↔ (a ≡ b)
decision_beq_iff a b = ground arith

instance abbrev pub decision_eq : PartialEq HostKeyDecision
decision_eq = record { eq = decision_beq; eq_iff = decision_beq_iff }

pub record HostKeyObservation : Type 0 where
  pub host : Text
  pub port : ℕ
  pub decision : HostKeyDecision
  pub presented_fingerprint : Text
  pub expected_fingerprints : List Text
  pub matched_lines : List ℕ

-- `HostKeyObservation::new`, with the fingerprint of the key.
abbrev pub new_observation : Text → ℕ → Text → HostKeyDecision → HostKeyObservation
new_observation host port fingerprint decision = record {
  host = host;
  port = port;
  decision = decision;
  presented_fingerprint = fingerprint;
  expected_fingerprints = [];
  matched_lines = [];
}
