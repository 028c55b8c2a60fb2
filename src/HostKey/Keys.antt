-- ===== src/HostKey/Keys.antt =====
-- The public keys and the `known_hosts` lines of the `ssh_key` crate, as an interface.
use xssh_rust_lib.Base.{Text, Bool, true, false, Option, Result, ◌≡◌, ◌↔◌, PartialEq, arith}

-- `KnownHostMarker`, and `Marker` of the crate.
pub data KnownHostMarker : Type 0 where
  certificate_authority revoked : KnownHostMarker

abbrev marker_beq : KnownHostMarker → KnownHostMarker → Bool
marker_beq certificate_authority certificate_authority = true
marker_beq revoked revoked = true
marker_beq _ _ = false

pub marker_beq_iff : (a b : KnownHostMarker) → (marker_beq a b ≡ true) ↔ (a ≡ b)
marker_beq_iff a b = ground arith

instance abbrev pub marker_eq : PartialEq KnownHostMarker
marker_eq = record { eq = marker_beq; eq_iff = marker_beq_iff }

-- `Entry`: the patterns as `to_string` shows them.
pub record Entry {ℓ} (K : Type ℓ) : Type ℓ where
  pub entry_marker : Option KnownHostMarker
  pub entry_patterns : Text
  pub entry_key : K

-- Errors of the crate are the texts that they display.
pub record SshKeys : Type 1 where
  pub PublicKey : Type 0
  pub fingerprint_sha256 : PublicKey → Text
  pub to_openssh : PublicKey → Result Text Text
  pub read_entry : Text → Result Text (Entry PublicKey)
