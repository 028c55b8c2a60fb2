-- ===== src/Error/Kind.antt =====
-- src/core/error.rs: the phases in which an operation fails.
use xssh_rust_lib.Base.{Bool, true, false, ◌≡◌, ◌↔◌, PartialEq, arith}

pub data ErrorKind : Type 0 where
  configuration connection handshake host_key authentication channel protocol timeout cancelled
        internal :
      ErrorKind

unfoldable pub is_retryable_kind : ErrorKind → Bool
is_retryable_kind connection = true
is_retryable_kind handshake = true
is_retryable_kind channel = true
is_retryable_kind timeout = true
is_retryable_kind _ = false

-- The derived `PartialEq`.
abbrev kind_beq : ErrorKind → ErrorKind → Bool
kind_beq configuration configuration = true
kind_beq connection connection = true
kind_beq handshake handshake = true
kind_beq host_key host_key = true
kind_beq authentication authentication = true
kind_beq channel channel = true
kind_beq protocol protocol = true
kind_beq timeout timeout = true
kind_beq cancelled cancelled = true
kind_beq internal internal = true
kind_beq _ _ = false

pub kind_beq_iff : (a b : ErrorKind) → (kind_beq a b ≡ true) ↔ (a ≡ b)
kind_beq_iff a b = ground arith

instance abbrev pub kind_eq : PartialEq ErrorKind
kind_eq = record { eq = kind_beq; eq_iff = kind_beq_iff }
