-- ===== src/Auth/Types.antt =====
-- src/core/auth.rs: the record of the attempts made, which an error carries.
use xssh_rust_lib.Base.{List, [], Text, Bool, false, Option}

pub data ServerAuthMethod : Type 0 where
  none password public_key host_based keyboard_interactive : ServerAuthMethod

pub data AuthMethodKind : Type 0 where
  password private_key openssh_certificate keyboard_interactive agent : AuthMethodKind

pub record AuthenticationAttempt : Type 0 where
  pub method : AuthMethodKind
  pub accepted : Bool
  pub partial_success : Bool
  pub remaining_methods : List ServerAuthMethod
  pub error : Option Text

pub record AuthenticationObservation : Type 0 where
  pub attempts : List AuthenticationAttempt
  pub remaining_methods : List ServerAuthMethod
  pub partial_success : Bool

-- `AuthenticationObservation::default`
abbrev pub no_observation : AuthenticationObservation
no_observation = record { attempts = []; remaining_methods = []; partial_success = false }
