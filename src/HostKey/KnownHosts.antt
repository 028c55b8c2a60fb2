-- ===== src/HostKey/KnownHosts.antt =====
-- src/core/host_key.rs: `KnownHostEntry` and `KnownHosts`, read, extended and rendered.
pub mod Laws
pub mod Render
use xssh_rust_lib.Base.{
  ℕ, ◌+◌, Text, codes, Bool, true, false, ◌||◌, not, List, [], ◌∷◌, ◌++◌, Option, none, some,
  Result, ok, err, is_empty, retain, ◌==◌, ◌!=◌, nat_eq, list_eq, is_some_and, if◌then◌else◌,
}
use xssh_rust_lib.Base.Fallible.{◌>>=◌, map_err}
use xssh_rust_lib.Base.Str.{trim, split_once, join, lines}
use xssh_rust_lib.Base.Str.Decimal.{to_decimal}
use xssh_rust_lib.Error
use xssh_rust_lib.Error.{SshError}
use xssh_rust_lib.HostKey.Keys.{KnownHostMarker, certificate_authority, revoked, SshKeys, Entry}
use xssh_rust_lib.HostKey.Patterns.{host_token}

pub record KnownHostEntry : Type 0 where
  pub host_patterns : Text
  pub marker : Option KnownHostMarker
  pub fingerprint : Text
  pub public_key : Text
  pub line : ℕ

pub record KnownHosts : Type 0 where
  pub entries : List KnownHostEntry

abbrev pub no_known_hosts : KnownHosts
no_known_hosts = record { entries = [] }

-- `Option::is_some`
abbrev pub is_some {ℓ} : {A : Type ℓ} → Option A → Bool
is_some none = false
is_some (some a) = true

marker_prefix : Option KnownHostMarker → Text
marker_prefix (some certificate_authority) = codes "@cert-authority "
marker_prefix (some revoked) = codes "@revoked "
marker_prefix none = []

unfoldable pub to_line : KnownHostEntry → Option Text
unfolding marker_prefix
to_line entry =
    if is_empty entry.public_key
    then none
    else some (marker_prefix entry.marker ++ (entry.host_patterns ++ (b' ' ∷ entry.public_key)))

-- `filter_map(KnownHostEntry::to_line)`
rendered_lines : List KnownHostEntry → List Text
rendered_lines [] = []
rendered_lines (entry ∷ entries) = elim (to_line entry) [
  | none ↦ rendered_lines entries
  | some line ↦ line ∷ rendered_lines entries
]

unfoldable pub to_openssh : KnownHosts → Text
unfolding rendered_lines to_line join
to_openssh hosts =
    let lines = rendered_lines hosts.entries in
    if is_empty lines then [] else join (0xa ∷ []) lines ++ (0xa ∷ [])

-- An unmarked entry under the same patterns gives way.
unfoldable pub replace_entry : KnownHostEntry → KnownHosts → KnownHosts
unfolding retain
replace_entry entry hosts = record {
  entries =
      retain (λ existing. is_some existing.marker || existing.host_patterns != entry.host_patterns)
        hosts.entries
      ++ entry ∷ [];
}

module _ (keys : SshKeys) where
  open keys use {PublicKey}

  -- The text of a line in front of a `#`, trimmed.
  content : Text → Text
  content raw_line =
      trim (elim (split_once b'#' raw_line) [ none ↦ raw_line | some (before, _) ↦ before ])

  at_line : ℕ → Text → Text → SshError
  at_line number what error = Error.with_path (codes "known_hosts:" ++ to_decimal number) (
      Error.configuration (
        codes "invalid known_hosts "
        ++ (what ++ (codes " on line " ++ (to_decimal number ++ (codes ": " ++ error))))))

  -- The body of the loop for a line that has content.
  parse_line : ℕ → Text → Result SshError KnownHostEntry
  parse_line number line = do
    entry ← map_err (at_line number (codes "entry")) (keys.read_entry line)
    public_key ← map_err (at_line number (codes "public key")) (keys.to_openssh entry.entry_key)
    ok (record {
      host_patterns = entry.entry_patterns;
      marker = entry.entry_marker;
      fingerprint = keys.fingerprint_sha256 entry.entry_key;
      public_key = public_key;
      line = number;
    })

  -- `for (line_index, raw_line) in input.lines().enumerate()`, from a line's number on
  parse_lines : ℕ → List Text → Result SshError (List KnownHostEntry)
  unfolding content parse_line at_line
  parse_lines number [] = ok []
  parse_lines number (raw_line ∷ rest) =
      let others = parse_lines (number + 1) rest in
      let line = content raw_line in
      if is_empty line
      then others
      else (do entry ← parse_line number line; entries ← others; ok (entry ∷ entries))

  unfoldable pub parse : Text → Result SshError KnownHosts
  unfolding parse_lines
  parse input = do entries ← parse_lines 1 (lines input); ok (record { entries = entries })

  -- `push_key` and `insert_key` panic, `none`, where the key has no OpenSSH form.
  abbrev pub key_entry : Text → ℕ → PublicKey → Option KnownHostEntry
  key_entry host port key = elim (keys.to_openssh key) [
    | err _ ↦ none
    | ok public_key ↦ some (record {
      host_patterns = host_token host port;
      marker = none;
      fingerprint = keys.fingerprint_sha256 key;
      public_key = public_key;
      line = 0;
    })
  ]

  unfoldable pub push_key : Text → ℕ → PublicKey → KnownHosts → Option KnownHosts
  push_key host port key hosts = elim (key_entry host port key) [
    | none ↦ none
    | some entry ↦ some (record { entries = hosts.entries ++ entry ∷ [] })
  ]

  -- `read_file`, given what the file system returned for the path: the text, or an error.
  unfoldable pub read_file : Text → Result Text Text → Result SshError KnownHosts
  read_file path read = do
    input ←
        map_err
          (λ error.
            Error.with_path path
              (Error.configuration (codes "failed to read known_hosts: " ++ error)))
          read
    map_err (Error.with_path path) (parse input)
