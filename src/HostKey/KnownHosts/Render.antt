-- ===== src/HostKey/KnownHosts/Render.antt =====
-- src/core/host_key.rs: known hosts that are rendered and read again.
use xssh_rust_lib.Base.{
  codes, Option, ℕ, ◌+◌, Text, false, List, [], ◌∷◌, ◌++◌, none, some, ok, All, is_empty, contains,
  nat_eq, if◌then◌else◌, ◌≡◌, refl, ap, ◌∙◌,
}
use xssh_rust_lib.Base.Str.{trim, join, lines}
use xssh_rust_lib.Base.Str.Lines.{unlines, split_once-none, IsLine, lines-unlines, join-unlines}
use xssh_rust_lib.HostKey.Keys.{SshKeys, KnownHostMarker, certificate_authority, revoked}
use xssh_rust_lib.HostKey.KnownHosts.{
  KnownHostEntry, KnownHosts, marker_prefix, to_line, rendered_lines, to_openssh, content,
  parse_line, parse_lines, parse,
}

joined :
    (texts : List Text)
    → (if is_empty texts then [] else join (0xa ∷ []) texts ++ (0xa ∷ [])) ≡ unlines texts
unfolding unlines
joined [] = refl
joined (line ∷ rest) = join-unlines line rest

-- A line of an OpenSSH known_hosts file: a marker, if any, the patterns and the key.
abbrev pub openssh_line : Option KnownHostMarker → Text → Text → Text
openssh_line none patterns key = patterns ++ (b' ' ∷ key)
openssh_line (some revoked) patterns key = codes "@revoked " ++ (patterns ++ (b' ' ∷ key))
openssh_line (some certificate_authority) patterns key =
    codes "@cert-authority " ++ (patterns ++ (b' ' ∷ key))

abbrev pub line_of : KnownHostEntry → Text
line_of entry = openssh_line entry.marker entry.host_patterns entry.public_key

prefix-openssh_line :
    (marker : Option KnownHostMarker) (patterns key : Text)
    → marker_prefix marker ++ (patterns ++ (b' ' ∷ key)) ≡ openssh_line marker patterns key
unfolding marker_prefix
prefix-openssh_line none patterns key = refl
prefix-openssh_line (some revoked) patterns key = refl
prefix-openssh_line (some certificate_authority) patterns key = refl

to_line-openssh_line :
    (entry : KnownHostEntry)
    → is_empty entry.public_key ≡ false
    → to_line entry ≡ some (line_of entry)
unfolding to_line
to_line-openssh_line entry keyed =
    rw keyed (ap some (prefix-openssh_line entry.marker entry.host_patterns entry.public_key))

module _ (keys : SshKeys) where
  -- An entry with a key, whose line of an OpenSSH file stands alone, has no comment and no white space
  -- around it, and is read by the crate as what the line says, of a key that has the entry's form and
  -- fingerprint.
  pub record IsReadable (entry : KnownHostEntry) : Type 0 where
    pub key : keys.PublicKey
    pub keyed : is_empty entry.public_key ≡ false
    pub filled : is_empty (line_of entry) ≡ false
    pub one_line : IsLine (line_of entry)
    pub no_comment : contains (line_of entry) b'#' ≡ false
    pub trimmed : trim (line_of entry) ≡ (line_of entry)
    pub read :
        keys.read_entry (line_of entry)
        ≡ ok (record {
          entry_marker = entry.marker;
          entry_patterns = entry.host_patterns;
          entry_key = key;
        })
    pub encoded : keys.to_openssh key ≡ ok entry.public_key
    pub fingerprinted : keys.fingerprint_sha256 key ≡ entry.fingerprint

  -- The entries with the lines on which they stand, from a number on.
  unfoldable pub numbered : ℕ → List KnownHostEntry → List KnownHostEntry
  numbered number [] = []
  numbered number (entry ∷ entries) = record entry { line = number } ∷ numbered (number + 1) entries

  texts_of : (entries : List KnownHostEntry) → All IsReadable entries → List Text
  texts_of [] h = []
  texts_of (entry ∷ entries) (readable, others) = line_of entry ∷ texts_of entries others

  rendered_lines_lem :
      (entries : List KnownHostEntry) (h : All IsReadable entries)
      → rendered_lines entries ≡ texts_of entries h
  unfolding rendered_lines texts_of
  rendered_lines_lem [] h = refl
  rendered_lines_lem (entry ∷ entries) (readable, others) =
      ap (λ o. elim o [ none ↦ rendered_lines entries | some line ↦ line ∷ rendered_lines entries ])
        (to_line-openssh_line entry readable.keyed)
      ∙ ap (λ lines. line_of entry ∷ lines) (rendered_lines_lem entries others)

  texts_of-IsLine :
      (entries : List KnownHostEntry) (h : All IsReadable entries) → All IsLine (texts_of entries h)
  unfolding texts_of
  texts_of-IsLine [] h = tt
  texts_of-IsLine (entry ∷ entries) (readable, others) =
      (readable.one_line, texts_of-IsLine entries others)

  content-line :
      (entry : KnownHostEntry) (readable : IsReadable entry)
      → content keys (line_of entry) ≡ line_of entry
  unfolding content
  content-line entry readable =
      rw (split_once-none b'#' (line_of entry) readable.no_comment) readable.trimmed

  parse_line-read :
      (number : ℕ) (entry : KnownHostEntry) (readable : IsReadable entry)
      → parse_line keys number (line_of entry) ≡ ok (record entry { line = number })
  unfolding parse_line
  parse_line-read number entry readable =
      rw (readable.read, readable.encoded, readable.fingerprinted) refl

  parse_lines-texts :
      (number : ℕ) (entries : List KnownHostEntry) (h : All IsReadable entries)
      → parse_lines keys number (texts_of entries h) ≡ ok (numbered number entries)
  unfolding parse_lines texts_of numbered
  parse_lines-texts number [] h = refl
  parse_lines-texts number (entry ∷ entries) (readable, others) =
      rw
        (
          content-line entry readable,
          readable.filled,
          parse_line-read number entry readable,
          parse_lines-texts (number + 1) entries others,
        )
        refl

  to_openssh-unlines :
      (hosts : KnownHosts) (h : All IsReadable hosts.entries)
      → to_openssh hosts ≡ unlines (texts_of hosts.entries h)
  unfolding to_openssh
  to_openssh-unlines hosts h =
      rw (rendered_lines_lem hosts.entries h) (joined (texts_of hosts.entries h))

  pub parse-to_openssh :
      (hosts : KnownHosts)
      → All IsReadable hosts.entries
      → parse keys (to_openssh hosts) ≡ ok (record { entries = numbered 1 hosts.entries })
  unfolding parse
  parse-to_openssh hosts h =
      let texts = texts_of hosts.entries h in
      let read : lines (to_openssh hosts) ≡ texts =
        ap lines (to_openssh-unlines hosts h)
        ∙ lines-unlines texts (texts_of-IsLine hosts.entries h) in
      rw (read, parse_lines-texts 1 hosts.entries h) refl
