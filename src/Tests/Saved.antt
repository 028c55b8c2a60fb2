-- ===== src/Tests/Saved.antt =====
-- The known hosts of src/core/host_key.rs, rendered and read again, at a concrete input.
use xssh_rust_lib.Base.{
  codes, [], ◌∷◌, none, some, ok, err, Result, Option, Text, contains, ◌==◌, list_beq, nat_eq,
  list_eq, if◌then◌else◌, ◌≡◌, refl,
}
use xssh_rust_lib.Base.Str.{trim, split_once}
use xssh_rust_lib.HostKey.Keys.{SshKeys, Entry, KnownHostMarker, revoked}
use xssh_rust_lib.HostKey.Patterns.{HashedNames}
use xssh_rust_lib.HostKey.KnownHosts.{KnownHostEntry, KnownHosts, to_openssh, parse}
use xssh_rust_lib.HostKey.KnownHosts.Render.{IsReadable, numbered}
use xssh_rust_lib.HostKey.Verifier.{KnownHostKeyVerifier, verify}
use xssh_rust_lib.HostKey.Verifier.Reload.{verify-parse}

-- Keys are texts, and lines are read word by word; no authorities are known.
abbrev read_words : Option KnownHostMarker → Text → Result Text (Entry Text)
read_words marker text = elim (split_once b' ' text) [
  | none ↦ err (codes "missing key")
  | some (patterns, key) ↦
      ok (record { entry_marker = marker; entry_patterns = patterns; entry_key = key })
]

abbrev read_entry : Text → Result Text (Entry Text)
read_entry text = elim (split_once b' ' text) [
  | none ↦ err (codes "empty entry")
  | some (first, rest) ↦
      if first == codes "@revoked" then read_words (some revoked) rest else read_words none text
]

abbrev keys : SshKeys
keys = record {
  PublicKey = Text;
  fingerprint_sha256 = λ key. b'!' ∷ key;
  to_openssh = λ key. ok key;
  read_entry = read_entry;
}

abbrev crypto : HashedNames
crypto = record { decode_vec = λ t. none; decode_vec_unpadded = λ t. none; hmac_sha1 = λ key. none }

abbrev entry : KnownHostEntry
entry = record {
  host_patterns = codes "db";
  marker = none;
  fingerprint = codes "!k7";
  public_key = codes "k7";
  line = 0;
}

abbrev banned : KnownHostEntry
banned = record {
  host_patterns = codes "*";
  marker = some revoked;
  fingerprint = codes "!k8";
  public_key = codes "k8";
  line = 0;
}

abbrev verifier : KnownHostKeyVerifier
verifier = record { known_hosts = record { entries = entry ∷ banned ∷ [] } }

entry-IsReadable : IsReadable keys entry
unfolding contains trim codes split_once list_beq
entry-IsReadable = record {
  key = codes "k7";
  keyed = refl;
  filled = refl;
  one_line = (refl, refl);
  no_comment = refl;
  trimmed = refl;
  read = refl;
  encoded = refl;
  fingerprinted = refl;
}

banned-IsReadable : IsReadable keys banned
unfolding contains trim codes split_once list_beq
banned-IsReadable = record {
  key = codes "k8";
  keyed = refl;
  filled = refl;
  one_line = (refl, refl);
  no_comment = refl;
  trimmed = refl;
  read = refl;
  encoded = refl;
  fingerprinted = refl;
}

verify-parse_example :
    (reread : KnownHosts) × (parse keys (to_openssh verifier.known_hosts) ≡ ok reread)
    × (reread.entries ≡ numbered keys 1 (entry ∷ banned ∷ []))
    × (verify keys crypto (record { known_hosts = reread }) (codes "db") 22 (codes "k8")
        ≡ verify keys crypto verifier (codes "db") 22 (codes "k8"))
verify-parse_example =
    verify-parse keys crypto verifier (codes "db") 22 (codes "k8")
      (entry-IsReadable, (banned-IsReadable, tt))
