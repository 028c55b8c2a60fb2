-- ===== src/HostKey/Verifier/Reload.antt =====
-- src/core/host_key.rs: a verifier whose known hosts were rendered and read again.
use xssh_rust_lib.Base.{ℕ, ◌+◌, Text, Bool, ◌&&◌, List, [], ◌∷◌, ok, All, any, ◌≡◌, refl, sym, ◌∙◌}
use xssh_rust_lib.HostKey.Keys.{SshKeys}
use xssh_rust_lib.HostKey.Patterns.{HashedNames}
use xssh_rust_lib.HostKey.KnownHosts.{KnownHostEntry, KnownHosts, to_openssh, parse}
use xssh_rust_lib.HostKey.KnownHosts.Render.{IsReadable, numbered, parse-to_openssh}
use xssh_rust_lib.HostKey.Verifier.{KnownHostKeyVerifier, verify}
use xssh_rust_lib.HostKey.Verifier.Verdict.{
  about_host, revokes, vouches, names_key, verdict, decision-check,
}

module _ (keys : SshKeys) where
  -- A test that does not look at the number of the line.
  any-numbered :
      (p : KnownHostEntry → Bool) (number : ℕ) (entries : List KnownHostEntry)
      → ((entry : KnownHostEntry) (line : ℕ) → p (record entry { line = line }) ≡ p entry)
      → any p (numbered keys number entries) ≡ any p entries
  unfolding any numbered
  any-numbered p number [] blind = refl
  any-numbered p number (entry ∷ entries) blind =
      rw (blind entry number, any-numbered p (number + 1) entries blind) refl

  module _ (crypto : HashedNames) where
    verdict-numbered :
        (host : Text) (port : ℕ) (presented : Text) (number : ℕ) (entries : List KnownHostEntry)
        → verdict crypto host port presented (numbered keys number entries)
          ≡ verdict crypto host port presented entries
    unfolding verdict
    verdict-numbered host port presented number entries =
        rw
          (
            any-numbered (λ entry. about_host crypto host port entry && revokes presented entry)
                number entries (λ entry line. refl),
            any-numbered (λ entry. about_host crypto host port entry && vouches presented entry)
                number entries (λ entry line. refl),
            any-numbered (λ entry. about_host crypto host port entry && names_key entry) number
                entries (λ entry line. refl),
          )
          refl

    -- Let each entry of a verifier have a key, and let the crate read the OpenSSH line of the entry's
    -- marker, patterns and key as these, of a key that has the entry's form and fingerprint; the line has
    -- no end of line and no `#` in it and no white space around it. Then the rendered known hosts are parsed to the same entries, in their order,
    -- with the numbers of the lines on which they now stand, and the verifier of these decides as the
    -- one before on every host, port and key.
    pub verify-parse :
        (verifier : KnownHostKeyVerifier) (host : Text) (port : ℕ) (key : keys.PublicKey)
        → All (IsReadable keys) verifier.known_hosts.entries
        → (reread : KnownHosts) × (parse keys (to_openssh verifier.known_hosts) ≡ ok reread)
          × (reread.entries ≡ numbered keys 1 verifier.known_hosts.entries)
          × (verify keys crypto (record { known_hosts = reread }) host port key
              ≡ verify keys crypto verifier host port key)
    unfolding verify
    verify-parse verifier host port key readable =
        let entries = numbered keys 1 verifier.known_hosts.entries in
        let reread : KnownHosts = record { entries = entries } in
        (
          reread,
          parse-to_openssh keys verifier.known_hosts readable,
          refl,
          decision-check keys crypto (record { known_hosts = reread }) host port key
              ∙ verdict-numbered host port (keys.fingerprint_sha256 key) 1
                  verifier.known_hosts.entries
              ∙ sym (decision-check keys crypto verifier host port key),
        )
