-- ===== src/HostKey/Tofu/Laws.antt =====
-- src/core/host_key.rs: trust on first use, as a client sees it.
use xssh_rust_lib.Base.{
  ℕ, Text, Bool, true, false, ◌&&◌, ◌||◌, List, [], ◌∷◌, ◌++◌, none, ok, any, ◌==◌, list_eq, nat_eq,
  option_eq, if◌then◌else◌, ◌≡◌, ◌≢◌, refl, sym, ◌∙◌, arith,
}
use xssh_rust_lib.HostKey.Types.{trusted, unknown, changed, decision_eq}
use xssh_rust_lib.HostKey.Keys.{SshKeys, marker_eq}
use xssh_rust_lib.HostKey.Patterns.{HashedNames, host_token}
use xssh_rust_lib.HostKey.Patterns.Laws.{IsPlainToken, host_patterns_match-host_token}
use xssh_rust_lib.HostKey.KnownHosts.{KnownHostEntry, push_key}
use xssh_rust_lib.HostKey.Verifier
use xssh_rust_lib.HostKey.Verifier.{KnownHostKeyVerifier}
use xssh_rust_lib.HostKey.Verifier.Verdict.{
  verdict, about_host, revokes, vouches, names_key, decision-check,
}
use xssh_rust_lib.HostKey.Tofu.{TofuHostKeyVerifier, returned, verify}

any-append {ℓ} :
    {A : Type ℓ} (p : A → Bool) (xs ys : List A) → any p (xs ++ ys) ≡ (any p xs || any p ys)
unfolding any
any-append p [] ys = refl
any-append p (x ∷ xs) ys = ground (arith, any-append p xs ys)

any-false {ℓ} :
    {A : Type ℓ} (p q : A → Bool) (xs : List A)
    → ((x : A) → p x ≡ true → q x ≡ true)
    → any q xs ≡ false
    → any p xs ≡ false
unfolding any
any-false p q [] h e = refl
any-false p q (x ∷ xs) h e = ground (arith, h x, any-false p q xs h)

module _ (crypto : HashedNames) (host : Text) (port : ℕ) where
  -- An unmarked entry for the host, behind entries that name no key of it, decides alone.
  verdict-append :
      (presented : Text) (entries : List KnownHostEntry) (entry : KnownHostEntry)
      → verdict crypto host port presented entries ≡ unknown
      → about_host crypto host port entry ≡ true
      → entry.marker ≡ none
      → (other : Text)
      → verdict crypto host port other (entries ++ entry ∷ [])
        ≡ (if entry.fingerprint == other then trusted else changed)
  unfolding verdict any
  verdict-append presented entries entry h about unmarked other =
      let about_it = about_host crypto host port in
      let named = λ (e : KnownHostEntry). about_it e && names_key e in
      let unnamed : any named entries ≡ false = ground arith in
      ground (
        arith,
        any-append (λ e. about_it e && revokes other e) entries (entry ∷ []),
        any-append (λ e. about_it e && vouches other e) entries (entry ∷ []),
        any-append named entries (entry ∷ []),
        any-false (λ e. about_it e && revokes other e) named entries (λ x. ground arith) unnamed,
        any-false (λ e. about_it e && vouches other e) named entries (λ x. ground arith) unnamed,
      )

module _ (keys : SshKeys) (crypto : HashedNames) where
  open keys use {PublicKey, fingerprint_sha256, to_openssh}

  -- The verifier with one more entry for the key.
  abbrev remembered : Text → ℕ → PublicKey → Text → KnownHostKeyVerifier → KnownHostKeyVerifier
  remembered host port key public_key v = record {
    known_hosts = record {
      entries =
          v.known_hosts.entries
          ++ (record {
            host_patterns = host_token host port;
            marker = none;
            fingerprint = fingerprint_sha256 key;
            public_key = public_key;
            line = 0;
          })
            ∷ [];
    };
  }

  verify-unknown :
      (host : Text) (port : ℕ) (key : PublicKey) (v : KnownHostKeyVerifier) (public_key : Text)
      → to_openssh key ≡ ok public_key
      → Verifier.verify keys crypto v host port key ≡ unknown
      → verify keys crypto host port key (record { verifier = v; poisoned = false }) ≡ (
        returned (ok trusted),
        record { verifier = remembered host port key public_key v; poisoned = false },
      )
  unfolding verify Verifier.verify Verifier.accept_key push_key
  verify-unknown host port key v public_key encodes h = ground arith

  -- Whatever is known of the key is the answer, and changes nothing.
  pub verify-known :
      (host : Text) (port : ℕ) (key : PublicKey) (tofu : TofuHostKeyVerifier)
      → tofu.poisoned ≡ false
      → Verifier.verify keys crypto tofu.verifier host port key ≢ unknown
      → verify keys crypto host port key tofu
        ≡ (returned (ok (Verifier.verify keys crypto tofu.verifier host port key)), tofu)
  unfolding verify Verifier.verify
  verify-known host port key tofu sound h = ground arith

  remembered-verify :
      (host : Text) (port : ℕ) (key other : PublicKey) (v : KnownHostKeyVerifier)
      (public_key : Text)
      → IsPlainToken (host_token host port)
      → Verifier.verify keys crypto v host port key ≡ unknown
      → Verifier.verify keys crypto (remembered host port key public_key v) host port other
        ≡ (if fingerprint_sha256 key == fingerprint_sha256 other then trusted else changed)
  unfolding Verifier.verify
  remembered-verify host port key other v public_key plain h =
      decision-check keys crypto (remembered host port key public_key v) host port other
      ∙ verdict-append crypto host port (fingerprint_sha256 key) v.known_hosts.entries _
          (sym (decision-check keys crypto v host port key) ∙ h)
          (host_patterns_match-host_token crypto host port plain) refl (fingerprint_sha256 other)

  -- On first use: with the lock sound, a key of which nothing is known for a plain host is trusted
  -- and recorded. From then on a check of that host trusts a key with the same fingerprint, answers
  -- that any other key has changed, and records nothing more.
  pub first_use :
      (host : Text) (port : ℕ) (key : PublicKey) (v : KnownHostKeyVerifier) (public_key : Text)
      → IsPlainToken (host_token host port)
      → to_openssh key ≡ ok public_key
      → Verifier.verify keys crypto v host port key ≡ unknown
      → (other : PublicKey)
      → let first = verify keys crypto host port key (record { verifier = v; poisoned = false }) in
        (first.0 ≡ returned (ok trusted))
        × (verify keys crypto host port other first.1 ≡ (
          returned (
              ok (if fingerprint_sha256 key == fingerprint_sha256 other then trusted else changed)),
          first.1,
        ))
  first_use host port key v public_key plain encodes h other =
      let later : TofuHostKeyVerifier = record {
        verifier = remembered host port key public_key v;
        poisoned = false;
      } in
      let answer = remembered-verify host port key other v public_key plain h in
      rw (verify-unknown host port key v public_key encodes h)
        (refl, rw (← answer) (verify-known host port other later refl (rw answer (ground arith))))
