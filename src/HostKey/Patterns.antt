-- ===== src/HostKey/Patterns.antt =====
-- src/core/host_key.rs: the token under which a host is stored, and the pattern lists that it is
-- matched against. Base64 and HMAC are other crates: `HashedNames` takes them as parameters.
pub mod Laws
use xssh_rust_lib.Base.{
  ℕ, Text, codes, Bool, true, false, List, [], ◌∷◌, ◌++◌, Option, none, some, is_empty, ◌==◌,
  nat_eq, list_eq, if◌then◌else◌,
}
use xssh_rust_lib.Base.Str.{strip_prefix, strip_suffix, split, split_once}
use xssh_rust_lib.Base.Str.Decimal.{to_decimal}
use xssh_rust_lib.Base.Str.Utf8.{as_bytes}
use xssh_rust_lib.HostKey.Glob.{glob_match}

-- The `base64ct` decoders, and the tag that the `hmac` crate computes with a key, where it takes
-- the key.
pub record HashedNames : Type 0 where
  pub decode_vec : Text → Option (List ℕ)
  pub decode_vec_unpadded : Text → Option (List ℕ)
  pub hmac_sha1 : List ℕ → Option (List ℕ → List ℕ)

abbrev or_else {ℓ} : {A : Type ℓ} → Option A → Option A → Option A
or_else none b = b
or_else (some a) b = some a

abbrev bare_host : Text → Text
bare_host host = elim (strip_prefix (b'[' ∷ []) host) [
  | none ↦ host
  | some inner ↦ elim (strip_suffix b']' inner) [ none ↦ host | some name ↦ name ]
]

unfoldable pub host_token : Text → ℕ → Text
unfolding strip_prefix strip_suffix
host_token host port =
    if port == 22 then bare_host host else b'[' ∷ bare_host host ++ (b']' ∷ b':' ∷ to_decimal port)

module _ (crypto : HashedNames) where
  decode_base64 : Text → Option (List ℕ)
  decode_base64 value = or_else (crypto.decode_vec value) (crypto.decode_vec_unpadded value)

  verify_mac : Option (List ℕ) → Option (List ℕ) → List ℕ → Bool
  verify_mac (some salt) (some expected) message = elim (crypto.hmac_sha1 salt) [
    | none ↦ false
    | some tag ↦ tag message == expected
  ]
  verify_mac _ _ message = false

  hashed_matches : Text → Text → Bool
  unfolding decode_base64 verify_mac split_once
  hashed_matches hashed candidate = elim (split_once b'|' hashed) [
    | none ↦ false
    | some (salt, expected) ↦
        verify_mac (decode_base64 salt) (decode_base64 expected) (as_bytes candidate)
  ]

  unfoldable pub single_host_pattern_matches : Text → Text → Bool
  unfolding hashed_matches strip_prefix codes
  single_host_pattern_matches pattern candidate = elim (strip_prefix (codes "|1|") pattern) [
    | none ↦ glob_match pattern candidate
    | some hashed ↦ hashed_matches hashed candidate
  ]

  -- the pattern without its `!`, and whether it had one
  abbrev pub negation : Text → Bool × Text
  negation pattern = elim (strip_prefix (b'!' ∷ []) pattern) [
    | none ↦ (false, pattern)
    | some rest ↦ (true, rest)
  ]

  -- The loop over the patterns of an entry: a negated match ends it.
  unfoldable pub patterns_match : List Text → Text → Bool → Bool
  unfolding strip_prefix
  patterns_match [] candidate positive = positive
  patterns_match (pattern ∷ patterns) candidate positive =
      let on_match = patterns_match patterns candidate true in
      let on_miss = patterns_match patterns candidate positive in
      let (negative, bare) = negation pattern in
      if is_empty pattern
      then on_miss
      else if single_host_pattern_matches bare candidate
      then (if negative then false else on_match)
      else on_miss

  unfoldable pub host_patterns_match : Text → Text → ℕ → Bool
  unfolding patterns_match
  host_patterns_match patterns host port =
      patterns_match (split b',' patterns) (host_token host port) false
