-- ===== src/HostKey/Patterns/Laws.antt =====
-- src/core/host_key.rs: what a list of patterns matches, whatever the order in which the loop of
-- `host_patterns_match` meets them, and which hosts are matched by their own token.
use xssh_rust_lib.Base.{
  ℕ, Text, codes, Bool, true, false, not, ◌&&◌, ◌||◌, List, [], ◌∷◌, none, is_empty, any, All,
  nat_eq, ◌≡◌, ◌≢◌, refl, arith, inr, if◌then◌else◌,
}
use xssh_rust_lib.Base.Str.{split, strip_prefix}
use xssh_rust_lib.HostKey.Glob.Relation.{Globs, done, single, skip, grow}
use xssh_rust_lib.HostKey.Glob.Correct.{glob_match_iff}
use xssh_rust_lib.HostKey.Patterns.{
  HashedNames, negation, single_host_pattern_matches, patterns_match, host_patterns_match,
  host_token,
}
use native.Mathlib.Decide.{ℕ_discrete}

-- A pattern of the given sign that matches the candidate.
unfoldable pub is_hit : HashedNames → Bool → Text → Text → Bool
is_hit crypto negative candidate pattern =
    let (sign, bare) = negation crypto pattern in
    not (is_empty pattern)
    && (if negative then sign else not sign)
    && single_host_pattern_matches crypto bare candidate

module _ (crypto : HashedNames) where
  -- A list matches when some plain pattern does and no negated one does, in whatever order.
  pub patterns_match_lem :
      (patterns : List Text) (candidate : Text) (positive : Bool)
      → patterns_match crypto patterns candidate positive ≡ (
          not (any (is_hit crypto true candidate) patterns)
          && (positive || any (is_hit crypto false candidate) patterns))
  unfolding patterns_match is_hit any
  patterns_match_lem [] candidate positive = ground arith
  patterns_match_lem (pattern ∷ patterns) candidate positive = ground (
    arith,
    patterns_match_lem patterns candidate true,
    patterns_match_lem patterns candidate positive,
  )

Globs-refl : (t : Text) → Globs t t
Globs-refl [] = done
Globs-refl (c ∷ t) = elim (ℕ_discrete c b'*') [
  | yes e ↦ grow e (skip e (Globs-refl t))
  | no n ↦ single n (inr refl) (Globs-refl t)
]

abbrev pub LacksComma : Text → Type 0
LacksComma t = All (λ c. c ≢ b',') t

split-LacksComma : (t : Text) → LacksComma t → split b',' t ≡ t ∷ []
unfolding split
split-LacksComma [] h = refl
split-LacksComma (c ∷ t) h = ground (arith, split-LacksComma t h.1)

-- A token that is one pattern, and neither a negated nor a hashed one.
pub record IsPlainToken (token : Text) : Type 0 where
  pub nonempty : token ≢ []
  pub one_pattern : LacksComma token
  pub not_negated : strip_prefix (b'!' ∷ []) token ≡ none
  pub not_hashed : strip_prefix (codes "|1|") token ≡ none

single_host_pattern_matches_self :
    (crypto : HashedNames) (token : Text)
    → strip_prefix (codes "|1|") token ≡ none
    → single_host_pattern_matches crypto token token ≡ true
unfolding single_host_pattern_matches
single_host_pattern_matches_self crypto token h =
    ground (arith, (glob_match_iff token token).1 (Globs-refl token))

patterns_match_self :
    (crypto : HashedNames) (token : Text)
    → IsPlainToken token
    → patterns_match crypto (token ∷ []) token false ≡ true
unfolding patterns_match
patterns_match_self crypto [] plain = absurd (plain.nonempty refl)
patterns_match_self crypto (c ∷ token) plain =
    ground (arith, single_host_pattern_matches_self crypto (c ∷ token) plain.not_hashed)

-- A host is matched by the token under which it is stored, where that is a plain token: not empty,
-- with no comma, and neither negated nor hashed.
pub host_patterns_match-host_token :
    (crypto : HashedNames) (host : Text) (port : ℕ)
    → IsPlainToken (host_token host port)
    → host_patterns_match crypto (host_token host port) host port ≡ true
unfolding host_patterns_match
host_patterns_match-host_token crypto host port plain =
    rw (split-LacksComma (host_token host port) plain.one_pattern)
      (patterns_match_self crypto (host_token host port) plain)
