-- ===== src/Tests/Hosts.antt =====
-- src/core/host_key.rs and src/core/config.rs at concrete inputs.
use xssh_rust_lib.Base.{
  contains, ℕ, Text, codes, true, false, ◌&&◌, ◌||◌, not, [], ◌∷◌, none, some, ok, err, map, retain,
  any, ◌==◌, ◌!=◌, nat_eq, list_eq, list_beq, if◌then◌else◌, ◌≡◌, ◌≢◌, ◌↔◌, refl, arith,
}
use xssh_rust_lib.Base.Str.{starts_with, split, strip_prefix}
use xssh_rust_lib.Error.{SshError}
use xssh_rust_lib.Error.Kind.{ErrorKind}
use xssh_rust_lib.HostKey.Types.{trusted, unknown, changed}
use xssh_rust_lib.HostKey.Keys.{SshKeys}
use xssh_rust_lib.HostKey.Glob.{glob_match}
use xssh_rust_lib.HostKey.Glob.Relation.{Globs}
use xssh_rust_lib.HostKey.Glob.Correct.{glob_match_iff}
use xssh_rust_lib.HostKey.Patterns.{
  HashedNames, host_token, single_host_pattern_matches, patterns_match, host_patterns_match,
}
use xssh_rust_lib.HostKey.Patterns.Laws.{
  IsPlainToken, is_hit, patterns_match_lem, host_patterns_match-host_token,
}
use xssh_rust_lib.HostKey.KnownHosts.{KnownHostEntry, replace_entry}
use xssh_rust_lib.HostKey.KnownHosts.Laws.{rivals, replace_entry_lem}
use xssh_rust_lib.HostKey.Verifier
use xssh_rust_lib.HostKey.Verifier.{KnownHostKeyVerifier}
use xssh_rust_lib.HostKey.Verifier.Verdict.{
  verdict, decision-check, about_host, names_key, observation-check,
}
use xssh_rust_lib.HostKey.Tofu
use xssh_rust_lib.HostKey.Tofu.{returned}
use xssh_rust_lib.HostKey.Tofu.Laws.{first_use}
use xssh_rust_lib.HostKey.Handler.{known_hosts_verifier, check_server_key}
use xssh_rust_lib.HostKey.Handler.Laws.{check_server_key-ok, check_server_key-refusal}
use xssh_rust_lib.Config.{default_config, validate, socket_address}
use xssh_rust_lib.Config.Laws.{IsUsable, validate_iff, read_address, read_address-socket_address}

abbrev keys : SshKeys
keys = record {
  PublicKey = ℕ;
  fingerprint_sha256 = λ key. key ∷ [];
  to_openssh = λ key. ok (key ∷ []);
  read_entry = λ line. err (codes "no entry");
}

abbrev crypto : HashedNames
crypto = record { decode_vec = λ t. none; decode_vec_unpadded = λ t. none; hmac_sha1 = λ key. none }

abbrev nobody : KnownHostKeyVerifier
nobody = record { known_hosts = record { entries = [] } }

abbrev server : Text
server = codes "server"

abbrev stored : KnownHostEntry
stored = record {
  host_patterns = codes "ser*er,!other";
  marker = none;
  fingerprint = 7 ∷ [];
  public_key = 7 ∷ [];
  line = 3;
}

abbrev somebody : KnownHostKeyVerifier
somebody = record { known_hosts = record { entries = stored ∷ [] } }

server_token : host_token server 22 ≡ server
unfolding host_token codes
server_token = refl

server-IsPlainToken : IsPlainToken (host_token server 22)
unfolding host_token strip_prefix codes
server-IsPlainToken = record {
  nonempty = λ e. cc;
  one_pattern =
      (omega arith, (omega arith, (omega arith, (omega arith, (omega arith, (omega arith, tt))))));
  not_negated = refl;
  not_hashed = refl;
}

stored_7 : Verifier.verify keys crypto somebody server 22 7 ≡ trusted
unfolding Verifier.verify host_patterns_match split codes single_host_pattern_matches glob_match
    host_token list_beq
stored_7 = refl

unseen : Verifier.verify keys crypto nobody server 22 7 ≡ unknown
unfolding Verifier.verify host_patterns_match split codes single_host_pattern_matches glob_match
    host_token list_beq
unseen = refl

stored_8 : verdict crypto server 22 (8 ∷ []) (stored ∷ []) ≡ changed
unfolding verdict any host_patterns_match split codes single_host_pattern_matches glob_match
    host_token list_beq
stored_8 = refl

let_in :
    (check_server_key (known_hosts_verifier keys crypto) server 22 7 somebody).0
    ≡ returned (ok true)
unfolding check_server_key Verifier.verify host_patterns_match split codes
    single_host_pattern_matches glob_match host_token list_beq
let_in = refl

glob_match_iff_example :
    (glob_match (codes "a*c?") (codes "abbcd") ≡ true) ↔ Globs (codes "a*c?") (codes "abbcd")
glob_match_iff_example = glob_match_iff (codes "a*c?") (codes "abbcd")

patterns_match_lem_example :
    patterns_match crypto (codes "*" ∷ codes "!server" ∷ []) server false ≡ (
      not (any (is_hit crypto true server) (codes "*" ∷ codes "!server" ∷ []))
      && (false || any (is_hit crypto false server) (codes "*" ∷ codes "!server" ∷ [])))
patterns_match_lem_example =
    patterns_match_lem crypto (codes "*" ∷ codes "!server" ∷ []) server false

host_patterns_match-host_token_example :
    host_patterns_match crypto (host_token server 22) server 22 ≡ true
host_patterns_match-host_token_example =
    host_patterns_match-host_token crypto server 22 server-IsPlainToken

replace_entry_lem_example :
    (retain (rivals stored) (replace_entry stored (record { entries = stored ∷ [] })).entries
      ≡ stored ∷ [])
    × (retain
          (λ existing. not (rivals stored existing))
          (replace_entry stored (record { entries = stored ∷ [] })).entries
        ≡ retain (λ existing. not (rivals stored existing)) (stored ∷ []))
replace_entry_lem_example = replace_entry_lem stored (record { entries = stored ∷ [] }) refl

decision-check_example :
    (Verifier.check keys crypto somebody server 22 7).decision
    ≡ verdict crypto server 22 (7 ∷ []) (stored ∷ [])
decision-check_example = decision-check keys crypto somebody server 22 7

observation-check_example :
    let seen = Verifier.check keys crypto somebody server 22 8 in
    (seen.host ≡ server)
    × (seen.port ≡ 22)
    × (seen.presented_fingerprint ≡ 8 ∷ [])
    × (seen.expected_fingerprints
        ≡ map
            (λ entry. entry.fingerprint)
            (retain (λ entry. about_host crypto server 22 entry && names_key entry) (stored ∷ [])))
    × (seen.matched_lines
        ≡ map
            (λ entry. entry.line)
            (retain (λ entry. about_host crypto server 22 entry && entry.line != 0) (stored ∷ [])))
observation-check_example = observation-check keys crypto somebody server 22 8

first_use_example :
    let first =
      Tofu.verify keys crypto server 22 7 (record { verifier = nobody; poisoned = false }) in
    (first.0 ≡ returned (ok trusted))
    × (Tofu.verify keys crypto server 22 8 first.1 ≡ (
      returned (
          ok (if keys.fingerprint_sha256 7 == keys.fingerprint_sha256 8 then trusted else changed)),
      first.1,
    ))
first_use_example =
    first_use keys crypto server 22 7 nobody (7 ∷ []) server-IsPlainToken refl unseen 8

check_server_key-ok_example :
    ((known_hosts_verifier keys crypto).verify server 22 7 somebody).0 ≡ returned (ok trusted)
    × (true ≡ true)
check_server_key-ok_example =
    check_server_key-ok (known_hosts_verifier keys crypto) server 22 7 somebody let_in

not_trusted : verdict crypto server 22 (8 ∷ []) (stored ∷ []) ≢ trusted
unfolding verdict any host_patterns_match split codes single_host_pattern_matches glob_match
    host_token list_beq
not_trusted e = cc

check_server_key-refusal_example :
    (e : SshError) × (check_server_key (known_hosts_verifier keys crypto) server 22 8 somebody
      ≡ (returned (err e), somebody))
    × (e.kind ≡ ErrorKind.host_key)
    × (e.context.host_key_observation ≡ some (Verifier.check keys crypto somebody server 22 8))
check_server_key-refusal_example =
    check_server_key-refusal keys crypto server 22 8 somebody not_trusted

validate_iff_example :
    (validate (default_config (codes " ") (codes "user")) ≡ ok tt)
    ↔ IsUsable (default_config (codes " ") (codes "user"))
validate_iff_example = validate_iff (default_config (codes " ") (codes "user"))

read_address-socket_address_example :
    read_address (socket_address (default_config (codes "::1") (codes "user")))
    ≡ some (codes "::1", 22)
unfolding contains starts_with codes
read_address-socket_address_example =
    read_address-socket_address (default_config (codes "::1") (codes "user")) refl refl
