-- ===== src/Base/Str/Utf8.antt =====
-- `str::as_bytes` and `String::from_utf8`.
use Prim.Native.Nat.{ℕ, zero, suc, ◌+◌, ◌-◌, ◌*◌, ◌/◌, ◌%◌, ◌≤◌, ◌<◌}
use mathlib.Core.Path.{◌≡◌, refl}
use mathlib.Core.Logic.{◌⊎◌}
use mathlib.Core.Bool.{Bool, ◌&&◌, ◌||◌}
use mathlib.Core.List.{List, [], ◌∷◌}
use mathlib.Core.Option
use mathlib.Core.Option.{Option, none, some}
use native.Mathlib.Omega.{arith}
use xssh_rust_lib.Base.Tests.{ltb, leb, if◌then◌else◌}
use xssh_rust_lib.Base.Lists.{All, length}
use xssh_rust_lib.Base.Str.{Text}

-- A Unicode scalar value, what a Rust `char` holds.
abbrev pub IsScalar : ℕ → Type 0
IsScalar c = (c < 0xd800) ⊎ ((0xe000 ≤ c) × (c < 0x110000))

abbrev continuation : ℕ → ℕ
continuation n = 0x80 + n % 64

encode_char : ℕ → List ℕ → List ℕ
encode_char c rest =
    if ltb c 0x80
    then c ∷ rest
    else if ltb c 0x800
    then (0xc0 + c / 64) ∷ continuation c ∷ rest
    else if ltb c 0x10000
    then (0xe0 + c / 4096) ∷ continuation (c / 64) ∷ continuation c ∷ rest
    else (0xf0 + c / 262144)
      ∷ continuation (c / 4096)
      ∷ continuation (c / 64)
      ∷ continuation c
      ∷ rest

unfoldable pub as_bytes : Text → List ℕ
unfolding encode_char
as_bytes [] = []
as_bytes (c ∷ t) = encode_char c (as_bytes t)

is_continuation : ℕ → Bool
is_continuation b = leb 0x80 b && leb b 0xbf

-- A decoded character is refused where a shorter form would do, where it is a surrogate, and above
-- the last code point.
checked : ℕ → ℕ → List ℕ → Option (ℕ × List ℕ)
checked least c rest =
    if ltb c least || (leb 0xd800 c && leb c 0xdfff) || ltb 0x10ffff c then none else some (c, rest)

decode_char : List ℕ → Option (ℕ × List ℕ)
unfolding is_continuation checked
decode_char [] = none
decode_char (a ∷ []) = if ltb a 0x80 then some (a, []) else none
decode_char (a ∷ b ∷ []) =
    if ltb a 0x80
    then some (a, b ∷ [])
    else if leb 0xc0 a && ltb a 0xe0 && is_continuation b
    then checked 0x80 ((a - 0xc0) * 64 + (b - 0x80)) []
    else none
decode_char (a ∷ b ∷ c ∷ []) =
    if ltb a 0x80
    then some (a, b ∷ c ∷ [])
    else if leb 0xc0 a && ltb a 0xe0 && is_continuation b
    then checked 0x80 ((a - 0xc0) * 64 + (b - 0x80)) (c ∷ [])
    else if leb 0xe0 a && ltb a 0xf0 && is_continuation b && is_continuation c
    then checked 0x800 ((a - 0xe0) * 4096 + (b - 0x80) * 64 + (c - 0x80)) []
    else none
decode_char (a ∷ b ∷ c ∷ d ∷ rest) =
    if ltb a 0x80
    then some (a, b ∷ c ∷ d ∷ rest)
    else if leb 0xc0 a && ltb a 0xe0 && is_continuation b
    then checked 0x80 ((a - 0xc0) * 64 + (b - 0x80)) (c ∷ d ∷ rest)
    else if leb 0xe0 a && ltb a 0xf0 && is_continuation b && is_continuation c
    then checked 0x800 ((a - 0xe0) * 4096 + (b - 0x80) * 64 + (c - 0x80)) (d ∷ rest)
    else if leb 0xf0 a && ltb a 0xf8 && is_continuation b && is_continuation c && is_continuation d
    then checked 0x10000 ((a - 0xf0) * 262144 + (b - 0x80) * 4096 + (c - 0x80) * 64 + (d - 0x80))
        rest
    else none

-- Every round takes a byte at least, so as much fuel as there are bytes is enough.
decode : ℕ → List ℕ → Option Text
decode fuel [] = some []
decode zero (b ∷ bytes) = none
decode (suc fuel) (b ∷ bytes) = elim (decode_char (b ∷ bytes)) [
  | none ↦ none
  | some (c, rest) ↦ Option.map (λ t. c ∷ t) (decode fuel rest)
]

unfoldable pub from_utf8 : List ℕ → Option Text
unfolding decode decode_char
from_utf8 bytes = decode (length bytes) bytes

decode-encode_char :
    (c : ℕ) (rest : List ℕ) → IsScalar c → decode_char (encode_char c rest) ≡ some (c, rest)
unfolding decode_char encode_char
decode-encode_char c [] h = ground arith
decode-encode_char c (a ∷ []) h = ground arith
decode-encode_char c (a ∷ b ∷ []) h = ground arith
decode-encode_char c (a ∷ b ∷ d ∷ rest) h = ground arith

decode_step :
    (fuel c : ℕ) (bytes rest : List ℕ)
    → decode_char bytes ≡ some (c, rest)
    → decode (suc fuel) bytes ≡ Option.map (λ t. c ∷ t) (decode fuel rest)
unfolding decode
decode_step fuel c [] rest h = unfold decode_char in cc
decode_step fuel c (b ∷ bytes) rest h = rw (h, decode)

length-encode_char : (c : ℕ) (rest : List ℕ) → length rest < length (encode_char c rest)
unfolding encode_char
length-encode_char c rest = ground arith

decode-as_bytes :
    (t : Text) (fuel : ℕ)
    → All IsScalar t
    → length (as_bytes t) ≤ fuel
    → decode fuel (as_bytes t) ≡ some t
unfolding as_bytes
decode-as_bytes [] zero h le = unfold decode in refl
decode-as_bytes [] (suc fuel) h le = unfold decode in refl
decode-as_bytes (c ∷ t) zero h le = absurd (omega (arith, length-encode_char c (as_bytes t)))
decode-as_bytes (c ∷ t) (suc fuel) h le =
    rw (decode_step fuel c _ _ (decode-encode_char c (as_bytes t) h.0))
      (rw (decode-as_bytes t fuel h.1 (omega (arith, length-encode_char c (as_bytes t)))))

-- A text is read back from its bytes.
pub from_utf8-as_bytes : (t : Text) → All IsScalar t → from_utf8 (as_bytes t) ≡ some t
from_utf8-as_bytes t h = unfold from_utf8 in decode-as_bytes t (length (as_bytes t)) h (omega arith)
