-- ===== src/Base/Str.antt =====
-- Rust's `String` and `&str` as the list of their characters, each by its code point, and the
-- methods of `str` that the crate uses.
pub mod Blank
pub mod Decimal
pub mod Utf8
pub mod Lines
use Prim.Native.Nat.{ℕ, zero, suc, ◌+◌}
use Prim.Native.Char.{code}
use Prim.Native.String.{String}
use mathlib.Core.Bool.{Bool, true, false, ◌&&◌, ◌||◌}
use mathlib.Core.List.{List, [], ◌∷◌, ◌++◌}
use mathlib.Core.Option.{Option, none, some}
use xssh_rust_lib.Base.Tests.{ltb, leb, ◌==◌, nat_eq, if◌then◌else◌}
use xssh_rust_lib.Base.Lists.{is_empty}

abbrev pub Text : Type 0
Text = List ℕ

-- The characters of a literal.
unfoldable pub codes : String → Text
codes String.[] = []
codes (String.◌∷◌ c s) = code c ∷ codes s

-- `char::is_whitespace`: Unicode White_Space.
unfoldable pub is_whitespace : ℕ → Bool
is_whitespace c =
    (leb 0x9 c && leb c 0xd)
    || c == 0x20
    || c == 0x85
    || c == 0xa0
    || c == 0x1680
    || (leb 0x2000 c && leb c 0x200a)
    || c == 0x2028
    || c == 0x2029
    || c == 0x202f
    || c == 0x205f
    || c == 0x3000

unfoldable pub trim_start : Text → Text
trim_start [] = []
trim_start (c ∷ t) = let rest = trim_start t in if is_whitespace c then rest else c ∷ t

unfoldable pub trim_end : Text → Text
trim_end [] = []
trim_end (c ∷ t) =
    let rest = trim_end t in if is_empty rest && is_whitespace c then [] else c ∷ rest

unfoldable pub trim : Text → Text
unfolding trim_start trim_end is_whitespace
trim t = trim_end (trim_start t)

unfoldable pub starts_with : ℕ → Text → Bool
starts_with c [] = false
starts_with c (d ∷ t) = d == c

-- `str::strip_prefix` of a string pattern.
unfoldable pub strip_prefix : Text → Text → Option Text
strip_prefix [] t = some t
strip_prefix (c ∷ p) [] = none
strip_prefix (c ∷ p) (d ∷ t) = if d == c then strip_prefix p t else none

-- `str::strip_suffix` of a character.
unfoldable pub strip_suffix : ℕ → Text → Option Text
strip_suffix c [] = none
strip_suffix c (d ∷ []) = if d == c then some [] else none
strip_suffix c (d ∷ e ∷ t) = elim (strip_suffix c (e ∷ t)) [
  | none ↦ none
  | some rest ↦ some (d ∷ rest)
]

-- `str::split_once` of a character.
unfoldable pub split_once : ℕ → Text → Option (Text × Text)
split_once c [] = none
split_once c (d ∷ t) =
    let rest = split_once c t in
    if d == c then some ([], t) else elim rest [ none ↦ none | some (a, b) ↦ some (d ∷ a, b) ]

abbrev prepend_first : ℕ → List Text → List Text
prepend_first c [] = (c ∷ []) ∷ []
prepend_first c (piece ∷ pieces) = (c ∷ piece) ∷ pieces

-- `str::split` of a character: always at least one piece.
unfoldable pub split : ℕ → Text → List Text
split c [] = [] ∷ []
split c (d ∷ t) = let rest = split c t in if d == c then [] ∷ rest else prepend_first d rest

-- `[T]::join`
unfoldable pub join : Text → List Text → Text
join separator [] = []
join separator (piece ∷ []) = piece
join separator (piece ∷ next ∷ pieces) = piece ++ (separator ++ join separator (next ∷ pieces))

-- `str::contains` of a string.
unfoldable pub contains_text : Text → Text → Bool
unfolding strip_prefix
contains_text p [] = is_empty p
contains_text p (c ∷ t) =
    let rest = contains_text p t in elim (strip_prefix p (c ∷ t)) [ none ↦ rest | some _ ↦ true ]

unfoldable pub to_ascii_lowercase : Text → Text
to_ascii_lowercase [] = []
to_ascii_lowercase (c ∷ t) = (if leb b'A' c && leb c b'Z' then c + 32 else c) ∷ to_ascii_lowercase t

abbrev without_cr : Text → Text
without_cr line = elim (strip_suffix 0xd line) [ none ↦ line | some rest ↦ rest ]

finish_lines : List Text → List Text
finish_lines [] = []
finish_lines (piece ∷ []) = if is_empty piece then [] else piece ∷ []
finish_lines (piece ∷ next ∷ pieces) = without_cr piece ∷ finish_lines (next ∷ pieces)

-- `str::lines`: a line ends with a line feed, or a carriage return and a line feed; the last line
-- may lack it.
unfoldable pub lines : Text → List Text
unfolding finish_lines split strip_suffix
lines t = finish_lines (split 0xa t)
