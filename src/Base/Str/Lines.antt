-- ===== src/Base/Str/Lines.antt =====
-- `str::lines` of lines that were written one below the other.
use Prim.Native.Nat.{ℕ}
use mathlib.Core.Path.{◌≡◌, refl, sym, ap, subst, ◌∙◌}
use mathlib.Core.Bool.{Bool, true, false}
use mathlib.Core.List.{List, [], ◌∷◌, ◌++◌, append_assoc}
use mathlib.Core.Option.{none, some}
use native.Mathlib.Omega.{arith}
use xssh_rust_lib.Base.Tests.{◌==◌, nat_eq, if◌then◌else◌}
use xssh_rust_lib.Base.Lists.{All, contains}
use xssh_rust_lib.Base.Str.{
  Text, split, prepend_first, join, lines, finish_lines, strip_suffix, split_once,
}

-- Each line with a line feed behind it.
unfoldable pub unlines : List Text → Text
unlines [] = []
unlines (line ∷ rest) = line ++ (0xa ∷ unlines rest)

split_line :
    (line rest : Text)
    → contains line 0xa ≡ false
    → split 0xa (line ++ (0xa ∷ rest)) ≡ line ∷ split 0xa rest
unfolding split contains
split_line [] rest h = refl
split_line (c ∷ line) rest h =
    let others : contains line 0xa ≡ false = ground arith in
    let same : (c == 0xa) ≡ false = ground arith in rw (same, split_line line rest others) refl

first_piece :
    (b : Bool) (c : ℕ) (rest : List Text)
    → (piece : Text) × (pieces : List Text) × ((if b then [] ∷ rest else prepend_first c rest)
        ≡ piece ∷ pieces)
first_piece true c rest = ([], rest, refl)
first_piece false c [] = (c ∷ [], [], refl)
first_piece false c (piece ∷ pieces) = (c ∷ piece, pieces, refl)

split-cons :
    (c : ℕ) (t : Text) → (piece : Text) × (pieces : List Text) × (split c t ≡ piece ∷ pieces)
unfolding split
split-cons c [] = ([], [], refl)
split-cons c (d ∷ t) = first_piece (d == c) d (split c t)

strip_suffix-none : (c : ℕ) (t : Text) → contains t c ≡ false → strip_suffix c t ≡ none
unfolding strip_suffix contains
strip_suffix-none c [] h = refl
strip_suffix-none c (d ∷ []) h = ground arith
strip_suffix-none c (d ∷ e ∷ t) h = ground (arith, strip_suffix-none c (e ∷ t))

pub split_once-none : (c : ℕ) (t : Text) → contains t c ≡ false → split_once c t ≡ none
unfolding split_once contains
split_once-none c [] h = refl
split_once-none c (d ∷ t) h = ground (arith, split_once-none c t)

finish_more :
    (line piece : Text) (pieces rest : List Text)
    → rest ≡ piece ∷ pieces
    → contains line 0xd ≡ false
    → finish_lines (line ∷ rest) ≡ line ∷ finish_lines rest
unfolding finish_lines
finish_more line piece pieces rest same no_return =
    subst (λ r. finish_lines (line ∷ r) ≡ line ∷ finish_lines r) (sym same)
      (ap (λ o. elim o [ none ↦ line | some kept ↦ kept ] ∷ finish_lines (piece ∷ pieces))
        (strip_suffix-none 0xd line no_return))

-- The first line, where another one follows it.
lines_line :
    (line rest : Text)
    → contains line 0xa ≡ false
    → contains line 0xd ≡ false
    → lines (line ++ (0xa ∷ rest)) ≡ line ∷ lines rest
unfolding lines
lines_line line rest no_feed no_return =
    let (piece, pieces, same) = split-cons 0xa rest in
    ap finish_lines (split_line line rest no_feed)
    ∙ finish_more line piece pieces (split 0xa rest) same no_return

-- A line of its own: without a line feed and a carriage return.
abbrev pub IsLine : Text → Type 0
IsLine line = (contains line 0xa ≡ false) × (contains line 0xd ≡ false)

pub lines-unlines : (texts : List Text) → All IsLine texts → lines (unlines texts) ≡ texts
unfolding unlines lines split finish_lines
lines-unlines [] h = refl
lines-unlines (line ∷ rest) ((no_feed, no_return), others) =
    lines_line line (unlines rest) no_feed no_return
    ∙ ap (λ t. line ∷ t) (lines-unlines rest others)

pub join-unlines :
    (line : Text) (rest : List Text)
    → join (0xa ∷ []) (line ∷ rest) ++ (0xa ∷ []) ≡ unlines (line ∷ rest)
unfolding unlines join
join-unlines line [] = refl
join-unlines line (next ∷ rest) =
    append_assoc line (0xa ∷ join (0xa ∷ []) (next ∷ rest)) (0xa ∷ [])
    ∙ ap (λ t. line ++ (0xa ∷ t)) (join-unlines next rest)
