-- ===== src/HostKey/Glob.antt =====
-- src/core/host_key.rs, `glob_match`: `*` and `?` patterns by a table over the characters of the
-- pattern and of the candidate. Only two rows of the table are in use at a time: the one that a
-- pattern character reads, and the next, which no character before it has written.
pub mod Relation
mod Sweep
pub mod Correct
use xssh_rust_lib.Base.{
  ℕ, zero, suc, ◌+◌, Text, Bool, true, false, ◌&&◌, ◌||◌, List, [], ◌∷◌, Option, none, some, length,
  get_elem?, set, replicate, ltb, ◌==◌, nat_eq, option_eq, if◌then◌else◌,
}

abbrev pub Row : Type 0
Row = List Bool

-- `table[row][column]`; the code reads no cell outside the row.
unfoldable pub is_set : Row → ℕ → Bool
is_set row column = elim (get_elem? row column) [ none ↦ false | some cell ↦ cell ]

-- The body of the inner loop: what one cell of the current row sets.
unfoldable pub visit : ℕ → Text → ℕ → Row × Row → Row × Row
unfolding is_set
visit character candidate column (current, next) =
    if is_set current column
    then (if character == b'*'
        then (
          if ltb column (length candidate) then set current (column + 1) true else current,
          set next column true,
        )
        else if ltb column (length candidate)
            && (character == b'?' || some character == get_elem? candidate column)
        then (current, set next (column + 1) true)
        else (current, next))
    else (current, next)

-- `for column in 0..=candidate.len()`, from `column` on
unfoldable pub sweep : ℕ → Text → ℕ → ℕ → Row × Row → Row × Row
sweep character candidate column zero rows = rows
sweep character candidate column (suc left) rows =
    sweep character candidate (column + 1) left (visit character candidate column rows)

unfoldable pub blank_row : Text → Row
blank_row candidate = replicate (length candidate + 1) false

-- `for (row, character) in pattern.iter().enumerate()`: the last row of the table
unfoldable pub fill : Text → Text → Row → Row
unfolding sweep visit blank_row
fill [] candidate row = row
fill (character ∷ pattern) candidate row =
    fill pattern candidate
      (sweep character candidate 0 (length candidate + 1) (row, blank_row candidate)).1

unfoldable pub glob_match : Text → Text → Bool
unfolding fill is_set blank_row
glob_match pattern candidate =
    is_set (fill pattern candidate (set (blank_row candidate) 0 true)) (length candidate)
