-- ===== src/HostKey/Glob/Correct.antt =====
-- src/core/host_key.rs, `glob_match`: what its answer means.
use native.Mathlib.Numerals.{add-one}
use xssh_rust_lib.Base.{
  ℕ, zero, suc, ◌+◌, ◌≤◌, ◌<◌, Text, true, false, [], ◌∷◌, some, length, get_elem?, set, drop,
  length-set, get_elem?-eq-none, drop-eq-nil, le_of_drop-eq-nil, length-replicate, ◌≡◌, ◌≢◌, refl,
  ◌∙◌, subst, ◌⊎◌, ◌↔◌, inl, inr, arith, Option-cases, ◌==◌, nat_eq, option_eq, ltb, sym, if_cases,
  if◌then◌else◌, ◌||◌, ◌&&◌,
}
use xssh_rust_lib.HostKey.Glob.{Row, is_set, visit, sweep, blank_row, fill, glob_match}
use xssh_rust_lib.HostKey.Glob.Relation.{
  Globs, done, Begins, left_star, in_star, one_char, Globs-inv, Globs-nil,
}
use xssh_rust_lib.HostKey.Glob.Sweep.{
  Marked, Marked-lt-length, Marked-set_self, Marked-set, Marked-set_inv, not-Marked-blank, Sound,
  From, Inv, Inv-leave, Inv-star, Inv-char, drop_tail,
}

ltb→lt : {a b : ℕ} → ltb a b ≡ true → a < b
ltb→lt h = ground arith

ltb→not_lt : {a b : ℕ} → ltb a b ≡ false → ¬ (a < b)
ltb→not_lt h lt = ground arith

-- The test of the last branch finds a character of the candidate that fits.
fits→char :
    (c column : ℕ) (s : Text)
    → (ltb column (length s) && (c == b'?' || some c == get_elem? s column)) ≡ true
    → (x : ℕ) × (get_elem? s column ≡ some x) × ((c ≡ b'?') ⊎ (c ≡ x))
fits→char c column s h = elim (Option-cases (get_elem? s column)) [
  | inl e ↦ absurd (ground (arith, get_elem?-eq-none s column e))
  | inr (x, e) ↦ (x, e, ground arith)
]

no_char :
    (c column : ℕ) (p s : Text)
    → c ≢ b'*'
    → (ltb column (length s) && (c == b'?' || some c == get_elem? s column)) ≡ false
    → Begins c p (drop column s)
    → ⊥
no_char c column p s n h (left_star e _) = n e
no_char c column p s n h (in_star _ _ e _ _) = n e
no_char c column p s n h (one_char x t _ fit e _) =
    let (lt, at, _) = drop_tail s column x t e in ground arith

module _ (G : Type 0) (candidate : Text) where
  -- A `*` whose cell is marked.
  star-Inv :
      {c column : ℕ} {p : Text} (current next : Row)
      → c ≡ b'*'
      → column ≤ length candidate
      → Marked current column
      → Inv G candidate c p column (current, next)
      → Inv G candidate c p (column + 1) (
        if ltb column (length candidate) then set current (column + 1) true else current,
        set next column true,
      )
  star-Inv {c} {column} {p} current next star fits here i =
      if_cases (λ row. Inv G candidate c p (column + 1) (row, set next column true))
        (ltb column (length candidate)) _ _
        (λ h.
          Inv-star G candidate (set current (column + 1) true) star fits here
            (length-set current (column + 1) true) (Marked-set current (column + 1))
            (λ j m. elim (Marked-set_inv current (column + 1) j m) [
              | inl old ↦ inl old
              | inr e ↦ inr (omega arith, ltb→lt h)
            ])
            (λ lt.
              rw (← add-one column) (Marked-set_self current (column + 1) (omega (arith, i.wide))))
            i)
        (λ h.
          Inv-star G candidate current star fits here refl (λ j m. m) (λ j m. inl m)
            (λ lt. absurd (ltb→not_lt h lt)) i)

  -- Another character whose cell is marked.
  char-Inv :
      (c column : ℕ) (p : Text) (current next : Row)
      → c ≢ b'*'
      → Marked current column
      → Inv G candidate c p column (current, next)
      → Inv G candidate c p (column + 1) (
          if ltb column (length candidate) && (c == b'?' || some c == get_elem? candidate column)
          then (current, set next (column + 1) true)
          else (current, next))
  char-Inv c column p current next n here i =
      if_cases (Inv G candidate c p (column + 1)) _ _ _
        (λ h.
          let (x, at, fit) = fits→char c column candidate h in
          Inv-char G candidate n here x at fit i)
        (λ h. Inv-leave G candidate (λ m d. no_char c column p candidate n h (Globs-inv d)) i)

  visit-Inv :
      (c column : ℕ) (p : Text) (rows : Row × Row)
      → column ≤ length candidate
      → Inv G candidate c p column rows
      → Inv G candidate c p (column + 1) (visit c candidate column rows)
  unfolding visit
  visit-Inv c column p (current, next) fits i =
      if_cases (Inv G candidate c p (column + 1)) (is_set current column) _ _
        (λ here.
          if_cases (Inv G candidate c p (column + 1)) (c == b'*') _ _
            (λ e. star-Inv current next (ground arith) fits here i)
            (λ n. char-Inv c column p current next (λ e. ground arith) here i))
        (λ h. Inv-leave G candidate (λ m d. ground arith) i)

  sweep-Inv :
      (c column left : ℕ) (p : Text) (rows : Row × Row)
      → column + left ≡ length candidate + 1
      → Inv G candidate c p column rows
      → Inv G candidate c p (length candidate + 1) (sweep c candidate column left rows)
  unfolding sweep
  sweep-Inv c column zero p rows e i = subst (λ k. Inv G candidate c p k rows) (omega arith) i
  sweep-Inv c column (suc left) p rows e i =
      sweep-Inv c (column + 1) left p (visit c candidate column rows) (omega arith)
        (visit-Inv c column p rows (omega arith) i)

  -- The empty pattern matches at the last column only.
  last_cell :
      (row : Row)
      → length row ≡ length candidate + 1
      → From G candidate 0 row []
      → Marked row (length candidate)
  last_cell row wide (j, _, m, d) =
      subst (Marked row)
        (omega (arith, le_of_drop-eq-nil candidate j (Globs-nil d), Marked-lt-length row j m)) m

  -- No cell is left behind the last column.
  beyond :
      {c : ℕ} {p : Text} (current next : Row)
      → length current ≡ length candidate + 1
      → From G candidate (length candidate + 1) current (c ∷ p) ⊎ From G candidate 0 next p
      → From G candidate 0 next p
  beyond current next wide (inl (j, le, m, _)) =
      absurd (omega (arith, Marked-lt-length current j m))
  beyond current next wide (inr found) = found

  fill_iff :
      (p : Text) (row : Row)
      → length row ≡ length candidate + 1
      → Sound G candidate row p
      → (G → From G candidate 0 row p)
      → (Marked (fill p candidate row) (length candidate)) ↔ G
  unfolding fill
  fill_iff [] row wide sound complete = (
    λ m.
        sound (length candidate) m
          (rw (drop-eq-nil candidate (length candidate) (omega arith)) done),
    λ g. last_cell row wide (complete g),
  )
  fill_iff (c ∷ p) row wide sound complete =
      let i =
        sweep-Inv c 0 (length candidate + 1) p (row, blank_row candidate) (omega arith)
          (record {
            wide = wide;
            next_wide = unfold blank_row in length-replicate (length candidate + 1) false;
            now = sound;
            later = λ j m. absurd (not-Marked-blank candidate j m);
            complete = λ g. inl (complete g);
          }) in
      fill_iff p _ i.next_wide i.later (λ g. beyond _ _ i.wide (i.complete g))

-- `glob_match` answers true exactly when the pattern, read as a relation, matches the candidate:
-- the table misses no way to spread a `*`, and finds no match that is not there.
pub glob_match_iff :
    (pattern candidate : Text) → (glob_match pattern candidate ≡ true) ↔ Globs pattern candidate
unfolding glob_match
glob_match_iff pattern candidate =
    let blank = blank_row candidate in
    let wide : length blank ≡ length candidate + 1 =
      unfold blank_row in length-replicate (length candidate + 1) false in
    fill_iff (Globs pattern candidate) candidate pattern (set blank 0 true)
      (length-set blank 0 true ∙ wide)
      (λ j m d. elim (Marked-set_inv blank 0 j m) [
        | inl old ↦ absurd (not-Marked-blank candidate j old)
        | inr e ↦ subst (λ k. Globs pattern (drop k candidate)) (sym e) d
      ])
      (λ g. (0, omega arith, Marked-set_self blank 0 (omega (arith, wide)), g))
