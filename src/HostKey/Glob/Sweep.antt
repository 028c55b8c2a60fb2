-- ===== src/HostKey/Glob/Sweep.antt =====
-- One row of the table of `glob_match`: what the cells mean is kept by every visit of a cell.
-- `G` is the question asked at the start, whether the whole pattern matches the candidate.
use xssh_rust_lib.Base.{
  ℕ, zero, suc, ◌+◌, ◌≤◌, ◌<◌, Text, true, false, [], ◌∷◌, some, length, get_elem?, set, drop,
  length-set, replicate, get_elem?-replicate, get_elem?-eq-none, drop-eq-cons, ◌≡◌, ◌≢◌, refl, sym,
  ap, ◌∙◌, ◌⊎◌, inl, inr, arith, Option-cases, get_elem?-lt-length, nat_eq, dec_lt, subst,
}
use native.Mathlib.Numerals.{add-one}
use xssh_rust_lib.HostKey.Glob.{Row, is_set, blank_row}
use xssh_rust_lib.HostKey.Glob.Relation.{
  Globs, skip, grow, single, Begins, left_star, in_star, one_char, Globs-inv,
}

abbrev pub Marked : Row → ℕ → Type 0
Marked row j = is_set row j ≡ true

pub Marked-lt-length : (row : Row) (j : ℕ) → Marked row j → j < length row
unfolding is_set
Marked-lt-length row j h = elim (Option-cases (get_elem? row j)) [
  | inl e ↦ cc
  | inr (b, e) ↦ get_elem?-lt-length row j e
]

pub Marked-set_self : (row : Row) (i : ℕ) → i < length row → Marked (set row i true) i
unfolding is_set
Marked-set_self [] i h = elim h [ ]
Marked-set_self (b ∷ row) zero h = refl
Marked-set_self (b ∷ row) (suc i) h = Marked-set_self row i (omega arith)

pub Marked-set : (row : Row) (i j : ℕ) → Marked row j → Marked (set row i true) j
unfolding is_set
Marked-set [] i j h = h
Marked-set (b ∷ row) zero zero h = refl
Marked-set (b ∷ row) zero (suc j) h = h
Marked-set (b ∷ row) (suc i) zero h = h
Marked-set (b ∷ row) (suc i) (suc j) h = Marked-set row i j h

pub Marked-set_inv : (row : Row) (i j : ℕ) → Marked (set row i true) j → Marked row j ⊎ (i ≡ j)
unfolding is_set
Marked-set_inv [] i j h = inl h
Marked-set_inv (b ∷ row) zero zero h = inr refl
Marked-set_inv (b ∷ row) zero (suc j) h = inl h
Marked-set_inv (b ∷ row) (suc i) zero h = inl h
Marked-set_inv (b ∷ row) (suc i) (suc j) h = elim (Marked-set_inv row i j h) [
  | inl m ↦ inl m
  | inr e ↦ inr (ap suc e)
]

pub not-Marked-blank : (candidate : Text) (j : ℕ) → ¬ Marked (blank_row candidate) j
unfolding is_set blank_row
not-Marked-blank s j h = elim (Option-cases (get_elem? (replicate (length s + 1) false) j)) [
  | inl e ↦ cc
  | inr (b, e) ↦ cc (get_elem?-replicate (length s + 1) j false b e)
]

-- The character at a column inside the candidate.
char_at : (s : Text) (j : ℕ) → j < length s → (x : ℕ) × (get_elem? s j ≡ some x)
char_at s j h = elim (Option-cases (get_elem? s j)) [
  | inl e ↦ absurd (omega (arith, get_elem?-eq-none s j e))
  | inr found ↦ found
]

-- A star that matches from the next column on matches from this one.
Globs-grow :
    {c : ℕ} (p s : Text) (j : ℕ)
    → c ≡ b'*'
    → j < length s
    → Globs (c ∷ p) (drop (suc j) s)
    → Globs (c ∷ p) (drop j s)
Globs-grow p s j star h d = let (x, e) = char_at s j h in rw (drop-eq-cons s j e) (grow star d)

-- What is left from a column on is one character and what is left from the next.
pub drop_tail :
    (s : Text) (j x : ℕ) (t : Text)
    → drop j s ≡ x ∷ t
    → (j < length s) × (get_elem? s j ≡ some x) × (drop (suc j) s ≡ t)
drop_tail [] zero x t h = cc
drop_tail [] (suc j) x t h = cc
drop_tail (y ∷ s) zero x t h = ground arith
drop_tail (y ∷ s) (suc j) x t h = let (lt, e, r) = drop_tail s j x t h in (omega arith, e, r)

module _ (G : Type 0) (candidate : Text) where
  -- Marked cells may be marked: a match of the rest of the pattern from there answers `G`.
  abbrev pub Sound : Row → Text → Type 0
  Sound row pattern = (j : ℕ) → Marked row j → Globs pattern (drop j candidate) → G

  abbrev pub From : ℕ → Row → Text → Type 0
  From column row pattern = (j : ℕ) × (column ≤ j) × Marked row j × Globs pattern (drop j candidate)

  pub record Inv (c : ℕ) (p : Text) (column : ℕ) (rows : Row × Row) : Type 0 where
    pub wide : length rows.0 ≡ length candidate + 1
    pub next_wide : length rows.1 ≡ length candidate + 1
    pub now : Sound rows.0 (c ∷ p)
    pub later : Sound rows.1 p
    pub complete : G → From column rows.0 (c ∷ p) ⊎ From 0 rows.1 p

  -- A cell that is not marked, or whose character does not fit, leaves the rows as they are.
  pub Inv-leave :
      {c column : ℕ} {p : Text} {current next : Row}
      → (Marked current column → Globs (c ∷ p) (drop column candidate) → ⊥)
      → Inv c p column (current, next)
      → Inv c p (column + 1) (current, next)
  Inv-leave {c} {column} {p} {current} {next} no_match i = record {
    wide = i.wide;
    next_wide = i.next_wide;
    now = i.now;
    later = i.later;
    complete = λ g. elim (i.complete g) [
      | inl (j, le, m, d) ↦ inl (j, move_on j le m d, m, d)
      | inr found ↦ inr found
    ];
  }
    where
      move_on :
          (j : ℕ)
          → column ≤ j
          → Marked current j
          → Globs (c ∷ p) (drop j candidate)
          → column + 1 ≤ j
      move_on j le m d = elim (dec_lt column j) [
        | yes h ↦ omega arith
        | no h ↦
            let e : j ≡ column = omega arith in
            absurd (
              no_match (subst (Marked current) e m)
                (subst (λ k. Globs (c ∷ p) (drop k candidate)) e d))
      ]

  -- `*` lets the rest of the pattern begin here, and may take one more character.
  pub Inv-star :
      {c column : ℕ} {p : Text} {current next : Row} (wider : Row)
      → c ≡ b'*'
      → column ≤ length candidate
      → Marked current column
      → length wider ≡ length current
      → ((j : ℕ) → Marked current j → Marked wider j)
      → ((j : ℕ)
          → Marked wider j
          → Marked current j ⊎ ((j ≡ suc column) × (column < length candidate)))
      → (column < length candidate → Marked wider (suc column))
      → Inv c p column (current, next)
      → Inv c p (column + 1) (wider, set next column true)
  Inv-star {c} {column} {p} {current} {next} wider star fits here same_length keep new more i =
      record {
        wide = same_length ∙ i.wide;
        next_wide = length-set next column true ∙ i.next_wide;
        now = λ j m d. elim (new j m) [
          | inl old ↦ i.now j old d
          | inr (e, lt) ↦ i.now column here (
              Globs-grow p candidate column star lt
                (subst (λ k. Globs (c ∷ p) (drop k candidate)) e d))
        ];
        later = λ j m d. elim (Marked-set_inv next column j m) [
          | inl old ↦ i.later j old d
          | inr e ↦
              i.now column here (skip star (subst (λ k. Globs p (drop k candidate)) (sym e) d))
        ];
        complete = λ g. elim (i.complete g) [
          | inl (j, le, m, d) ↦ onward j le m d
          | inr (j, le, m, d) ↦ inr (j, le, Marked-set next column j m, d)
        ];
      }
    where
      at_here :
          Begins c p (drop column candidate)
          → From (column + 1) wider (c ∷ p) ⊎ From 0 (set next column true) p
      at_here (left_star _ d) =
          inr (column, omega arith, Marked-set_self next column (omega (arith, i.next_wide)), d)
      at_here (in_star x t _ e d) =
          let (lt, _, rest) = drop_tail candidate column x t e in
          inl (suc column, omega arith, more lt, rw rest d)
      at_here (one_char x t n _ _ _) = absurd (n star)

      onward :
          (j : ℕ)
          → column ≤ j
          → Marked current j
          → Globs (c ∷ p) (drop j candidate)
          → From (column + 1) wider (c ∷ p) ⊎ From 0 (set next column true) p
      onward j le m d = elim (dec_lt column j) [
        | yes h ↦ inl (j, omega arith, keep j m, d)
        | no h ↦ at_here (Globs-inv (subst (λ k. Globs (c ∷ p) (drop k candidate)) (omega arith) d))
      ]

  -- A character that fits lets the rest of the pattern begin at the next column.
  pub Inv-char :
      {c column : ℕ} {p : Text} {current next : Row}
      → c ≢ b'*'
      → Marked current column
      → (x : ℕ) → get_elem? candidate column ≡ some x
      → (c ≡ b'?') ⊎ (c ≡ x)
      → Inv c p column (current, next)
      → Inv c p (column + 1) (current, set next (column + 1) true)
  Inv-char {c} {column} {p} {current} {next} n here x at fit i = record {
    wide = i.wide;
    next_wide = length-set next (column + 1) true ∙ i.next_wide;
    now = i.now;
    later = λ j m d. elim (Marked-set_inv next (column + 1) j m) [
      | inl old ↦ i.later j old d
      | inr e ↦ i.now column here (
          rw (drop-eq-cons candidate column at)
            (single n fit (subst (λ k. Globs p (drop k candidate)) (sym e ∙ add-one column) d)))
    ];
    complete = λ g. elim (i.complete g) [
      | inl (j, le, m, d) ↦ onward j le m d
      | inr (j, le, m, d) ↦ inr (j, le, Marked-set next (column + 1) j m, d)
    ];
  }
    where
      at_here :
          Begins c p (drop column candidate)
          → From (column + 1) current (c ∷ p) ⊎ From 0 (set next (column + 1) true) p
      at_here (left_star e _) = absurd (n e)
      at_here (in_star _ _ e _ _) = absurd (n e)
      at_here (one_char y t _ _ e d) =
          let (lt, _, rest) = drop_tail candidate column y t e in
          inr (
            column + 1,
            omega arith,
            Marked-set_self next (column + 1) (omega (arith, i.next_wide)),
            rw (add-one, rest) d,
          )

      onward :
          (j : ℕ)
          → column ≤ j
          → Marked current j
          → Globs (c ∷ p) (drop j candidate)
          → From (column + 1) current (c ∷ p) ⊎ From 0 (set next (column + 1) true) p
      onward j le m d = elim (dec_lt column j) [
        | yes h ↦ inl (j, omega arith, m, d)
        | no h ↦ at_here (Globs-inv (subst (λ k. Globs (c ∷ p) (drop k candidate)) (omega arith) d))
      ]
