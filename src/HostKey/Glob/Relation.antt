-- ===== src/HostKey/Glob/Relation.antt =====
-- What a glob pattern means, with no table: `*` stands for any run of characters and `?` for one.
use xssh_rust_lib.Base.{ℕ, Text, [], ◌∷◌, ◌≡◌, ◌≢◌, ◌⊎◌, refl}

pub data Globs : Text → Text → Type 0 where
  done : Globs [] []
  single :
      {c x : ℕ} {p s : Text} → c ≢ b'*' → (c ≡ b'?') ⊎ (c ≡ x) → Globs p s → Globs (c ∷ p) (x ∷ s)
  skip : {c : ℕ} {p s : Text} → c ≡ b'*' → Globs p s → Globs (c ∷ p) s
  grow : {c x : ℕ} {p s : Text} → c ≡ b'*' → Globs (c ∷ p) s → Globs (c ∷ p) (x ∷ s)

-- How a pattern that begins with `c` can match the text that is left.
pub data Begins (c : ℕ) (p s : Text) : Type 0 where
  left_star : c ≡ b'*' → Globs p s → Begins c p s
  in_star : (x : ℕ) (t : Text) → c ≡ b'*' → s ≡ x ∷ t → Globs (c ∷ p) t → Begins c p s
  one_char :
      (x : ℕ) (t : Text) → c ≢ b'*' → (c ≡ b'?') ⊎ (c ≡ x) → s ≡ x ∷ t → Globs p t → Begins c p s

pub Globs-inv : {c : ℕ} {p s : Text} → Globs (c ∷ p) s → Begins c p s
Globs-inv (single {x = x} {s = t} n e d) = one_char x t n e refl d
Globs-inv (skip e d) = left_star e d
Globs-inv (grow {x = x} {s = t} e d) = in_star x t e refl d

pub Globs-nil : {s : Text} → Globs [] s → s ≡ []
Globs-nil done = refl
