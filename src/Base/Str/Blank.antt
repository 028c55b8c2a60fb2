-- ===== src/Base/Str/Blank.antt =====
-- When trimming leaves nothing.
use mathlib.Core.Path.{◌≡◌, refl, ◌∙◌}
use mathlib.Core.Bool.{Bool}
use mathlib.Core.List.{[], ◌∷◌}
use native.Mathlib.Omega.{arith}
use xssh_rust_lib.Base.Lists.{is_empty, all}
use xssh_rust_lib.Base.Str.{Text, is_whitespace, trim_start, trim_end, trim}

-- only white space
unfoldable pub is_blank : Text → Bool
is_blank t = all is_whitespace t

is_empty-trim_end : (t : Text) → is_empty (trim_end t) ≡ is_blank t
unfolding trim_end is_blank all
is_empty-trim_end [] = refl
is_empty-trim_end (c ∷ t) = ground (arith, is_empty-trim_end t)

is_blank-trim_start : (t : Text) → is_blank (trim_start t) ≡ is_blank t
unfolding trim_start is_blank all
is_blank-trim_start [] = refl
is_blank-trim_start (c ∷ t) = ground (arith, is_blank-trim_start t)

-- What `trim` leaves is empty exactly when the text is all white space.
pub is_empty-trim : (t : Text) → is_empty (trim t) ≡ is_blank t
is_empty-trim t = unfold trim in is_empty-trim_end (trim_start t) ∙ is_blank-trim_start t
