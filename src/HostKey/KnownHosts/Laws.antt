-- ===== src/HostKey/KnownHosts/Laws.antt =====
-- src/core/host_key.rs: what `insert` and `insert_key` replace.
use mathlib.Core.List.{append-nil}
use mathlib.Core.Path.{ap₂}
use xssh_rust_lib.Base.{
  ◌&&◌, not, false, Bool, true, ◌||◌, List, [], ◌∷◌, ◌++◌, none, retain, ◌!=◌, ◌==◌, not, ◌&&◌,
  list_eq, nat_eq, ==_refl, ◌≡◌, refl, ◌∙◌, arith,
}
use xssh_rust_lib.HostKey.KnownHosts.{KnownHostEntry, KnownHosts, is_some, replace_entry}

retain-append {ℓ} :
    {A : Type ℓ} (p : A → Bool) (xs ys : List A) → retain p (xs ++ ys) ≡ retain p xs ++ retain p ys
unfolding retain
retain-append p [] ys = refl
retain-append p (x ∷ xs) ys = ground (arith, retain-append p xs ys)

-- What passes both tests is what passes the second, where that is the stronger one.
retain_absorb {ℓ} :
    {A : Type ℓ} (p q : A → Bool) (xs : List A)
    → ((x : A) → q x ≡ true → p x ≡ true)
    → retain q (retain p xs) ≡ retain q xs
unfolding retain
retain_absorb p q [] h = refl
retain_absorb p q (x ∷ xs) h = ground (arith, h x, retain_absorb p q xs h)

retain_none {ℓ} :
    {A : Type ℓ} (p q : A → Bool) (xs : List A)
    → ((x : A) → q x ≡ true → p x ≡ false)
    → retain q (retain p xs) ≡ []
unfolding retain
retain_none p q [] h = refl
retain_none p q (x ∷ xs) h = ground (arith, h x, retain_none p q xs h)

-- An entry without a marker, under the same patterns.
abbrev pub rivals : KnownHostEntry → KnownHostEntry → Bool
rivals entry existing =
    not (is_some existing.marker) && (existing.host_patterns == entry.host_patterns)

-- After an entry without a marker was inserted, it is the only one without a marker under its patterns;
-- all others, those with a marker among them, are as before and in their order.
pub replace_entry_lem :
    (entry : KnownHostEntry) (hosts : KnownHosts)
    → entry.marker ≡ none
    → (retain (rivals entry) (replace_entry entry hosts).entries ≡ entry ∷ [])
      × (retain (λ existing. not (rivals entry existing)) (replace_entry entry hosts).entries
          ≡ retain (λ existing. not (rivals entry existing)) hosts.entries)
unfolding replace_entry retain
replace_entry_lem entry hosts unmarked =
    let keeps = λ (existing : KnownHostEntry).
      is_some existing.marker || existing.host_patterns != entry.host_patterns in
    let others = λ (existing : KnownHostEntry). not (rivals entry existing) in
    let own : rivals entry entry ≡ true =
      ap₂ (λ m b. not (is_some m) && b) unmarked (==_refl entry.host_patterns) in
    (
      retain-append (rivals entry) (retain keeps hosts.entries) (entry ∷ [])
          ∙ ap₂ ◌++◌ (retain_none keeps (rivals entry) hosts.entries (λ x h. ground arith))
              (rw own refl),
      retain-append others (retain keeps hosts.entries) (entry ∷ [])
          ∙ ap₂ ◌++◌ (retain_absorb keeps others hosts.entries (λ x h. ground arith)) (rw own refl)
          ∙ append-nil (retain others hosts.entries),
    )
