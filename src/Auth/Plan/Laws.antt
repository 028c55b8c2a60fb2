-- ===== src/Auth/Plan/Laws.antt =====
-- src/core/session.rs, `authenticate`: which methods of a plan have run, and what an error tells of them.
use xssh_rust_lib.Base.{
  ℕ, Text, Bool, true, false, List, [], ◌∷◌, ◌++◌, Option, none, some, ok, err, map, any, ◌≡◌, refl,
  ◌∙◌, ap, ◌⊎◌, inl, inr, arith, Bool-cases,
}
use xssh_rust_lib.Base.Async.{Async, Outcome, ready, panics, pending}
use xssh_rust_lib.Error.{SshError}
use xssh_rust_lib.Auth.Types.{AuthenticationObservation, AuthenticationAttempt, AuthMethodKind}
use xssh_rust_lib.Auth.Client.{Client, AuthMethod, kind}
use xssh_rust_lib.Auth.Method.{AuthOutcome, authenticate_method}
use xssh_rust_lib.Auth.Plan.{record_failure, record_error, give_up, after_attempt}

abbrev pub methods_of : AuthenticationObservation → List AuthMethodKind
methods_of observation = map (λ a. a.method) observation.attempts

abbrev pub was_accepted : AuthenticationObservation → Bool
was_accepted observation = any (λ a. a.accepted) observation.attempts

map_snoc :
    {A B : Type 0} (f : A → B) (xs : List A) (x : A) → map f (xs ++ x ∷ []) ≡ map f xs ++ f x ∷ []
map_snoc f [] x = refl
map_snoc f (y ∷ xs) x = ap (λ t. f y ∷ t) (map_snoc f xs x)

any_snoc :
    {A : Type 0} (p : A → Bool) (xs : List A) (x : A)
    → any p xs ≡ false
    → p x ≡ false
    → any p (xs ++ x ∷ []) ≡ false
unfolding any
any_snoc p [] x none_yet last = ground arith
any_snoc p (y ∷ xs) x none_yet last = ground (arith, any_snoc p xs x)

module _ (client : Client) (rounds : ℕ) (username : Text) where
  -- What is on record of a method that was run and not accepted, by its outcome.
  abbrev pub Tells :
      AuthMethod client → Outcome SshError AuthOutcome → AuthenticationAttempt → Type 0
  Tells method (ready (ok outcome)) attempt =
      (outcome.accepted ≡ false)
      × (attempt ≡ record {
        method = kind method;
        accepted = false;
        partial_success = outcome.partial_success;
        remaining_methods = outcome.remaining_methods;
        error = none;
      })
  Tells method (ready (err error)) attempt = attempt ≡ record {
    method = kind method;
    accepted = false;
    partial_success = false;
    remaining_methods = [];
    error = some error.message;
  }
  Tells method panics attempt = ⊥
  Tells method pending attempt = ⊥

  -- These methods were run one after the other, each in the world that the one before has left, and
  -- these attempts tell of them.
  abbrev pub Ran :
      List (AuthMethod client) → client.World → List AuthenticationAttempt → client.World → Type 0
  Ran [] world [] last = world ≡ last
  Ran [] world (attempt ∷ attempts) last = ⊥
  Ran (method ∷ methods) world [] last = ⊥
  Ran (method ∷ methods) world (attempt ∷ attempts) last =
      let (outcome, world') = authenticate_method client rounds username method world in
      Tells method outcome attempt × Ran methods world' attempts last

  -- One more attempt on record, by a method that was run, which was not accepted.
  pub record OneMore (method : AuthMethod client) (outcome : Outcome SshError AuthOutcome)
      (before after : AuthenticationObservation) : Type 0 where
    pub attempt : AuthenticationAttempt
    pub appended : after.attempts ≡ before.attempts ++ attempt ∷ []
    pub told : Tells method outcome attempt
    pub by_method : methods_of after ≡ methods_of before ++ kind method ∷ []
    pub not_accepted : was_accepted before ≡ false → was_accepted after ≡ false

  pub snoc-OneMore :
      (method : AuthMethod client) (outcome : Outcome SshError AuthOutcome)
      (before after : AuthenticationObservation) (a : AuthenticationAttempt)
      → after.attempts ≡ before.attempts ++ a ∷ []
      → a.method ≡ kind method
      → a.accepted ≡ false
      → Tells method outcome a
      → OneMore method outcome before after
  snoc-OneMore method outcome before after a same by_kind not_it told = record {
    attempt = a;
    appended = same;
    told = told;
    by_method =
        ap (map (λ t. t.method)) same
        ∙ map_snoc (λ t. t.method) before.attempts a
        ∙ ap (λ k. methods_of before ++ k ∷ []) by_kind;
    not_accepted = λ none_yet.
        ap (any (λ t. t.accepted)) same
        ∙ any_snoc (λ t. t.accepted) before.attempts a none_yet not_it;
  }

  pub after_attempt-ok :
      (method : AuthMethod client)
      (rest : AuthenticationObservation → Option SshError → Async client.World SshError (Unit {0}))
      (observation : AuthenticationObservation) (outcome : Outcome SshError AuthOutcome)
      (world : client.World)
      → (after_attempt client rounds username method rest observation outcome world).0
        ≡ ready (ok tt)
      → ((o : AuthOutcome) × (outcome ≡ ready (ok o))
          × (o.accepted ≡ true)
          × (after_attempt client rounds username method rest observation outcome world
              ≡ (ready (ok tt), world)))
        ⊎ ((observation' : AuthenticationObservation) × (last : Option SshError) × (after_attempt
                client rounds username method rest observation outcome world
              ≡ rest observation' last world))
  unfolding after_attempt
  after_attempt-ok method rest observation (ready (ok outcome)) world h =
      elim (Bool-cases outcome.accepted) [
        | inl accepted ↦ inl (outcome, refl, accepted, rw accepted refl)
        | inr refused ↦ inr (
          record_failure (kind method) outcome.remaining_methods outcome.partial_success
              observation,
          none,
          rw refused refl,
        )
      ]
  after_attempt-ok method rest observation (ready (err error)) world h =
      elim (Bool-cases (client.is_closed world)) [
        | inl closed ↦ absurd cc
        | inr still ↦ inr (record_error (kind method) error observation, some error, rw still refl)
      ]
  after_attempt-ok method rest observation panics world h = absurd cc
  after_attempt-ok method rest observation pending world h = absurd cc

  pub after_attempt-err :
      (method : AuthMethod client)
      (rest : AuthenticationObservation → Option SshError → Async client.World SshError (Unit {0}))
      (observation : AuthenticationObservation) (outcome : Outcome SshError AuthOutcome)
      (world : client.World) {e : SshError}
      → (after_attempt client rounds username method rest observation outcome world).0
        ≡ ready (err e)
      → (observation' : AuthenticationObservation) × (last : Option SshError) × OneMore method
          outcome observation observation'
        × (((client.is_closed world ≡ true)
              × (after_attempt client rounds username method rest observation outcome world
                  ≡ (ready (err (give_up observation' last)), world)))
            ⊎ (after_attempt client rounds username method rest observation outcome world
                ≡ rest observation' last world))
  unfolding after_attempt record_failure record_error
  after_attempt-err method rest observation (ready (ok outcome)) world h =
      elim (Bool-cases outcome.accepted) [
        | inl accepted ↦ absurd cc
        | inr refused ↦ (
          record_failure (kind method) outcome.remaining_methods outcome.partial_success
              observation,
          none,
          snoc-OneMore method (ready (ok outcome)) observation _ _ refl refl refl (refused, refl),
          inr (rw refused refl),
        )
      ]
  after_attempt-err method rest observation (ready (err error)) world h = (
    record_error (kind method) error observation,
    some error,
    snoc-OneMore method (ready (err error)) observation _ _ refl refl refl refl,
    elim (Bool-cases (client.is_closed world)) [
      | inl closed ↦ inl (closed, rw closed refl)
      | inr still ↦ inr (rw still refl)
    ],
  )
  after_attempt-err method rest observation panics world h = absurd cc
  after_attempt-err method rest observation pending world h = absurd cc
