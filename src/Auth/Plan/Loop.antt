-- ===== src/Auth/Plan/Loop.antt =====
-- src/core/session.rs, `authenticate`: the loop over the methods, which have run when it ends.
use mathlib.Core.List.{append_assoc, append-nil}
use xssh_rust_lib.Base.{
  ℕ, Text, true, false, List, [], ◌∷◌, ◌++◌, Option, some, ok, err, map, ◌≡◌, refl, sym, ◌∙◌, ap,
  ◌⊎◌, inl, inr, arith,
}
use xssh_rust_lib.Base.Async.{Outcome, ready}
use xssh_rust_lib.Error.{SshError, with_authentication_observation}
use xssh_rust_lib.Auth.Types.{AuthenticationObservation, AuthenticationAttempt}
use xssh_rust_lib.Auth.Client.{Client, AuthMethod, kind}
use xssh_rust_lib.Auth.Method.{AuthOutcome, authenticate_method}
use xssh_rust_lib.Auth.Plan.{give_up, try_methods}
use xssh_rust_lib.Auth.Plan.Laws.{
  methods_of, was_accepted, Ran, OneMore, after_attempt-ok, after_attempt-err,
}

abbrev failed : SshError → Outcome SshError (Unit {0})
failed e = ready (err e)

module _ (client : Client) (rounds : ℕ) (username : Text) where
  -- What is known of the methods of a plan, and of an error's record of them, when it ends.
  pub record Ended (methods : List (AuthMethod client)) (start : client.World)
      (before after : AuthenticationObservation) (error : SshError) (world : client.World)
      : Type 0 where
    pub attempts : List AuthenticationAttempt
    pub recorded : after.attempts ≡ before.attempts ++ attempts
    pub tried : List (AuthMethod client)
    pub untried : List (AuthMethod client)
    pub in_order : methods ≡ tried ++ untried
    pub ran : Ran client rounds username tried start attempts world
    pub carried : error.context.authentication_observation ≡ some after
    pub by_methods : methods_of after ≡ methods_of before ++ map kind tried
    pub none_accepted : was_accepted before ≡ false → was_accepted after ≡ false
    pub all_or_closed : (untried ≡ []) ⊎ (client.is_closed world ≡ true)

  give_up-carries :
      (observation : AuthenticationObservation) (last : Option SshError) {e : SshError}
      → failed (give_up observation last) ≡ failed e
      → e.context.authentication_observation ≡ some observation
  unfolding give_up with_authentication_observation
  give_up-carries observation last {e} h =
      let same : give_up observation last ≡ e = ground arith in
      ap (λ t. t.context.authentication_observation) (sym same)

  after_one :
      (method : AuthMethod client) (methods : List (AuthMethod client)) (start : client.World)
      (before middle after : AuthenticationObservation) (error : SshError) (world : client.World)
      → OneMore client rounds username method
          (authenticate_method client rounds username method start).0
          before
          middle
      → Ended methods
          (authenticate_method client rounds username method start).1
          middle
          after
          error
          world
      → Ended (method ∷ methods) start before after error world
  after_one method methods start before middle after error world one ended = record {
    attempts = one.attempt ∷ ended.attempts;
    recorded =
        ended.recorded
        ∙ ap (λ t. t ++ ended.attempts) one.appended
        ∙ append_assoc before.attempts (one.attempt ∷ []) ended.attempts;
    ran = (one.told, ended.ran);
    tried = method ∷ ended.tried;
    untried = ended.untried;
    in_order = ap (λ t. method ∷ t) ended.in_order;
    carried = ended.carried;
    by_methods =
        ended.by_methods
        ∙ ap (λ t. t ++ map kind ended.tried) one.by_method
        ∙ append_assoc (methods_of before) (kind method ∷ []) (map kind ended.tried);
    none_accepted = λ h. ended.none_accepted (one.not_accepted h);
    all_or_closed = ended.all_or_closed;
  }

  pub try_methods-err :
      (methods : List (AuthMethod client)) (observation : AuthenticationObservation)
      (last : Option SshError) (world : client.World) {e : SshError}
      → (try_methods client rounds username methods observation last world).0 ≡ ready (err e)
      → (after : AuthenticationObservation) × Ended methods world observation after e
          (try_methods client rounds username methods observation last world).1
  unfolding try_methods
  try_methods-err [] observation last world {e} h = (
    observation,
    record {
      attempts = [];
      recorded = sym (append-nil observation.attempts);
      ran = refl;
      tried = [];
      untried = [];
      in_order = refl;
      carried = give_up-carries observation last h;
      by_methods = sym (append-nil (methods_of observation));
      none_accepted = λ h. h;
      all_or_closed = inl refl;
    },
  )
  try_methods-err (method ∷ methods) observation last world {e} h =
      let (outcome, world') = authenticate_method client rounds username method world in
      let (middle, last', one, ends) =
        after_attempt-err client rounds username method (try_methods client rounds username methods)
          observation outcome world' h in
      elim ends [
        | inl (closed, same) ↦ (
          middle,
          record {
            attempts = one.attempt ∷ [];
            recorded = one.appended;
            ran = (one.told, sym (ap (λ t. t.1) same));
            tried = method ∷ [];
            untried = methods;
            in_order = refl;
            carried = give_up-carries middle last' (sym (ap (λ t. t.0) same) ∙ h);
            by_methods = one.by_method;
            none_accepted = one.not_accepted;
            all_or_closed = inr (ap (λ t. client.is_closed t.1) same ∙ closed);
          },
        )
        | inr same ↦
            let (after, ended) =
              try_methods-err methods middle last' world' (sym (ap (λ t. t.0) same) ∙ h) in
            (after, rw same (after_one method methods world observation middle after e _ one ended))
      ]

  pub try_methods-ok :
      (methods : List (AuthMethod client)) (observation : AuthenticationObservation)
      (last : Option SshError) (world : client.World)
      → (try_methods client rounds username methods observation last world).0 ≡ ready (ok tt)
      → (tried : List (AuthMethod client)) × (method : AuthMethod client) × (untried : List
          (AuthMethod client))
        × (world' : client.World) × (o : AuthOutcome) × (methods ≡ tried ++ method ∷ untried)
        × (o.accepted ≡ true)
        × (authenticate_method client rounds username method world'
            ≡ (ready (ok o), (try_methods client rounds username methods observation last world).1))
  unfolding try_methods
  try_methods-ok [] observation last world h = absurd cc
  try_methods-ok (method ∷ methods) observation last world h =
      let (outcome, world') = authenticate_method client rounds username method world in
      elim (after_attempt-ok client rounds username method
        (try_methods client rounds username methods) observation outcome world' h) [
          | inl (o, is_o, accepted, same) ↦ (
            [],
            method,
            methods,
            world,
            o,
            refl,
            accepted,
            ap (λ t. (t, world')) is_o ∙ ap (λ t. (ready (ok o), t.1)) (sym same),
          )
          | inr (middle, last', same) ↦
              let (tried, m, untried, w, o, in_order, accepted, ran) =
                try_methods-ok methods middle last' world' (sym (ap (λ t. t.0) same) ∙ h) in
              (
                method ∷ tried,
                m,
                untried,
                w,
                o,
                ap (λ t. method ∷ t) in_order,
                accepted,
                rw same ran,
              )
        ]
