-- ===== src/Auth/Plan/Order.antt =====
-- src/core/session.rs, `authenticate`: the plan's order, in what succeeds and in what an error tells.
use xssh_rust_lib.Base.{
  ℕ, Text, true, false, List, [], ◌∷◌, ◌++◌, none, some, ok, err, map, any, ◌≡◌, refl, ◌⊎◌, subst,
  sym,
}
use xssh_rust_lib.Base.Async.{ready}
use xssh_rust_lib.Error.{SshError}
use xssh_rust_lib.Auth.Types.{AuthenticationObservation, no_observation}
use xssh_rust_lib.Auth.Client.{Client, AuthMethod, kind}
use xssh_rust_lib.Auth.Method.{AuthOutcome, authenticate_method}
use xssh_rust_lib.Auth.Plan.{authenticate}
use xssh_rust_lib.Auth.Plan.Laws.{methods_of, was_accepted, Ran}
use xssh_rust_lib.Auth.Plan.Loop.{try_methods-err, try_methods-ok}

module _ (client : Client) (rounds : ℕ) (username : Text) where
  -- When the authentication by a plan that has a method fails, some first methods of the plan have been
  -- run, each in the world that the one before has left, and the last has left the world of the result;
  -- they are all of the plan, or the connection is closed. None was accepted. The error carries one
  -- attempt for each of them, in the plan's order, which tells of its outcome: the methods that the
  -- server still offers and the partial success, or the message of its error.
  pub authenticate-err :
      (method : AuthMethod client) (methods : List (AuthMethod client)) (world : client.World)
      {e : SshError}
      → (authenticate client rounds username (method ∷ methods) world).0 ≡ ready (err e)
      → (tried untried : List (AuthMethod client)) × (observation : AuthenticationObservation)
        × (method ∷ methods ≡ tried ++ untried)
        × Ran client rounds username tried world observation.attempts
            (authenticate client rounds username (method ∷ methods) world).1
        × (e.context.authentication_observation ≡ some observation)
        × (methods_of observation ≡ map kind tried)
        × (was_accepted observation ≡ false)
        × ((untried ≡ [])
            ⊎ (client.is_closed (authenticate client rounds username (method ∷ methods) world).1
                ≡ true))
  unfolding authenticate any
  authenticate-err method methods world h =
      let (observation, ended) =
        try_methods-err client rounds username (method ∷ methods) no_observation none world h in
      (
        ended.tried,
        ended.untried,
        observation,
        ended.in_order,
        subst
            (λ attempts.
              Ran client rounds username ended.tried world attempts
                (authenticate client rounds username (method ∷ methods) world).1)
            (sym ended.recorded) ended.ran,
        ended.carried,
        ended.by_methods,
        ended.none_accepted refl,
        ended.all_or_closed,
      )

  -- When the authentication succeeds, a method of the plan has run whose outcome the server accepted,
  -- and nothing has happened to the connection after it.
  pub authenticate-ok :
      (plan : List (AuthMethod client)) (world : client.World)
      → (authenticate client rounds username plan world).0 ≡ ready (ok tt)
      → (tried : List (AuthMethod client)) × (method : AuthMethod client) × (untried : List
          (AuthMethod client))
        × (world' : client.World) × (outcome : AuthOutcome) × (plan ≡ tried ++ method ∷ untried)
        × (outcome.accepted ≡ true)
        × (authenticate_method client rounds username method world'
            ≡ (ready (ok outcome), (authenticate client rounds username plan world).1))
  unfolding authenticate any
  authenticate-ok [] world h = absurd cc
  authenticate-ok (method ∷ methods) world h =
      try_methods-ok client rounds username (method ∷ methods) no_observation none world h
