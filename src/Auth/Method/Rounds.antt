-- ===== src/Auth/Method/Rounds.antt =====
-- src/core/session.rs, `authenticate_keyboard_interactive`: the model's bound on the
-- challenges that are followed.
use xssh_rust_lib.Base.{
  ℕ, zero, suc, ◌+◌, List, Text, Result, length, ◌!=◌, nat_eq, ◌≡◌, refl, ◌∙◌, ap, arith,
}
use xssh_rust_lib.Base.Async.{Async, ready}
use xssh_rust_lib.Base.Async.Laws.{>>=-agree, if-agree}
use xssh_rust_lib.Error.{SshError}
use xssh_rust_lib.Auth.Client.{Client, KeyboardInteractiveChallenge, KeyboardResponse}
use xssh_rust_lib.Auth.Method.{AuthOutcome, call, converse}

module _ (client : Client)
    (respond : KeyboardInteractiveChallenge → Async client.World SshError (List Text)) where
  one_more :
      (rounds : ℕ) (response : KeyboardResponse) (world : client.World)
      {r : Result SshError AuthOutcome}
      → (converse client respond rounds response world).0 ≡ ready r
      → converse client respond (suc rounds) response world
        ≡ converse client respond rounds response world
  unfolding converse
  one_more rounds KeyboardResponse.success world h = refl
  one_more rounds (KeyboardResponse.failure remaining partial_success) world h = refl
  one_more zero (KeyboardResponse.info_request name instructions prompts) world h = absurd cc
  one_more (suc rounds) (KeyboardResponse.info_request name instructions prompts) world h =
      >>=-agree (respond (record { name = name; instructions = instructions; prompts = prompts })) _
        _ world h
        λ responses w h'. if-agree (length responses != length prompts) _ _ _ w h' λ h''.
          >>=-agree (call client (client.keyboard_interactive_respond responses)) _ _ w h''
            λ next w' h3. one_more rounds next w' h3

  -- An exchange that ends when `rounds` challenges are followed ends in the same way, and in the same
  -- state, when more of them are.
  pub converse-more :
      (rounds more : ℕ) (response : KeyboardResponse) (world : client.World)
      {r : Result SshError AuthOutcome}
      → (converse client respond rounds response world).0 ≡ ready r
      → converse client respond (more + rounds) response world
        ≡ converse client respond rounds response world
  converse-more rounds zero response world h =
      let same : zero + rounds ≡ rounds = omega arith in
      ap (λ n. converse client respond n response world) same
  converse-more rounds (suc more) response world h =
      let same = converse-more rounds more response world h in
      let count : suc more + rounds ≡ suc (more + rounds) = omega arith in
      ap (λ n. converse client respond n response world) count
      ∙ one_more (more + rounds) response world (ap (λ t. t.0) same ∙ h)
      ∙ same
