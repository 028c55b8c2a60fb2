-- ===== src/Socks5/Stream/Laws.antt =====
-- src/core/socks5.rs: what a read and a write that succeed have done.
use xssh_rust_lib.Base.{
  ℕ, zero, suc, ◌≤◌, Text, List, [], ◌∷◌, ◌++◌, ok, length, take, drop, ◌≡◌, refl, ap, arith,
}
use xssh_rust_lib.Base.Async.{ready}
use xssh_rust_lib.Operation.{OperationContext}
use xssh_rust_lib.Operation.Laws.{run-ok}
use xssh_rust_lib.Socks5.Stream.{Network, Event, Socket, read_result, read_exact, write_all}

take-append-drop :
    (n : ℕ) (xs : List ℕ) → n ≤ length xs → (length (take n xs) ≡ n) × (xs ≡ take n xs ++ drop n xs)
take-append-drop zero xs h = (refl, refl)
take-append-drop (suc n) [] h = absurd (omega arith)
take-append-drop (suc n) (x ∷ xs) h =
    let (l, e) = take-append-drop n xs (omega arith) in (ap suc l, ap (λ t. x ∷ t) e)

module _ (network : Network) (context : OperationContext) (operation : Text) (socket : Socket) where
  read_result-ok :
      (count : ℕ) (event : Event) (input bytes : List ℕ)
      → read_result network count event input ≡ ok bytes
      → (length bytes ≡ count) × (input ≡ bytes ++ drop count input)
  unfolding read_result
  read_result-ok count event input bytes h = ground (arith, take-append-drop count input)

  -- A read that succeeds returns as many bytes as it was asked for, the next ones that the client
  -- sent, and leaves the rest.
  pub read_exact-ok :
      (count : ℕ) {bytes : List ℕ}
      → (read_exact network count context operation socket).0 ≡ ready (ok bytes)
      → let after = (read_exact network count context operation socket).1 in
        (length bytes ≡ count)
        × (socket.input ≡ bytes ++ after.input)
        × (after.output ≡ socket.output)
  unfolding read_exact
  read_exact-ok count {bytes} h =
      let event = network socket.operations in
      let result = read_result network count event socket.input in
      let (same, _, _, _, _, _) =
        run-ok event.around context operation
          (record { ready_at = event.ready_at; output = result }) bytes h in
      let (size, split) = read_result-ok count event socket.input bytes same in
      rw h (size, split, refl)

  pub write_all-ok :
      (bytes : List ℕ)
      → (write_all network bytes context operation socket).0 ≡ ready (ok tt)
      → let after = (write_all network bytes context operation socket).1 in
        (after.output ≡ socket.output ++ bytes) × (after.input ≡ socket.input)
  unfolding write_all
  write_all-ok bytes h = rw h (refl, refl)
