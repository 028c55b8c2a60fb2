-- ===== src/Socks5/Handshake/Exchange.antt =====
-- src/core/socks5.rs: reads and writes of a handshake that go through, put together.
use mathlib.Core.List.{append_assoc, append-nil}
use xssh_rust_lib.Base.{
  ℕ, Text, List, [], ◌∷◌, ◌++◌, length, nat_eq, list_eq, ◌≡◌, refl, sym, ◌∙◌, ap, arith,
}
use xssh_rust_lib.Error.{SshError}
use xssh_rust_lib.Base.Async.{Async, ◌>>=◌, ◌>>◌}
use xssh_rust_lib.Base.Async.Laws.{Ensures, >>=-Ensures}
use xssh_rust_lib.Operation.{OperationContext}
use xssh_rust_lib.Socks5.Stream.{Network, Socket}
use xssh_rust_lib.Socks5.Stream.Laws.{read_exact-ok, write_all-ok}
use xssh_rust_lib.Socks5.Handshake.{byte_at, read, write}

pub one_byte : (bytes : List ℕ) → length bytes ≡ 1 → bytes ≡ byte_at bytes 0 ∷ []
one_byte [] h = cc
one_byte (a ∷ []) h = refl
one_byte (a ∷ b ∷ bytes) h = absurd (omega arith)

pub two_bytes : (bytes : List ℕ) → length bytes ≡ 2 → bytes ≡ byte_at bytes 0 ∷ byte_at bytes 1 ∷ []
two_bytes [] h = cc
two_bytes (a ∷ []) h = absurd (omega arith)
two_bytes (a ∷ b ∷ []) h = refl
two_bytes (a ∷ b ∷ c ∷ bytes) h = absurd (omega arith)

-- What a stretch of the handshake has taken from the client and sent to it.
pub record Exchanged (s s' : Socket) (received sent : List ℕ) : Type 0 where
  pub taken : s.input ≡ received ++ s'.input
  pub sent_on : s'.output ≡ s.output ++ sent

pub after_both :
    {s s' s'' : Socket} {r r' w w' : List ℕ}
    → Exchanged s s' r w
    → Exchanged s' s'' r' w'
    → Exchanged s s'' (r ++ r') (w ++ w')
after_both {s} {s'} {s''} {r} {r'} {w} {w'} first second = record {
  taken = first.taken ∙ ap (λ t. r ++ t) second.taken ∙ sym (append_assoc r r' s''.input);
  sent_on = second.sent_on ∙ ap (λ t. t ++ w') first.sent_on ∙ append_assoc s.output w w';
}

pub as-Exchanged :
    {s s' : Socket} {r r' w w' : List ℕ}
    → Exchanged s s' r w
    → r ≡ r'
    → w ≡ w'
    → Exchanged s s' r' w'
as-Exchanged e same_taken same_sent = rw (← same_taken, ← same_sent) e

module _ (network : Network) (context : OperationContext) where
  pub reading :
      (count : ℕ) (operation : Text) (s : Socket)
      → Ensures
          (read network context count operation s)
          (λ bytes s'. (length bytes ≡ count) × Exchanged s s' bytes [])
  reading count operation s = record {
    ensured = λ {a = bytes} h.
        let (size, split, same) = read_exact-ok network context operation s count h in
        (size, record { taken = split; sent_on = same ∙ sym (append-nil s.output) });
  }

  pub writing :
      (bytes : List ℕ) (operation : Text) (s : Socket)
      → Ensures (write network context bytes operation s) (λ _ s'. Exchanged s s' [] bytes)
  writing bytes operation s = record {
    ensured = λ h.
        let (sent, same) = write_all-ok network context operation s bytes h in
        record { taken = sym same; sent_on = sent };
  }

  pub then_read :
      {B : Type 0} (count : ℕ) (operation : Text) (f : List ℕ → Async Socket SshError B)
      (s : Socket) {Q : B → Socket → Type 0}
      → ((bytes : List ℕ) (s' : Socket)
          → length bytes ≡ count
          → Exchanged s s' bytes []
          → Ensures (f bytes s') Q)
      → Ensures ((read network context count operation >>= f) s) Q
  then_read count operation f s next =
      >>=-Ensures (read network context count operation) f s (reading count operation s)
        λ bytes s' (size, e). next bytes s' size e

  pub then_write :
      {B : Type 0} (bytes : List ℕ) (operation : Text) (m : Async Socket SshError B) (s : Socket)
      {Q : B → Socket → Type 0}
      → ((s' : Socket) → Exchanged s s' [] bytes → Ensures (m s') Q)
      → Ensures ((write network context bytes operation >> m) s) Q
  then_write bytes operation m s next =
      >>=-Ensures (write network context bytes operation) (λ _. m) s (writing bytes operation s)
        λ _ s' e. next s' e
