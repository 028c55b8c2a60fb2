-- ===== src/Channel/Calls.antt =====
-- src/core/channel.rs, `SshChannel`: each request of a channel, under a given context and under the
-- channel's own with the time for an operation.
pub mod Laws
use xssh_rust_lib.Base.{ℕ, Text, codes, Bool, List, Option, none, some, Result, ok, err}
use xssh_rust_lib.Base.Async.{Async, Outcome, ready, pending, fail_with, fail_with_outcome, ◌>>=◌}
use xssh_rust_lib.Error.{SshError}
use xssh_rust_lib.Operation.{OperationContext}
use xssh_rust_lib.Operation.Within.{Environment, run_in, timed}
use xssh_rust_lib.Session.Raw.{remote_call}
use xssh_rust_lib.Session.Transport.{Transport, Size, ChannelMsg}
use xssh_rust_lib.Channel.{SshChannelEvent, channel_event}

pub record SshChannel (Inner : Type 0) : Type 0 where
  pub inner : Inner
  pub context : OperationContext
  pub operation_timeout : ℕ

abbrev pub from_inner : {Inner : Type 0} → Inner → OperationContext → ℕ → SshChannel Inner
from_inner inner context operation_timeout = record {
  inner = inner;
  context = context;
  operation_timeout = operation_timeout;
}

abbrev pub with_context : {Inner : Type 0} → OperationContext → SshChannel Inner → SshChannel Inner
with_context context channel = record channel { context = context }

-- The message of a channel that is waited for, if it is not closed.
event_of : Option ChannelMsg → Option SshChannelEvent
event_of none = none
event_of (some message) = some (channel_event message)

-- `.ok().flatten()`
abbrev forgiving :
    Outcome SshError (Option SshChannelEvent) → Outcome SshError (Option SshChannelEvent)
forgiving (ready (err _)) = ready (ok none)
forgiving outcome = outcome

module _ {World : Type 0} (environment : Environment World) (transport : Transport World) where
  open transport use {Channel, Pty}

  -- `self.context.clone().with_timeout_from_now(self.operation_timeout)`, and a call under it.
  abbrev pub under_default :
      {A : Type 0}
      → SshChannel Channel
      → (OperationContext → Async World SshError A)
      → Async World SshError A
  under_default channel call = timed environment channel.operation_timeout channel.context >>= call

  unfoldable pub request_pty_with_context :
      SshChannel Channel
      → Bool
      → Text
      → Size
      → List (Pty × ℕ)
      → OperationContext
      → Async World SshError (Unit {0})
  unfolding remote_call
  request_pty_with_context channel want_reply term size terminal_modes context =
      remote_call environment context (codes "request remote PTY")
        (transport.request_pty channel.inner want_reply term size terminal_modes)

  unfoldable pub request_pty :
      SshChannel Channel → Bool → Text → Size → List (Pty × ℕ) → Async World SshError (Unit {0})
  unfolding request_pty_with_context
  request_pty channel want_reply term size terminal_modes =
      under_default channel (request_pty_with_context channel want_reply term size terminal_modes)

  unfoldable pub request_shell_with_context :
      SshChannel Channel → Bool → OperationContext → Async World SshError (Unit {0})
  unfolding remote_call
  request_shell_with_context channel want_reply context =
      remote_call environment context (codes "request remote shell")
        (transport.request_shell channel.inner want_reply)

  unfoldable pub request_shell : SshChannel Channel → Bool → Async World SshError (Unit {0})
  unfolding request_shell_with_context
  request_shell channel want_reply =
      under_default channel (request_shell_with_context channel want_reply)

  unfoldable pub exec_with_context :
      SshChannel Channel → Bool → List ℕ → OperationContext → Async World SshError (Unit {0})
  unfolding remote_call
  exec_with_context channel want_reply command context =
      remote_call environment context (codes "execute SSH command")
        (transport.exec channel.inner want_reply command)

  unfoldable pub exec : SshChannel Channel → Bool → List ℕ → Async World SshError (Unit {0})
  unfolding exec_with_context
  exec channel want_reply command =
      under_default channel (exec_with_context channel want_reply command)

  unfoldable pub request_subsystem_with_context :
      SshChannel Channel → Bool → Text → OperationContext → Async World SshError (Unit {0})
  unfolding remote_call
  request_subsystem_with_context channel want_reply name context =
      remote_call environment context (codes "request SSH subsystem")
        (transport.request_subsystem channel.inner want_reply name)

  unfoldable pub request_subsystem :
      SshChannel Channel → Bool → Text → Async World SshError (Unit {0})
  unfolding request_subsystem_with_context
  request_subsystem channel want_reply name =
      under_default channel (request_subsystem_with_context channel want_reply name)

  unfoldable pub write_with_context :
      SshChannel Channel → List ℕ → OperationContext → Async World SshError (Unit {0})
  unfolding remote_call
  write_with_context channel bytes context =
      remote_call environment context (codes "write SSH channel data")
        (transport.send_data channel.inner bytes)

  unfoldable pub write : SshChannel Channel → List ℕ → Async World SshError (Unit {0})
  unfolding write_with_context
  write channel bytes = under_default channel (write_with_context channel bytes)

  unfoldable pub eof_with_context :
      SshChannel Channel → OperationContext → Async World SshError (Unit {0})
  unfolding remote_call
  eof_with_context channel context =
      remote_call environment context (codes "send SSH channel EOF")
        (transport.send_eof channel.inner)

  unfoldable pub eof : SshChannel Channel → Async World SshError (Unit {0})
  unfolding eof_with_context
  eof channel = under_default channel (eof_with_context channel)

  unfoldable pub window_change_with_context :
      SshChannel Channel → ℕ → ℕ → OperationContext → Async World SshError (Unit {0})
  unfolding remote_call
  window_change_with_context channel col_width row_height context =
      remote_call environment context (codes "resize remote PTY") (
        transport.window_change channel.inner (record {
          col_width = col_width;
          row_height = row_height;
          pix_width = 0;
          pix_height = 0;
        }))

  unfoldable pub window_change : SshChannel Channel → ℕ → ℕ → Async World SshError (Unit {0})
  unfolding window_change_with_context
  window_change channel col_width row_height =
      under_default channel (window_change_with_context channel col_width row_height)

  unfoldable pub close_with_context :
      SshChannel Channel → OperationContext → Async World SshError (Unit {0})
  unfolding remote_call
  close_with_context channel context =
      remote_call environment context (codes "close SSH channel")
        (transport.close_channel channel.inner)

  unfoldable pub close : SshChannel Channel → Async World SshError (Unit {0})
  unfolding close_with_context
  close channel = under_default channel (close_with_context channel)

  unfoldable pub next_event_with_context :
      SshChannel Channel → OperationContext → Async World SshError (Option SshChannelEvent)
  unfolding event_of
  next_event_with_context channel context =
      run_in environment context (codes "wait for SSH channel event") (
        fail_with (λ e. absurd e) (transport.wait_message channel.inner) >>= λ message world.
        (ready (ok (event_of message)), world))

  -- Errors are dropped: there is no event then.
  unfoldable pub next_event : SshChannel Channel → Async World SshError (Option SshChannelEvent)
  unfolding next_event_with_context
  next_event channel world =
      let (outcome, world') = under_default channel (next_event_with_context channel) world in
      (forgiving outcome, world')
