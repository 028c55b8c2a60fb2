-- ===== src/Channel.antt =====
-- src/core/channel.rs: channels of a session, and the events that they report.
pub mod Calls
pub mod Stream
pub mod Inputs
pub mod Open
pub mod Forward
pub mod Incoming
pub mod Relaying
use xssh_rust_lib.Base.{ℕ, List, Text, Bool}
use xssh_rust_lib.Session.Transport.{ChannelMsg}

pub data SshChannelEvent : Type 0 where
  data_bytes : List ℕ → SshChannelEvent
  extended_data : ℕ → List ℕ → SshChannelEvent
  eof close success failure : SshChannelEvent
  exit_status : ℕ → SshChannelEvent
  exit_signal : Text → Bool → Text → Text → SshChannelEvent
  open_failure : Text → SshChannelEvent

unfoldable pub channel_event : ChannelMsg → SshChannelEvent
channel_event (ChannelMsg.data_bytes bytes) = SshChannelEvent.data_bytes bytes
channel_event (ChannelMsg.extended_data bytes ext) = SshChannelEvent.extended_data ext bytes
channel_event ChannelMsg.eof = SshChannelEvent.eof
channel_event ChannelMsg.close = SshChannelEvent.close
channel_event (ChannelMsg.exit_status status) = SshChannelEvent.exit_status status
channel_event (ChannelMsg.exit_signal signal core_dumped message tag) =
    SshChannelEvent.exit_signal signal core_dumped message tag
channel_event ChannelMsg.success = SshChannelEvent.success
channel_event ChannelMsg.failure = SshChannelEvent.failure
channel_event (ChannelMsg.open_failure reason) = SshChannelEvent.open_failure reason
channel_event ChannelMsg.other = SshChannelEvent.failure
