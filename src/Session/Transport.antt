-- ===== src/Session/Transport.antt =====
-- What sessions and channels need of the crate `russh` once a connection is there, as an interface.
-- The errors of the crate are the text that they display.
use xssh_rust_lib.Base.{ℕ, List, Text, Bool, Option}
use xssh_rust_lib.Base.Async.{Async}

-- `ChannelMsg`; a signal and the reason of a failure are the text of their `{:?}`, and `other` is
-- any further message.
pub data ChannelMsg : Type 0 where
  data_bytes : List ℕ → ChannelMsg
  extended_data : List ℕ → ℕ → ChannelMsg
  eof close success failure other : ChannelMsg
  exit_status : ℕ → ChannelMsg
  exit_signal : Text → Bool → Text → Text → ChannelMsg
  open_failure : Text → ChannelMsg

-- The size of a terminal: columns, rows, and the two in pixels.
pub record Size : Type 0 where
  pub col_width : ℕ
  pub row_height : ℕ
  pub pix_width : ℕ
  pub pix_height : ℕ

pub record Transport (World : Type 0) : Type 1 where
  -- `russh::Channel`, the stream that one turns into, and `russh::Pty`
  pub Channel : Type 0
  pub Stream : Type 0
  pub Pty : Type 0
  pub into_stream : Channel → Stream
  -- the handle of a connection
  pub is_closed : World → Bool
  pub channel_open_session : Async World Text Channel
  pub channel_open_direct_tcpip : Text → ℕ → Text → ℕ → Async World Text Channel
  pub channel_open_direct_streamlocal : Text → Async World Text Channel
  pub tcpip_forward : Text → ℕ → Async World Text ℕ
  pub cancel_tcpip_forward : Text → ℕ → Async World Text (Unit {0})
  pub streamlocal_forward : Text → Async World Text (Unit {0})
  pub cancel_streamlocal_forward : Text → Async World Text (Unit {0})
  pub disconnect_by_application : Text → Text → Async World Text (Unit {0})
  -- a channel
  pub request_pty : Channel → Bool → Text → Size → List (Pty × ℕ) → Async World Text (Unit {0})
  pub request_shell : Channel → Bool → Async World Text (Unit {0})
  pub exec : Channel → Bool → List ℕ → Async World Text (Unit {0})
  pub request_subsystem : Channel → Bool → Text → Async World Text (Unit {0})
  pub send_data : Channel → List ℕ → Async World Text (Unit {0})
  pub send_eof : Channel → Async World Text (Unit {0})
  pub window_change : Channel → Size → Async World Text (Unit {0})
  pub close_channel : Channel → Async World Text (Unit {0})
  pub wait_message : Channel → Async World ⊥ (Option ChannelMsg)
  -- a stream; a read gives the bytes that it puts into a buffer of the given size
  pub read_stream : Stream → ℕ → Async World Text (List ℕ)
  pub write_stream : Stream → List ℕ → Async World Text (Unit {0})
  pub flush_stream : Stream → Async World Text (Unit {0})
