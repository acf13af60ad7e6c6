-- ===== src/Client.antt =====
-- The state of the UDP client: `struct cli_udp_state` with the packet buffer in use and the interface's
-- settings of the configuration (src/teavpn2/client/linux/udp.h), and what the kernel answers.
pub mod Socket
pub mod Setup
pub mod Event
pub mod Timer
use teavpn.Common.{ℕ, Bool, List, Ret}
use teavpn.Packet.{Buf}
use teavpn.Server.{TunWrite}

-- What poll() returns, and whether a signal came meanwhile that makes the handler set `stop`.
pub record Polled : Type 0 where
  pub result : Ret
  pub signalled : Bool

-- What recvfrom() gives: an error, or the bytes of a datagram.
pub data Reply : Type 0 where
  failed : ℕ → Reply
  arrived : List ℕ → Reply

-- What read() on the TUN device gives: an error, or the bytes of a packet.
pub data Frame : Type 0 where
  unread : ℕ → Frame
  frame : List ℕ → Frame

-- `buf` and `len` are `state->pkt` during the set-up and `thread->pkt` in the event loop; `iff` is
-- `cfg->iface.iff` as bytes. `polls`, `replies`, `sends` and `writes` are the kernel's answers to come,
-- in order; when they are used up the descriptor is down. `sent` and `written` are what went out, the
-- last first.
pub record Client : Type 0 where
  pub stop : Bool
  pub timeout_disconnect : Bool
  pub need_remove_iff : Bool
  pub loop_c : ℕ
  pub last_t : ℕ
  pub iff : List ℕ
  pub buf : Buf
  pub len : ℕ
  pub polls : List Polled
  pub replies : List Reply
  pub sends : List Ret
  pub writes : List Ret
  pub sent : List (List ℕ)
  pub written : List TunWrite

-- What the client takes from its configuration: `auth.username`, `auth.password`, `iface.dev`,
-- `iface.override_default` and `sock.server_addr`, and from teavpn_iface_up().
pub record CliCfg : Type 0 where
  pub username : List ℕ
  pub password : List ℕ
  pub dev : List ℕ
  pub override_default : Bool
  pub server_addr : List ℕ
  pub iface_up : List ℕ → Bool
