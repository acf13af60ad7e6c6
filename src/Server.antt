-- ===== src/Server.antt =====
-- The state of the UDP server: `struct srv_udp_state` with the packet buffer of the thread that runs
-- (src/teavpn2/server/linux/udp.h), and what the kernel answers and receives.
pub mod Send
pub mod Valid
pub mod Close
pub mod Handshake
pub mod Auth
pub mod Event
pub mod Receive
pub mod Tun
pub mod Reaper
pub mod Reach
pub mod Loop
pub mod Shutdown
pub mod Threads
pub mod Life
use teavpn.Common.{ℕ, Bool, List, Option, set, Ret}
use teavpn.Packet.{Buf}
use teavpn.Route.{RouteMap}
use teavpn.Session.{UdpSess, SockAddr, Pool, sess_at}

-- One round of a retry loop: what sendto() or write() returns, and what poll() returns if the first
-- was EAGAIN.
pub record Attempt : Type 0 where
  pub io : Ret
  pub poll : Ret

-- A datagram that the kernel took, with its destination.
pub record Datagram : Type 0 where
  pub dst : SockAddr
  pub bytes : List ℕ

-- A write to the TUN device: the length asked for, and the bytes of the buffer that it covers.
pub record TunWrite : Type 0 where
  pub asked : ℕ
  pub bytes : List ℕ

-- `udp_answers` and `tun_answers` are the kernel's answers to come on each descriptor, in order; when
-- they are used up the descriptor is down. `sent` and `written` are what went out, the last first.
pub record Server : Type 0 where
  pub stop : Bool
  pub in_emergency : Bool
  pub pool : Pool
  pub ipv4_map : RouteMap
  pub max_conn : ℕ
  pub buf : Buf
  pub len : ℕ
  pub udp_answers : List Attempt
  pub tun_answers : List Attempt
  pub sent : List Datagram
  pub written : List TunWrite

-- What the code takes from the C library and from the user files while it handles one event:
-- gettimeofday() (`none` on failure), whether malloc() succeeds, teavpn2_auth() (the bytes of the
-- `struct if_info` if it accepts), ntohl(inet_addr()), and the text that snprintf() makes of a
-- rejection.
pub record Env : Type 0 where
  pub now : Option ℕ
  pub allocated : Bool
  pub auth : List ℕ → List ℕ → Option (List ℕ)
  pub inet_addr : List ℕ → ℕ
  pub reject_msg : ℕ → Buf → List ℕ

-- Session `i`, and the server after a change of it.
abbrev pub session : Server → ℕ → UdpSess
session st i = sess_at st.pool.sess_arr i

abbrev pub with_session : Server → ℕ → (UdpSess → UdpSess) → Server
with_session st i f =
    let p = st.pool in
    record st { pool = record p { sess_arr = set p.sess_arr i (f (session st i)) } }
