-- ===== src/Server/Shutdown.antt =====
-- The end of the server: from wait_for_zr_thread_to_exit() to destroy_epoll() of
-- src/teavpn2/server/linux/udp_epoll.c, and close_udp_fd(), close_tun_fds() and destroy_state() of
-- src/teavpn2/server/linux/udp.c, for a server whose set-up was completed.
pub mod Wait
pub mod Sessions
pub mod Farewell
pub mod Release
use teavpn.Common.{
  ℕ, zero, suc, ◌+◌, Bool, true, false, ◌&&◌, Option, none, some, List, [], ◌∷◌, ◌++◌, ◌==◌, ltb,
  if◌then◌else◌,
}
use teavpn.Server.{Server, session}
use teavpn.Server.Close.{close_udp_session}

-- The loop that waits while threads are online, with its counter. `seen k` is what the load of round
-- `k` gives, a number of threads or a flag; `rounds` only bounds the recursion.
unfoldable pub wait_loop : ℕ → ℕ → (ℕ → ℕ) → Bool
wait_loop zero wait_c seen = false
wait_loop (suc rounds) wait_c seen =
    let rest = wait_loop rounds (wait_c + 1) seen in
    if seen wait_c == 0 then true else if ltb 1000 wait_c then false else rest

-- `wait_for_zr_thread_to_exit` and `wait_for_tun_wrk_threads_to_exit`: the first load is before the
-- signals are sent, and the loop loads again.
unfoldable pub wait_for_exit : ℕ → (ℕ → ℕ) → Bool
wait_for_exit rounds seen = if seen 0 == 0 then true else wait_loop rounds 0 (λ k. seen (suc k))

-- The rounds that the loop can take.
abbrev pub wait_rounds : ℕ
wait_rounds = 1002

abbrev pub wait_for_threads_to_exit : (ℕ → ℕ) → (ℕ → ℕ) → Bool
wait_for_threads_to_exit zr tun = wait_for_exit wait_rounds zr && wait_for_exit wait_rounds tun

abbrev pub close_if_connected : Server → ℕ → Server
close_if_connected st i = if (session st i).is_connected then (close_udp_session st i).1 else st

-- The loop of `close_client_sess` from session `i` on, `rounds` times.
unfoldable pub close_from : ℕ → ℕ → Server → Server
close_from zero i st = st
close_from (suc rounds) i st = close_from rounds (i + 1) (close_if_connected st i)

unfoldable pub close_client_sess : Server → Server
close_client_sess st = close_from st.max_conn 0 st

-- What is given back to the system: descriptors and memory.
pub data Resource : Type 0 where
  fd : ℕ → Resource
  pkt : ℕ → Resource
  epl_threads sess_stk sess_arr sess_map ipv4_map tun_fd_arr state : Resource

-- The server with the descriptors that are open, `none` for -1, the flag, and what was given back, the
-- first one first.
pub record Resources : Type 0 where
  pub server : Server
  pub epoll_fds : List (Option ℕ)
  pub udp_fd : Option ℕ
  pub tun_fds : List (Option ℕ)
  pub threads_wont_exit : Bool
  pub released : List Resource

-- The descriptors of a list that are not -1, closed in order.
unfoldable pub closed_fds : List (Option ℕ) → List Resource
closed_fds [] = []
closed_fds (none ∷ fds) = closed_fds fds
closed_fds (some n ∷ fds) = fd n ∷ closed_fds fds

-- The packets of the threads from `i` on, one for each.
unfoldable pub freed_pkts : ℕ → List (Option ℕ) → List Resource
freed_pkts i [] = []
freed_pkts i (t ∷ ts) = pkt i ∷ freed_pkts (i + 1) ts

abbrev pub release : Resources → List Resource → Resources
release r more = record r { released = r.released ++ more }

abbrev pub close_epoll_fds : Resources → Resources
close_epoll_fds r = release r (closed_fds r.epoll_fds)

abbrev pub free_pkt_buffer : Resources → Resources
free_pkt_buffer r = release r (freed_pkts 0 r.epoll_fds)

-- `zr` and `tun` are what the loads of the two waits give.
unfoldable pub destroy_epoll : (ℕ → ℕ) → (ℕ → ℕ) → Resources → Resources
destroy_epoll zr tun r =
    let closed = close_epoll_fds r in
    let left = record closed { server = close_client_sess closed.server } in
    if wait_for_threads_to_exit zr tun
    then release (free_pkt_buffer left) (epl_threads ∷ [])
    else record r { threads_wont_exit = true }

abbrev pub close_fds_state : Resources → Resources
close_fds_state r = release r (closed_fds (r.udp_fd ∷ r.tun_fds))

unfoldable pub destroy_state : Resources → Resources
destroy_state r =
    if r.threads_wont_exit
    then r
    else release (close_fds_state r)
        (sess_stk ∷ sess_arr ∷ sess_map ∷ ipv4_map ∷ tun_fd_arr ∷ state ∷ [])
