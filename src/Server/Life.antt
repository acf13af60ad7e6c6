-- ===== src/Server/Life.antt =====
-- A server from the end of its set-up to its own end: teavpn2_udp_server_epoll() of
-- src/teavpn2/server/linux/udp_epoll.c once init_epoll_thread_array() has succeeded, and
-- destroy_state() after it. The rounds of the event loop stand for those of all threads, one event
-- after the other.
use teavpn.Common.{ℕ, ◌≡◌, refl, false, List, Ret}
use teavpn.Server.Loop.{Waited, run_event_loop}
use teavpn.Server.Loop.Runs.{QuietRounds, run_event_loop_lem}
use teavpn.Server.Reach.{Reach}
use teavpn.Server.Shutdown.{Resources, destroy_epoll, destroy_state}
use teavpn.Server.Shutdown.Release.{Ends, shut_down_lem, shut_down-IsValid}
use teavpn.Server.Valid.{IsValid}
use teavpn.Server.{Server}

-- The event loop, from a server that is not to stop.
abbrev pub loop : List Waited → Resources → Ret × Server
loop ws r = run_event_loop ws (record r.server { stop = false })

-- `ws` is what epoll_wait() reports, `zr` and `tun` what the loads of the two waits at the end give.
unfoldable pub serve : List Waited → (ℕ → ℕ) → (ℕ → ℕ) → Resources → Ret × Resources
serve ws zr tun r =
    let (result, st) = loop ws r in
    (result, destroy_state (destroy_epoll zr tun (record r { server = st })))

-- A server whose set-up a run completes serves any rounds of events, whatever the network, the device,
-- the clock and the user files answer, returns what its event loop returns, and ends in one of two
-- ways, with a valid state in both. Each of the two waits saw all its threads gone at one of at most
-- 1003 loads; then no session is in use any more, and each descriptor that was open is closed once.
-- Or one wait did not; then the sessions are as the event loop left them, and nothing is closed or
-- freed. sendto() must not answer EBADMSG.
pub serve_lem :
    (ws : List Waited) (zr tun : ℕ → ℕ) (r : Resources)
    → Reach (record r.server { stop = false })
    → QuietRounds ws
    → r.threads_wont_exit ≡ false
    → let (result, r') = serve ws zr tun r in
      (result ≡ (loop ws r).0)
      × IsValid r'.server
      × Ends zr tun (record r { server = (loop ws r).1 }) r'
unfolding serve
serve_lem ws zr tun r reached quiet on =
    let (again, v, halts) = run_event_loop_lem ws reached quiet in
    (
      refl,
      shut_down-IsValid zr tun (record r { server = (loop ws r).1 }) v on,
      shut_down_lem zr tun (record r { server = (loop ws r).1 }) v on,
    )
