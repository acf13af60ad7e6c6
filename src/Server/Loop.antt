-- ===== src/Server/Loop.antt =====
-- The server's event loop: handle_event(), do_epoll_wait(), __run_event_loop() and the loop of
-- server_udp_epoll_run_event_loop() of src/teavpn2/server/linux/udp_epoll.c.
pub mod Runs
use teavpn.Common.{
  ℕ, zero, suc, Bool, List, [], ◌∷◌, ◌==◌, ◌||◌, if◌then◌else◌, Ret, ret, fail, eintr,
}
use teavpn.Server.{Server, Env, Attempt}
use teavpn.Server.Event.{Received}
use teavpn.Server.Receive.{handle_event_from_udp}
use teavpn.Server.Tun.{Read, handle_event_from_tun}

-- What is ready: the UDP socket, with what recvfrom() gives there, or a TUN device, with what read()
-- gives.
pub data Source : Type 0 where
  on_udp : Env → Received → Source
  on_tun : Read → Source

-- An event that epoll_wait() reports, with what the kernel answers while it is handled, and whether a
-- signal came before it that makes the handler set `stop`.
pub record Event : Type 0 where
  pub source : Source
  pub udp_answers : List Attempt
  pub tun_answers : List Attempt
  pub signalled : Bool

abbrev pub prepared : Server → Event → Server
prepared st e = record st {
  stop = st.stop || e.signalled;
  udp_answers = e.udp_answers;
  tun_answers = e.tun_answers;
}

abbrev pub handle_source : Server → Source → Ret × Server
handle_source st (on_udp env what) = handle_event_from_udp env st what
handle_source st (on_tun what) = handle_event_from_tun st what

unfoldable pub handle_event : Server → Event → Ret × Server
handle_event st e = handle_source (prepared st e) e.source

-- A loop goes on after 0, and ends with any other result.
abbrev pub after : Ret → Server → Ret × Server → Ret × Server
after (ret zero) st rest = rest
after (ret (suc n)) st rest = (ret (suc n), st)
after (fail e) st rest = (fail e, st)

-- The loop of `__run_event_loop` over the events reported: it ends with the first result but 0.
unfoldable pub handle_events : List Event → Server → Ret × Server
handle_events [] st = (ret 0, st)
handle_events (e ∷ es) st = let (r, st') = handle_event st e in after r st' (handle_events es st')

-- What epoll_wait() returns: an error, and whether a signal came that makes the handler set `stop`, or
-- the events.
pub data Waited : Type 0 where
  interrupted : ℕ → Bool → Waited
  events : List Event → Waited

-- `__run_event_loop`, with `do_epoll_wait`
unfoldable pub run_round : Server → Waited → Ret × Server
run_round st (interrupted e signalled) =
    (if e == eintr then ret 0 else fail e, record st { stop = st.stop || signalled })
run_round st (events es) = handle_events es st

-- The loop of `server_udp_epoll_run_event_loop` over the results of epoll_wait() to come: it ends when
-- `stop` is set, or after a round that returns an error.
unfoldable pub run_event_loop : List Waited → Server → Ret × Server
run_event_loop [] st = (ret 0, st)
run_event_loop (w ∷ ws) st =
    let (r, st') = run_round st w in
    let rest = run_event_loop ws st' in if st.stop then (ret 0, st) else after r st' rest
