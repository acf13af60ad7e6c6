-- ===== src/Tests/Loops.antt =====
-- The event loop of the server, its set-up and its end at concrete inputs.
use teavpn.Common.{
  some, ◌-◌, fail, ◌⊎◌, ◌+◌, refl, none, ◌≡◌, arith, true, false, List, [], ◌∷◌, ret, eintr,
}
use teavpn.Server.Event.{datagram}
use teavpn.Server.Tun.{packet}
use teavpn.Server.Reach.{Reach, start, started}
use teavpn.Server.Valid.{IsValid}
use teavpn.Server.Loop.{on_udp, on_tun, Event, Waited, interrupted, events, run_event_loop}
use teavpn.Server.Loop.Runs.{run_event_loop_lem}
use teavpn.Epoll.{
  Fds, Registry, asked, epoll_add, init_epoll_fd_add, init_epoll_thread, alloc_pkt, threads_from,
  init_epoll_thread_array,
}
use teavpn.Epoll.Adds.{watched, times}
use teavpn.Epoll.Once.{init_epoll_thread_array_lem}
use teavpn.TunFds.{open_tun_fds}
use teavpn.TunFds.Leaks.{NoLeak, open_tun_fds_lem}
use teavpn.Server.Life.{loop, serve, serve_lem}
use teavpn.Server.Shutdown.{Resources}
use teavpn.Server.Shutdown.Release.{Ends}
use teavpn.Tests.Pools.{fresh_pool, fresh_run}
use teavpn.Tests.Servers.{welcoming, waiting, waiting-Quiet}

-- A packet of unknown type from somebody, then a packet from the TUN device.
abbrev first_round : List Event
first_round =
    record {
      source = on_udp welcoming (
          datagram (9 ∷ 0 ∷ 0 ∷ 0 ∷ []) (record { sin_addr = 117440522; sin_port = 34835 })
            167772167 5000);
      udp_answers = waiting.udp_answers;
      tun_answers = [];
      signalled = false;
    }
    ∷ record {
      source = on_tun (packet (69 ∷ 0 ∷ []));
      udp_answers = [];
      tun_answers = [];
      signalled = true;
    }
    ∷ []

abbrev rounds : List Waited
rounds =
    interrupted eintr false ∷ events first_round ∷ interrupted eintr true ∷ interrupted 9 false ∷ []

run_event_loop_lem_example :
    let st = started 4 fresh_pool in
    Reach (run_event_loop rounds st).1
    × IsValid (run_event_loop rounds st).1
    × ((st.stop ≡ false) ⊎ (run_event_loop rounds st ≡ (ret 0, st)))
run_event_loop_lem_example =
    run_event_loop_lem rounds (start true 4 fresh_pool (omega arith) (omega arith) fresh_run)
      ((waiting-Quiet, (tt, tt)), tt)

-- The same server with the descriptors of two threads.
abbrev started_resources : Resources
started_resources = record {
  server = started 4 fresh_pool;
  epoll_fds = some 6 ∷ some 7 ∷ [];
  udp_fd = some 3;
  tun_fds = some 4 ∷ some 5 ∷ [];
  threads_wont_exit = false;
  released = [];
}

-- The reaper has gone at the first load, and the other threads at the third.
serve_lem_example :
    let (result, r') = serve rounds (λ k. 0) (λ k. 2 - k) started_resources in
    (result ≡ (loop rounds started_resources).0)
    × IsValid r'.server
    × Ends
        (λ k. 0)
        (λ k. 2 - k)
        (record started_resources { server = (loop rounds started_resources).1 })
        r'
serve_lem_example =
    serve_lem rounds (λ k. 0) (λ k. 2 - k) started_resources
      (start true 4 fresh_pool (omega arith) (omega arith) fresh_run)
      ((waiting-Quiet, (tt, tt)), tt) refl

-- Two threads, with the UDP descriptor 3 and the TUN descriptors 4 and 5.
abbrev two_threads : Fds
two_threads = record { nn = 2; udp_fd = 3; tun_fds = 4 ∷ 5 ∷ [] }

abbrev answering : Registry
answering = record {
  answers = ret 6 ∷ ret 0 ∷ ret 7 ∷ ret 0 ∷ ret 0 ∷ [];
  memory = none ∷ none ∷ [];
  added = [];
}

set_up : (init_epoll_thread_array two_threads answering).0 ≡ ret 0
unfolding init_epoll_thread_array threads_from init_epoll_thread init_epoll_fd_add epoll_add asked
    alloc_pkt
set_up = refl

init_epoll_thread_array_lem_example :
    watched 4 (init_epoll_thread_array two_threads answering).1.added ≡ times 4 (3 ∷ 4 ∷ 5 ∷ []) + 0
init_epoll_thread_array_lem_example =
    init_epoll_thread_array_lem two_threads answering 0 (omega arith) refl set_up 4

-- The third TUN descriptor cannot be opened.
open_tun_fds_lem_example :
    NoLeak (open_tun_fds false 3 (ret 4 ∷ ret 5 ∷ fail 24 ∷ []) (ret 0 ∷ ret 0 ∷ []))
open_tun_fds_lem_example =
    open_tun_fds_lem false 3 (ret 4 ∷ ret 5 ∷ fail 24 ∷ []) (ret 0 ∷ ret 0 ∷ [])
