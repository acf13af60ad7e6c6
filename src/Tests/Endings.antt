-- ===== src/Tests/Endings.antt =====
-- The theorems on threads and on the end of the server at concrete inputs.
use teavpn.Common.{
  ℕ, ◌-◌, ◌≡◌, refl, arith, true, false, none, some, [], ◌∷◌, ◌++◌, fail, enoent, same_place,
}
use teavpn.Route.{get_ipv4_route_map}
use teavpn.Session.{lookup_udp_sess, create_udp_sess, map_insert}
use teavpn.Stack
use teavpn.Server.{session}
use teavpn.Server.Shutdown.{
  wait_for_exit, wait_loop, close_client_sess, Resources, destroy_epoll, destroy_state,
}
use teavpn.Server.Shutdown.Farewell.{goodbyes, count_used, TakesAll, close_client_sess-sent}
use teavpn.Server.Shutdown.Release.{shut_down}
use teavpn.Server.Shutdown.Sessions.{close_client_sess_lem}
use teavpn.Server.Threads.Barrier.{AllArrived, looping-AllArrived}
use teavpn.Server.Threads.{
  online, waiting, ready, looping, System, move, set_online, count_in, see_all, set_release, access,
  initial, Reach, begin, next,
}
use teavpn.Server.Valid.{IsValid}
use teavpn.Tests.Servers.{greeted, greeted-IsValid}

-- Three loads see a thread, and the fourth sees none.
abbrev three : ℕ → ℕ
three k = 3 - k

close_client_sess_lem_example :
    let st' = close_client_sess greeted in
    IsValid st'
    × ((j : ℕ) → (session st' j).is_connected ≡ false)
    × (st'.pool.n_on_sess ≡ 0)
    × ((a p : ℕ) → lookup_udp_sess st'.pool a p ≡ none)
    × ((a : ℕ) → same_place 0 a ≡ false → get_ipv4_route_map st'.ipv4_map a ≡ fail enoent)
close_client_sess_lem_example = close_client_sess_lem greeted-IsValid

enough : TakesAll (count_used (session greeted) greeted.max_conn 0) greeted.udp_answers
unfolding TakesAll count_used create_udp_sess Stack.pop map_insert
enough = ((515, refl), tt)

close_client_sess-sent_example :
    (close_client_sess greeted).sent ≡ goodbyes (session greeted) greeted.max_conn 0 ++ greeted.sent
close_client_sess-sent_example = close_client_sess-sent greeted-IsValid enough

-- The server with one client and two threads.
abbrev held : Resources
held = record {
  server = greeted;
  epoll_fds = some 7 ∷ some 8 ∷ [];
  udp_fd = some 3;
  tun_fds = some 4 ∷ none ∷ [];
  threads_wont_exit = false;
  released = [];
}

-- A thread that never ends keeps everything in place.
kept : (shut_down three (λ k. 1) held).released ≡ []
unfolding destroy_epoll destroy_state wait_for_exit wait_loop
kept = refl

-- Both of two threads are there.
abbrev both_online : System
both_online = move (move initial 0 online) 1 online

both_online-Reach : Reach 2 both_online
both_online-Reach =
    next (next begin (access 0 (omega arith) (set_online refl)))
      (access 1 (omega arith) (set_online refl))

abbrev both_waiting : System
both_waiting = record (move (record (move both_online 0 waiting) { n_on_threads = 1 }) 1 waiting) {
  n_on_threads = 2;
}

both_waiting-Reach : Reach 2 both_waiting
both_waiting-Reach =
    next (next both_online-Reach (access 0 (omega arith) (count_in refl)))
      (access 1 (omega arith) (count_in refl))

abbrev main_looping : System
main_looping = record (move (move both_waiting 0 ready) 0 looping) { release_sub_thread = true }

main_looping-Reach : Reach 2 main_looping
main_looping-Reach =
    next (next both_waiting-Reach (access 0 (omega arith) (see_all refl refl refl)))
      (access 0 (omega arith) (set_release refl))

looping-AllArrived_example : AllArrived 2 main_looping
looping-AllArrived_example =
    looping-AllArrived 2 (omega arith) main_looping-Reach refl 0 (omega arith) refl
