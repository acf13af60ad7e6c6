-- ===== src/Tests/Clients.antt =====
-- The theorems on the server at concrete inputs.
use teavpn.Common.{
  ℕ, ◌+◌, ◌≡◌, ◌≢◌, refl, ap, ◌∙◌, subst, Option, arith, true, false, not, ◌&&◌, none, some, List,
  [], ◌∷◌, ◌++◌, replicate, length, length-replicate, ret, fail, enoent, take, if◌then◌else◌,
  same_place, ◌==◌,
}
use teavpn.Packet.{write, cli_pprep_auth, cli_pprep_handshake}
use teavpn.Route.{get_ipv4_route_map}
use teavpn.Session.{SockAddr, lookup_udp_sess, is_from, reset_udp_session}
use teavpn.Server.{Server, Datagram, session}
use teavpn.Server.Send.{send_to_client}
use teavpn.Server.Send.Retry.{busy, send_to_client_retries}
use teavpn.Server.Close.{close_udp_session}
use teavpn.Server.Handshake.{handshake_verdict, greet_new_client}
use teavpn.Server.Handshake.Greeting.{Greets, greet_new_client_lem}
use teavpn.Server.Auth.{handle_clpkt_auth, admit}
use teavpn.Server.Auth.Admission.{Admits, handle_clpkt_auth_lem}
use teavpn.Packet.Sizes.{length-cli_pprep_auth}
use teavpn.Server.Event.{datagram, handle_packet_from}
use teavpn.Server.Event.Written.{Writes, handle_packet_from_lem}
use teavpn.Server.Receive.{handle_event_from_udp}
use teavpn.Server.Tun.{packet, handle_event_from_tun, ip_daddr}
use teavpn.Server.Tun.Routing.{ToMembers, tun_read, handle_event_from_tun-ToMembers}
use teavpn.Server.Reaper.{zombie_reaper_do_scan}
use teavpn.Server.Reaper.Timeouts.{is_stale, zombie_reaper_do_scan_lem}
use teavpn.Server.Reach.{Reach, start, next, kernel, udp_event, scan, started, Reach-IsValid}
use teavpn.Server.Valid.{IsValid}
use teavpn.Server.Valid.Close.{close_udp_session_lem}
use teavpn.Server.Valid.Event.{handle_event_from_udp-IsValid}
use teavpn.Tests.Pools.{fresh_pool, fresh_run, one_client-used}
use teavpn.Tests.Servers.{
  taken, welcoming, waiting, waiting-IsValid, waiting-Quiet, greeted, greeted-IsValid, unknown,
  member, member-IsValid,
}

-- the address 10.0.0.7 and the port 5000, in network order
abbrev sender : SockAddr
sender = record { sin_addr = 117440522; sin_port = 34835 }

-- the handshake of a client
abbrev hello : List ℕ
hello = take 100 (cli_pprep_handshake (replicate 4100 0)).1

-- A client says hello, and the reaper scans.
abbrev ran : Server
ran =
    zombie_reaper_do_scan (λ i. 900 + i)
      (handle_event_from_udp welcoming waiting (datagram hello sender 167772167 5000)).1

ran-Reach : Reach ran
ran-Reach =
    let begun = start true 4 fresh_pool (omega arith) (omega arith) fresh_run in
    let armed =
      next begun (
        kernel (started 4 fresh_pool) false (taken ∷ taken ∷ taken ∷ taken ∷ []) []
          waiting-Quiet) in
    next
      (next armed
        (udp_event welcoming waiting (datagram hello sender 167772167 5000) waiting-Quiet))
      (scan (λ i. 900 + i) _)

Reach-IsValid_example : IsValid ran
Reach-IsValid_example = Reach-IsValid ran-Reach

handle_event_from_udp-IsValid_example :
    IsValid (handle_event_from_udp welcoming waiting (datagram hello sender 167772167 5000)).1
handle_event_from_udp-IsValid_example =
    handle_event_from_udp-IsValid welcoming (datagram hello sender 167772167 5000) waiting-IsValid
      waiting-Quiet

-- The packet of the user "ab" with the password "c" is in the buffer.
abbrev asking : Server
asking = record greeted {
  buf = (cli_pprep_auth (replicate 4100 0) (97 ∷ 98 ∷ []) (99 ∷ [])).1;
  len = 516;
}

asking-IsValid : IsValid asking
asking-IsValid = record {
  pool = greeted-IsValid.pool;
  members = greeted-IsValid.members;
  routes = greeted-IsValid.routes;
  buffer =
      length-cli_pprep_auth (replicate 4100 0) (97 ∷ 98 ∷ []) (99 ∷ [])
      ∙ length-replicate {A = ℕ} 4100 0;
}

abbrev settings : Option (List ℕ) → List ℕ
settings none = []
settings (some info) = info

handle_clpkt_auth_lem_example :
    Admits welcoming asking 0 (some (replicate 82 0)) (handle_clpkt_auth welcoming asking 0)
handle_clpkt_auth_lem_example =
    handle_clpkt_auth_lem welcoming asking-IsValid 0 one_client-used
      (λ info e. subst (λ l. length l ≡ 82) (ap settings e) refl) (unknown 0)

-- The client of session 0 has sent two bytes of data.
abbrev data_packet : List ℕ
data_packet = 2 ∷ 0 ∷ 0 ∷ 2 ∷ 69 ∷ 70 ∷ []

abbrev sending : Server
sending = record greeted {
  buf = data_packet;
  len = 6;
  tun_answers = record { io = ret 2; poll = ret 1 } ∷ [];
}

handle_packet_from_lem_example :
    Writes sending 117440522 5000 (handle_packet_from welcoming sending sender 117440522 5000)
handle_packet_from_lem_example = handle_packet_from_lem welcoming sending sender 117440522 5000

-- The socket is full twice before it takes the packet.
abbrev slow : Server
slow = record greeted { udp_answers = busy 2 (taken ∷ []) }

send_to_client_retries_example : (send_to_client slow 0 4).0 ≡ ret 516
send_to_client_retries_example =
    send_to_client_retries 2 516 (ret 1) [] slow 0 4 refl refl (omega arith) (omega arith)

greet_new_client_lem_example :
    Greets greeted 0
      (handshake_verdict greeted.len greeted.buf)
      (greet_new_client welcoming greeted 0)
greet_new_client_lem_example =
    greet_new_client_lem welcoming greeted-IsValid 0 one_client-used waiting-Quiet

close_udp_session_lem_example :
    let (r, st') = close_udp_session greeted 0 in
    (r ≡ ret 0)
    × IsValid st'
    × (session st' 0 ≡ reset_udp_session 0)
    × ((j : ℕ) → j ≢ 0 → session st' j ≡ session greeted j)
    × (st'.pool.n_on_sess + 1 ≡ greeted.pool.n_on_sess)
    × ((a p : ℕ)
        → lookup_udp_sess st'.pool a p
          ≡ (if is_from (session greeted 0) a p then none else lookup_udp_sess greeted.pool a p))
    × ((a : ℕ)
        → get_ipv4_route_map st'.ipv4_map a ≡ (
            if not ((session greeted 0).ipv4_iff == 0) && same_place (session greeted 0).ipv4_iff a
            then fail enoent
            else get_ipv4_route_map greeted.ipv4_map a))
close_udp_session_lem_example = close_udp_session_lem greeted-IsValid 0 one_client-used

zombie_reaper_do_scan_lem_example :
    let st' = zombie_reaper_do_scan (λ i. 900 + i) member in
    IsValid st'
    × ((j : ℕ)
        → session st' j ≡ (
            if is_stale (900 + j) (session member j)
            then reset_udp_session j
            else session member j))
zombie_reaper_do_scan_lem_example = zombie_reaper_do_scan_lem (λ i. 900 + i) member-IsValid

-- an IPv4 packet to 10.0.0.2
abbrev ip_packet : List ℕ
ip_packet = 69 ∷ 0 ∷ 0 ∷ 20 ∷ 0 ∷ 0 ∷ 0 ∷ 0 ∷ 64 ∷ 17 ∷ 0 ∷ 0 ∷ 10 ∷ 0 ∷ 0 ∷ 9 ∷ 10 ∷ 0 ∷ 0 ∷ 2 ∷ []

clear : same_place 0 (ip_daddr (tun_read member ip_packet)) ≡ false
unfolding write admit
clear = refl

handle_event_from_tun-ToMembers_example :
    let st' = (handle_event_from_tun member (packet ip_packet)).1 in
    IsValid st'
    × (st'.pool ≡ member.pool)
    × (st'.ipv4_map ≡ member.ipv4_map)
    × (news : List Datagram) × (st'.sent ≡ news ++ member.sent)
    × ToMembers member.pool.sess_arr news
handle_event_from_tun-ToMembers_example =
    handle_event_from_tun-ToMembers member-IsValid ip_packet clear
