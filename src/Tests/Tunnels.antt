-- ===== src/Tests/Tunnels.antt =====
-- The theorems on client and server together at concrete inputs.
use teavpn.Common.{
  ℕ, ◌≡◌, refl, arith, true, false, none, some, List, [], ◌∷◌, ◌++◌, replicate, length, drop, ◌∙◌,
  ◌||◌, if◌then◌else◌, ret, fail, enetdown,
}
use teavpn.Packet.{
  write, strncpy2, pprep, size_raw, cli_pprep_handshake, srv_pprep_handshake, cli_pprep_auth,
}
use teavpn.Packet.Sizes.{length-cli_pprep_auth}
use teavpn.Route.{add_ipv4_route_map, get_ipv4_route_map}
use teavpn.Stack
use teavpn.Session.{SockAddr, lookup_udp_sess, create_udp_sess, map_insert}
use teavpn.Server.{Server, session}
use teavpn.Server.Auth.{admit, handle_clpkt_auth}
use teavpn.Server.Auth.Admission.{acceptance}
use teavpn.Server.Close.{send_prepared}
use teavpn.Server.Send.{send_loop, send_to_client}
use teavpn.Server.Event.{datagram}
use teavpn.Server.Handshake.{handshake_verdict}
use teavpn.Server.Receive.{handle_event_from_udp}
use teavpn.Server.Tun.{packet, ip_version, ip_daddr, handle_event_from_tun}
use teavpn.Client.{CliCfg, frame, arrived}
use teavpn.Client.Setup.{pkt_max_len, server_handshake_chk, wait_for_auth_response}
use teavpn.Client.Event.{handle_event_tun, handle_event_udp}
use teavpn.Protocol.Carry.{datagram_of, received}
use teavpn.Protocol.Data.{write_of}
use teavpn.Protocol.Upstream.{client_to_server}
use teavpn.Protocol.Downstream.{server_to_client}
use teavpn.Protocol.Greeting.{handshakes_lem}
use teavpn.Protocol.Login.{hearing, settings_lem}
use teavpn.Tests.Servers.{taken, welcoming, unknown, greeted, member, member-IsValid}
use teavpn.Tests.ClientSide.{idle, idle-room}

-- an IPv4 packet to 10.0.0.2
abbrev to_member : List ℕ
to_member = 69 ∷ 0 ∷ 0 ∷ 20 ∷ 0 ∷ 0 ∷ 0 ∷ 0 ∷ 64 ∷ 17 ∷ 0 ∷ 0 ∷ 10 ∷ 0 ∷ 0 ∷ 9 ∷ 10 ∷ 0 ∷ 0 ∷ 2 ∷ []

-- the address 10.0.0.7 and the port 5000, in network order
abbrev sender : SockAddr
sender = record { sin_addr = 117440522; sin_port = 34835 }

-- The server's device takes a packet.
abbrev serving : Server
serving = record member { tun_answers = taken ∷ [] }

known : lookup_udp_sess serving.pool 117440522 5000 ≡ some 0
unfolding admit lookup_udp_sess create_udp_sess Stack.pop map_insert
known = refl

client_to_server_example :
    (p : List ℕ) × ((handle_event_tun idle (frame to_member)).1.sent ≡ p ∷ idle.sent)
    × ((handle_event_from_udp welcoming serving (datagram p sender 117440522 5000)).1.written
        ≡ write_of to_member ∷ serving.written)
client_to_server_example =
    client_to_server idle welcoming serving sender 117440522 5000 0 to_member 4 515
      (ret 100 ∷ ret 100 ∷ ret 100 ∷ []) taken [] idle-room member-IsValid.buffer (omega arith)
      (omega arith) refl known refl refl

four_taken : serving.udp_answers ≡ taken ∷ taken ∷ taken ∷ taken ∷ []
unfolding admit
four_taken = refl

ipv4 : ip_version (write serving.buf 4 to_member) ≡ 4
unfolding write admit
ipv4 = refl

routed : get_ipv4_route_map serving.ipv4_map (ip_daddr (write serving.buf 4 to_member)) ≡ ret 0
unfolding write admit get_ipv4_route_map add_ipv4_route_map create_udp_sess Stack.pop map_insert
routed = refl

server_to_client_example :
    (p : List ℕ) × ((handle_event_from_tun serving (packet to_member)).1.sent
      ≡ record { dst = (session serving 0).addr; bytes = p } ∷ serving.sent)
    × ((handle_event_udp (some 1001) (record idle { replies = arrived p ∷ [] })).1.written
        ≡ write_of to_member ∷ idle.written)
server_to_client_example =
    server_to_client serving (some 1001) idle 0 to_member 20 515 [] [] taken
      (taken ∷ taken ∷ taken ∷ []) member-IsValid.buffer idle-room (omega arith) ipv4 routed
      four_taken refl refl

handshakes_lem_example :
    let hello = datagram_of (cli_pprep_handshake idle.buf) in
    let answer = datagram_of (srv_pprep_handshake idle.buf) in
    (length hello ≡ 100)
    × (handshake_verdict 100 (received size_raw idle.buf hello) ≡ none)
    × (length answer ≡ 100)
    × (server_handshake_chk 100 (received pkt_max_len idle.buf answer) ≡ ret 0)
handshakes_lem_example = handshakes_lem idle.buf idle.buf idle-room idle-room

-- the user "ab" with the password "c"
abbrev user : List ℕ
user = 97 ∷ 98 ∷ []

abbrev pass : List ℕ
pass = 99 ∷ []

-- The server has the packet of this user in its buffer.
abbrev asked : Server
asked = record greeted { buf = (cli_pprep_auth idle.buf user pass).1 }

abbrev config : CliCfg
config = record {
  username = user;
  password = pass;
  dev = 116 ∷ 117 ∷ 110 ∷ [];
  override_default = false;
  server_addr = [];
  iface_up = λ iff. true;
}

abbrev info_bytes : List ℕ
info_bytes = replicate 82 0

answered : (send_prepared asked 0 (acceptance asked info_bytes)).0 ≡ ret 516
unfolding send_to_client send_loop pprep
answered = refl

settings_lem_example :
    (d : List ℕ) × ((handle_clpkt_auth welcoming asked 0).1.sent
      ≡ record { dst = (session asked 0).addr; bytes = d } ∷ asked.sent)
    × (length d ≡ 88)
    × (let (r, cst') = wait_for_auth_response config (hearing 0 false d idle) in
        let iff = strncpy2 config.dev 16 ++ drop 16 info_bytes in
        (cst'.iff ≡ iff)
        × (cst'.need_remove_iff ≡ config.iface_up iff || idle.need_remove_iff)
        × (r ≡ (if config.iface_up iff then ret 0 else fail enetdown)))
settings_lem_example =
    settings_lem welcoming config asked idle 0 516 0 false info_bytes
      (length-cli_pprep_auth idle.buf user pass ∙ idle-room) idle-room refl refl (unknown 0)
      answered refl
