-- ===== src/Protocol/Downstream.antt =====
-- From the server's TUN device to a client's.
use teavpn.Common.{
  ℕ, suc, false, ◌+◌, ◌%◌, ◌^◌, ◌≤◌, ◌<◌, ◌≡◌, refl, ◌∙◌, ap, arith, Option, List, ◌∷◌, length,
  take, take_over, Ret, ret, length-take,
}
use teavpn.Packet.{Buf, write, pprep, pkt_type, pkt_len, body, size_raw, tsrv_tun_data}
use teavpn.Packet.Fields.{get_or-pprep}
use teavpn.Packet.Sizes.{pprep-length}
use teavpn.Client.{Client, Reply, arrived}
use teavpn.Client.Socket.{do_recv_from}
use teavpn.Client.Event.{handle_event_tun, handle_tun_data, recv_from_server, handle_event_udp}
use teavpn.Server.{Server, Attempt, session}
use teavpn.Route.{get_ipv4_route_map}
use teavpn.Client.Event
use teavpn.Server.Send.{send_to_client, send_loop}
use teavpn.Server.Tun.{
  packet, ip_version, ip_daddr, handle_event_from_tun, route_packet, route_or_broadcast,
  route_or_all, route_ipv4_packet,
}
use teavpn.Protocol.Data.{write_of, data_packet, found, length-packet, not_empty}

-- A prepared packet with a route to session `i`, and the socket's answer.
module _ (st : Server) (i n : ℕ) (a : Attempt) (rest : List Attempt) (k : ℕ)
    (here : st.udp_answers ≡ a ∷ rest) (taken : a.io ≡ ret (suc k)) (filled : 0 < n) where
  abbrev delivered : Server
  delivered = record st {
    in_emergency = false;
    udp_answers = rest;
    sent = record { dst = (session st i).addr; bytes = take n st.buf } ∷ st.sent;
  }

  send_delivers : send_to_client st i n ≡ (ret (suc k), delivered)
  unfolding send_to_client send_loop
  send_delivers = rw (not_empty n filled, here, taken) refl

  one_delivers :
      get_ipv4_route_map st.ipv4_map (ip_daddr st.buf) ≡ ret i
      → route_ipv4_packet st (ip_daddr st.buf) n ≡ (ret 0, delivered)
  unfolding route_ipv4_packet
  one_delivers routed = rw (route_ipv4_packet, routed, send_delivers) refl

  route_delivers :
      get_ipv4_route_map st.ipv4_map (ip_daddr st.buf) ≡ ret i
      → ip_version st.buf ≡ 4
      → (route_or_broadcast st n).1 ≡ delivered
  unfolding route_or_broadcast route_or_all
  route_delivers routed ipv4 =
      rw (ipv4, route_or_all, one_delivers routed, one_delivers routed) refl

-- The other way: a packet that the server reads from its device, with a route to session `i`.
module _ (st : Server) (i : ℕ) (bytes : List ℕ) (a : Attempt) (rest : List Attempt) (k : ℕ)
    (here : st.udp_answers ≡ a ∷ rest) (taken : a.io ≡ ret (suc k))
    (ipv4 : ip_version (write st.buf 4 bytes) ≡ 4)
    (routed : get_ipv4_route_map st.ipv4_map (ip_daddr (write st.buf 4 bytes)) ≡ ret i)
    (fits : length bytes ≤ 4092) where
  abbrev filled : Buf
  filled = write st.buf 4 bytes

  server_sends :
      (handle_event_from_tun st (packet bytes)).1.sent
      ≡ record { dst = (session st i).addr; bytes = data_packet tsrv_tun_data st.buf bytes }
        ∷ st.sent
  unfolding handle_event_from_tun route_packet
  server_sends =
      let (n, buf) = pprep filled tsrv_tun_data (length bytes) 0 in
      let whole : take size_raw bytes ≡ bytes = take_over size_raw bytes (omega arith) in
      let small : length bytes % 2 ^ 16 ≡ length bytes = omega arith in
      let same = get_or-pprep filled tsrv_tun_data (length bytes) 0 in
      let st' = record st { buf = buf; len = length bytes } in
      rw (whole, small)
        (ap Server.sent (
          route_delivers st' i n a rest k here taken
            (omega (arith, pprep-length filled tsrv_tun_data (length bytes) 0))
            (rw
              (
                same 20 (omega arith),
                same 21 (omega arith),
                same 22 (omega arith),
                same 23 (omega arith),
              )
              routed)
            (rw (same 4 (omega arith)) ipv4)))

-- What the client does with data in its buffer.
module _ (now : Option ℕ) (cl : Client) (bytes : List ℕ) (k : ℕ) (writes : List Ret)
    (here : cl.writes ≡ ret k ∷ writes)
    (contents : (pkt_type cl.buf ≡ tsrv_tun_data)
      × (pkt_len cl.buf ≡ length bytes)
      × (body cl.buf 0 (length bytes) ≡ bytes)) where
  client_takes : (handle_tun_data cl).1.written ≡ write_of bytes ∷ cl.written
  unfolding handle_tun_data
  client_takes = let (t, l, b) = contents in rw (handle_tun_data, here, l, b) refl

  client_dispatch : (Event.dispatch now cl).1.written ≡ write_of bytes ∷ cl.written
  unfolding Event.dispatch
  client_dispatch = rw (contents.0, client_takes) refl

module _ (now : Option ℕ) (cl : Client) (packet : List ℕ) (replies : List Reply) (n : ℕ)
    (e : cl.replies ≡ arrived packet ∷ replies) (full : length (take size_raw packet) ≡ suc n) where
  abbrev heard_packet : Client
  heard_packet = record cl {
    replies = replies;
    buf = write cl.buf 0 (take size_raw packet);
    len = suc n;
  }

  client_receives : recv_from_server cl ≡ (ret (suc n), heard_packet)
  unfolding recv_from_server do_recv_from
  client_receives = rw (e, full) refl

  client_handles : handle_event_udp now cl ≡ Event.dispatch now heard_packet
  unfolding handle_event_udp
  client_handles = rw (handle_event_udp, client_receives, client_receives) refl

-- The data that the server sends is written to the client's device.
client_writes :
    (now : Option ℕ) (cl : Client) (buf : Buf) (bytes : List ℕ) (k : ℕ) (writes : List Ret)
    (replies : List Reply)
    → length cl.buf ≡ 4100
    → length buf ≡ 4100
    → length bytes ≤ 4092
    → cl.writes ≡ ret k ∷ writes
    → cl.replies ≡ arrived (data_packet tsrv_tun_data buf bytes) ∷ replies
    → (handle_event_udp now cl).1.written ≡ write_of bytes ∷ cl.written
client_writes now cl buf bytes k writes replies room room' fits here e =
    let packet = data_packet tsrv_tun_data buf bytes in
    let n = length bytes + 3 in
    let full : length (take size_raw packet) ≡ suc n =
      omega
        (arith, length-take size_raw packet, length-packet tsrv_tun_data buf bytes room' fits) in
    ap (λ r. Client.written r.1) (client_handles now cl packet replies n e full)
    ∙ client_dispatch now (heard_packet now cl packet replies n e full) bytes k writes here
        (found tsrv_tun_data buf cl.buf bytes room' room fits)

-- What the server reads from its TUN device is what the client of the destination's session writes to
-- its own. The packet that handle_event_from_tun() sends for `bytes`, IPv4 with a route to session `i`,
-- goes to that session's address, and has the client that receives it write those bytes in one write,
-- whatever the two buffers held. The bytes are at most 4092, and the socket and the client's device
-- take what they are asked to.
pub server_to_client :
    (st : Server) (now : Option ℕ) (cl : Client) (i : ℕ) (bytes : List ℕ) (k n : ℕ)
    (writes : List Ret) (replies : List Reply) (a : Attempt) (rest : List Attempt)
    → length st.buf ≡ 4100
    → length cl.buf ≡ 4100
    → length bytes ≤ 4092
    → ip_version (write st.buf 4 bytes) ≡ 4
    → get_ipv4_route_map st.ipv4_map (ip_daddr (write st.buf 4 bytes)) ≡ ret i
    → st.udp_answers ≡ a ∷ rest
    → a.io ≡ ret (suc n)
    → cl.writes ≡ ret k ∷ writes
    → (datagram : List ℕ) × ((handle_event_from_tun st (packet bytes)).1.sent
        ≡ record { dst = (session st i).addr; bytes = datagram } ∷ st.sent)
      × ((handle_event_udp now (record cl { replies = arrived datagram ∷ replies })).1.written
          ≡ write_of bytes ∷ cl.written)
server_to_client st now cl i bytes k n writes replies a rest room room' fits ipv4 routed here taken
      e =
    (
      data_packet tsrv_tun_data st.buf bytes,
      server_sends st i bytes a rest n here taken ipv4 routed fits,
      client_writes now
          (record cl { replies = arrived (data_packet tsrv_tun_data st.buf bytes) ∷ replies })
          st.buf bytes k writes replies room' room fits e refl,
    )
