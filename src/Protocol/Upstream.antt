-- ===== src/Protocol/Upstream.antt =====
-- From the client's TUN device to the server's.
use teavpn.Common.{
  ℕ, suc, false, ◌%◌, ◌^◌, ◌≤◌, ◌<◌, ◌≡◌, refl, ◌∙◌, arith, some, List, ◌∷◌, ◌==◌, length, take,
  take_over, Ret, ret, length-take,
}
use teavpn.Packet.{Buf, pkt_type, pkt_len, body, size_raw, tcli_tun_data}
use teavpn.Session.{SockAddr, lookup_udp_sess}
use teavpn.Client.{Client, frame}
use teavpn.Client.Socket.{do_send_to, send_packet}
use teavpn.Client.Event.{handle_event_tun}
use teavpn.Server.{Server, Env, Attempt}
use teavpn.Server.Event.{datagram, cut_off, dispatch, handle_clpkt_tun_data, tun_loop}
use teavpn.Server.Event.Written.{handle_packet_from-written}
use teavpn.Server.Receive.{handle_event_from_udp}
use teavpn.Protocol.Data.{write_of, data_packet, got, found, length-packet, not_empty}

module _ (cl : Client) (bytes : List ℕ) (room : length cl.buf ≡ 4100)
    (fits : length bytes ≤ 4092) where
  client_sends :
      (k : ℕ) (rest : List Ret)
      → cl.sends ≡ ret k ∷ rest
      → let (r, cl') = handle_event_tun cl (frame bytes) in
        (r ≡ ret 0) × (cl'.sent ≡ data_packet tcli_tun_data cl.buf bytes ∷ cl.sent)
  unfolding handle_event_tun send_packet do_send_to
  client_sends k rest e =
      let whole : take size_raw bytes ≡ bytes = take_over size_raw bytes (omega arith) in
      let small : length bytes % 2 ^ 16 ≡ length bytes = omega arith in
      rw (whole, small, e) (refl, refl)

-- A client's data in the server's buffer, and the device's answer.
module _ (env : Env) (st : Server) (i : ℕ) (bytes : List ℕ) (a : Attempt) (rest : List Attempt)
    (k : ℕ) (here : st.tun_answers ≡ a ∷ rest) (taken : a.io ≡ ret (suc k))
    (some_data : 0 < length bytes)
    (contents : (pkt_type st.buf ≡ tcli_tun_data)
      × (pkt_len st.buf ≡ length bytes)
      × (body st.buf 0 (length bytes) ≡ bytes)) where
  data_written :
      handle_clpkt_tun_data st
      ≡ (ret 0, record st { tun_answers = rest; written = write_of bytes ∷ st.written })
  unfolding handle_clpkt_tun_data tun_loop
  data_written =
      let (t, l, b) = contents in
      let full = not_empty (length bytes) some_data in rw (l, full, b, here, taken) refl

  dispatch_written : (dispatch env st i).1.written ≡ write_of bytes ∷ st.written
  unfolding dispatch
  dispatch_written = rw (contents.0, data_written) refl

module _ (env : Env) (st : Server) (saddr : SockAddr) (addr port : ℕ) (i : ℕ) (a : Attempt)
    (rest : List Attempt) (k : ℕ) (known : lookup_udp_sess st.pool addr port ≡ some i)
    (here : st.tun_answers ≡ a ∷ rest) (taken : a.io ≡ ret (suc k))
    (room : length st.buf ≡ 4100) where
  server_writes :
      (buf : Buf) (bytes : List ℕ)
      → length buf ≡ 4100
      → 0 < length bytes
      → length bytes ≤ 4092
      → (handle_event_from_udp env st
          (datagram (data_packet tcli_tun_data buf bytes) saddr addr port)).1.written
        ≡ write_of bytes ∷ st.written
  unfolding handle_event_from_udp
  server_writes buf bytes room' some_data fits =
      let packet = data_packet tcli_tun_data buf bytes in
      let st' = record st {
        buf = got tcli_tun_data buf st.buf bytes room' room fits;
        len = length (cut_off packet);
      } in
      let full : (length (cut_off packet) == 0) ≡ false = not_empty (length (cut_off packet)) (
        omega
          (arith, length-take size_raw packet, length-packet tcli_tun_data buf bytes room' fits)) in
      rw full (
        handle_packet_from-written env st' saddr addr port i known
        ∙ dispatch_written env st' i bytes a rest k here taken some_data
            (found tcli_tun_data buf st.buf bytes room' room fits))

-- What the client reads from its TUN device is what the server writes to its own. The packet that
-- handle_event_tun() sends for `bytes`, received by the server from an address with a session, has the
-- server write those bytes in one write, whatever the two buffers held. The bytes are at least 1 and at
-- most 4092, and the socket and the server's device take what they are asked to.
pub client_to_server :
    (cl : Client) (env : Env) (st : Server) (saddr : SockAddr) (addr port i : ℕ) (bytes : List ℕ)
    (k n : ℕ) (sends : List Ret) (a : Attempt) (rest : List Attempt)
    → length cl.buf ≡ 4100
    → length st.buf ≡ 4100
    → 0 < length bytes
    → length bytes ≤ 4092
    → cl.sends ≡ ret k ∷ sends
    → lookup_udp_sess st.pool addr port ≡ some i
    → st.tun_answers ≡ a ∷ rest
    → a.io ≡ ret (suc n)
    → (packet : List ℕ) × ((handle_event_tun cl (frame bytes)).1.sent ≡ packet ∷ cl.sent)
      × ((handle_event_from_udp env st (datagram packet saddr addr port)).1.written
          ≡ write_of bytes ∷ st.written)
client_to_server cl env st saddr addr port i bytes k n sends a rest room room' some_data fits e
      known here taken =
    (
      data_packet tcli_tun_data cl.buf bytes,
      (client_sends cl bytes room fits k sends e).1,
      server_writes env st saddr addr port i a rest n known here taken room' cl.buf bytes room
          some_data fits,
    )
