-- ===== src/Client/Event.antt =====
-- The client's event loop: recv_from_server(), handle_tun_data(), handle_req_sync(),
-- _handle_event_udp(), handle_event_udp(), handle_event_tun(), handle_event() and do_epoll_wait() of
-- src/teavpn2/client/linux/udp_epoll.c.
pub mod Received
pub mod Effects
use teavpn.Common.{
  ℕ, zero, suc, ◌+◌, ◌%◌, ◌^◌, Option, none, some, true, List, [], ◌∷◌, ◌==◌, if◌then◌else◌, take,
  drop, length, Ret, ret, fail, eintr, eagain, ebadrqc, enetdown,
}
use teavpn.Packet.{
  Buf, write, pprep, pkt_type, pkt_len, body, size_raw, tsrv_handshake, tsrv_auth_ok, tsrv_tun_data,
  tsrv_reqsync, tsrv_sync, tsrv_close, tcli_tun_data,
}
use teavpn.Session.{stamp}
use teavpn.Server.{TunWrite}
use teavpn.Client.{Client, Frame, unread, frame}
use teavpn.Client.Socket.{send_packet, do_recv_from}

-- `recv_from_server`: the length is kept only for a packet that is not empty.
unfoldable pub recv_from_server : Client → Ret × Client
recv_from_server st =
    let (r, st') = do_recv_from st size_raw in
    elim r [
      | ret zero ↦ (fail enetdown, st')
      | ret (suc n) ↦ (ret (suc n), record st' { len = suc n })
      | fail e ↦ (if e == eagain then ret 0 else fail e, st')
    ]

-- `handle_tun_data`: as many bytes of the body as the packet says are written to the device. The buffer
-- holds `size_raw` of them; a write of more reads what lies behind it.
unfoldable pub handle_tun_data : Client → Ret × Client
handle_tun_data st =
    let n = pkt_len st.buf in
    elim st.writes [
      | [] ↦ (fail enetdown, st)
      | a ∷ rest ↦
          (let asked = record st { writes = rest } in
            elim a [
              | fail e ↦ (fail e, asked)
              | ret _ ↦ (
                ret 0,
                record asked {
                  written = record { asked = n; bytes = body st.buf 0 n } ∷ st.written;
                },
              )
            ])
    ]

unfoldable pub handle_req_sync : Client → Ret × Client
handle_req_sync st = send_packet st (pprep st.buf tsrv_sync 0 0)

-- `get_unix_time(&state->last_t)`: `now` is `none` if the clock fails.
abbrev pub heard : Option ℕ → Client → Client
heard now st = record st { last_t = stamp now st.last_t }

-- `_handle_event_udp`
unfoldable pub dispatch : Option ℕ → Client → Ret × Client
dispatch now st =
    let type = pkt_type st.buf in
    if type == tsrv_handshake
    then (ret 0, st)
    else if type == tsrv_auth_ok
    then (ret 0, st)
    else if type == tsrv_tun_data
    then handle_tun_data st
    else if type == tsrv_reqsync
    then (let (r, st') = handle_req_sync st in (r, heard now st'))
    else if type == tsrv_sync
    then (ret 0, heard now st)
    else if type == tsrv_close
    then (ret 0, record st { stop = true })
    else (fail ebadrqc, st)

unfoldable pub handle_event_udp : Option ℕ → Client → Ret × Client
handle_event_udp now st =
    let (r, st') = recv_from_server st in
    elim r [ fail e ↦ (fail e, st') | ret zero ↦ (ret 0, st') | ret (suc n) ↦ dispatch now st' ]

-- `handle_event_tun`; the length is cut to 16 bits.
unfoldable pub handle_event_tun : Client → Frame → Ret × Client
handle_event_tun st (unread e) = if e == eagain then (ret 0, st) else (fail e, st)
handle_event_tun st (frame bytes) =
    let got = take size_raw bytes in
    send_packet st (pprep (write st.buf 4 got) tcli_tun_data (length got % 2 ^ 16) 0)

-- What epoll_wait() reports: the UDP socket, or a TUN device with what read() gives there; with the
-- clock for the event.
pub data Ready : Type 0 where
  on_udp : Option ℕ → Ready
  on_tun : Option ℕ → Frame → Ready

abbrev pub ready_time : Ready → Option ℕ
ready_time (on_udp now) = now
ready_time (on_tun now f) = now

-- `(state->loop_c++ % UDP_LOOP_C_DEADLINE) == 0` on an 8-bit counter
unfoldable pub count_round : Option ℕ → Client → Client
count_round now st =
    let counted = record st { loop_c = (st.loop_c + 1) % 256 } in
    if st.loop_c % 64 == 0 then heard now counted else counted

unfoldable pub handle_event : Client → Ready → Ret × Client
handle_event st e =
    let (r, st') = elim e as (λ x. Ret × Client) [
      | on_udp now ↦ handle_event_udp now st
      | on_tun now f ↦ handle_event_tun st f
    ] in
    (r, count_round (ready_time e) st')

-- The loop of `do_epoll_wait` over the events reported.
unfoldable pub handle_events : List Ready → Client → Ret × Client
handle_events [] st = (ret 0, st)
handle_events (e ∷ es) st =
    let (r, st') = handle_event st e in
    elim r [
      | fail n ↦ (fail n, st')
      | ret zero ↦ handle_events es st'
      | ret (suc n) ↦ (ret (suc n), st')
    ]

-- What epoll_wait() returns: an error, or the events.
pub data Waited : Type 0 where
  interrupted : ℕ → Waited
  events : List Ready → Waited

unfoldable pub do_epoll_wait : Client → Waited → Ret × Client
do_epoll_wait st (interrupted e) = if e == eintr then (ret 0, st) else (fail e, st)
do_epoll_wait st (events es) = handle_events es st

-- `client_udp_epoll_run_event_loop` over the results of epoll_wait() to come: it ends when `stop` is set
-- or a round fails, which sets `stop`.
unfoldable pub run_event_loop : List Waited → Client → Ret × Client
run_event_loop [] st = (ret 0, st)
run_event_loop (w ∷ ws) st =
    if st.stop
    then (ret 0, st)
    else (let (r, st') = do_epoll_wait st w in
        elim r [
          | ret zero ↦ run_event_loop ws st'
          | ret (suc n) ↦ (ret (suc n), record st' { stop = true })
          | fail e ↦ (fail e, record st' { stop = true })
        ])
