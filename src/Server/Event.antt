-- ===== src/Server/Event.antt =====
-- What the server does with a datagram: handle_clpkt_tun_data(), handle_clpkt_reqsync(),
-- __handle_event_from_udp(), _handle_event_from_udp() and handle_event_from_udp() of
-- src/teavpn2/server/linux/udp_epoll.c.
pub mod Unwritten
pub mod Written
use teavpn.Common.{
  ℕ, zero, suc, ◌+◌, ◌%◌, none, some, List, [], ◌∷◌, ◌==◌, if◌then◌else◌, take, Ret, ret, fail,
  eagain, ebadmsg, enetdown,
}
use teavpn.Packet.{
  pkt_type, pkt_len, body, srv_pprep_sync, size_raw, tcli_handshake, tcli_auth, tcli_tun_data,
  tcli_reqsync, tcli_sync, tcli_close,
}
use teavpn.Session.{SockAddr, stamp, lookup_udp_sess}
use teavpn.Server.{Server, Env, Attempt, TunWrite, session, with_session}
use teavpn.Server.Send.{emergency_wait, status}
use teavpn.Server.Close.{send_prepared, close_udp_session}
use teavpn.Server.Handshake.{handle_new_client}
use teavpn.Server.Auth.{handle_clpkt_auth}

-- The loop of `handle_clpkt_tun_data` for data that is not empty, over the device's answers left.
unfoldable pub tun_loop : List Attempt → TunWrite → Server → Ret × Server
tun_loop [] w st = (fail enetdown, record st { tun_answers = [] })
tun_loop (a ∷ rest) w st =
    let asked = record st { tun_answers = rest } in
    elim a.io [
      | ret zero ↦ (fail enetdown, asked)
      | ret (suc n) ↦ (ret 0, record asked { written = w ∷ st.written })
      | fail e ↦
          if e == eagain
          then (let (r, waited) = emergency_wait a.poll asked in
              elim r [ ret _ ↦ tun_loop rest w waited | fail e' ↦ (fail e', waited) ])
          else (fail e, asked)
    ]

-- `handle_clpkt_tun_data`: as many bytes of the body as the packet says are written to the device.
-- The buffer holds `size_raw` of them; a write of more reads what lies behind it.
unfoldable pub handle_clpkt_tun_data : Server → Ret × Server
handle_clpkt_tun_data st =
    let n = pkt_len st.buf in
    if n == 0
    then (ret 0, st)
    else tun_loop st.tun_answers (record { asked = n; bytes = body st.buf 0 n }) st

-- `udp_sess_update_last_act`
abbrev pub touch : Env → Server → ℕ → Server
touch env st i = with_session st i (λ s. record s { last_act = stamp env.now s.last_act })

unfoldable pub handle_clpkt_reqsync : Server → ℕ → Ret × Server
handle_clpkt_reqsync st i =
    let (r, st') = send_prepared st i (srv_pprep_sync st.buf) in (status r, st')

-- `__handle_event_from_udp`
unfoldable pub dispatch : Env → Server → ℕ → Ret × Server
dispatch env st i =
    let type = pkt_type st.buf in
    if type == tcli_handshake
    then (ret 0, st)
    else if type == tcli_auth
    then handle_clpkt_auth env st i
    else if type == tcli_tun_data
    then handle_clpkt_tun_data st
    else if type == tcli_reqsync
    then (let (r, st') = handle_clpkt_reqsync st i in (r, touch env st' i))
    else if type == tcli_sync
    then (ret 0, touch env st i)
    else if type == tcli_close
    then (ret 0, (close_udp_session st i).1)
    else (fail ebadmsg, st)

-- `++sess->loop_c % 32 == 0` on the 8-bit counter, and the sync packet of every 32nd round.
unfoldable pub count_round : Env → Server → ℕ → Server
count_round env st i =
    let c = ((session st i).loop_c + 1) % 256 in
    let counted = with_session st i (λ s. record s { loop_c = c }) in
    if c % 32 == 0
    then (let touched = touch env counted i in
        (send_prepared touched i (srv_pprep_sync touched.buf)).1)
    else counted

-- `_handle_event_from_udp` for a packet in the buffer; `saddr` is its sender, in network order, and
-- `addr` and `port` are the same in host order.
unfoldable pub handle_packet_from : Env → Server → SockAddr → ℕ → ℕ → Ret × Server
handle_packet_from env st saddr addr port = elim (lookup_udp_sess st.pool addr port) [
  | none ↦ handle_new_client env st addr port saddr
  | some i ↦
      (let (r, st') = dispatch env st i in
        elim r [
          | fail e ↦ if e == ebadmsg then (ret 0, (close_udp_session st' i).1) else (fail e, st')
          | ret n ↦ (ret n, count_round env st' i)
        ])
]

-- What recvfrom() gives: an error, or the bytes of a datagram with its sender.
pub data Received : Type 0 where
  failed : ℕ → Received
  datagram : List ℕ → SockAddr → ℕ → ℕ → Received

-- the bytes that the call may put into the buffer
abbrev pub cut_off : List ℕ → List ℕ
cut_off bytes = take size_raw bytes
