-- ===== src/Server/Receive.antt =====
-- handle_event_from_udp() with do_recv_from() of src/teavpn2/server/linux/udp_epoll.c.
use teavpn.Common.{◌==◌, if◌then◌else◌, length, Ret, ret, fail, eagain}
use teavpn.Packet.{write}
use teavpn.Server.{Server, Env}
use teavpn.Server.Event.{Received, failed, datagram, cut_off, handle_packet_from}

-- EAGAIN and an empty datagram end the event with 0.
unfoldable pub handle_event_from_udp : Env → Server → Received → Ret × Server
handle_event_from_udp env st (failed e) =
    if e == eagain then (ret 0, record st { len = 0 }) else (fail e, st)
handle_event_from_udp env st (datagram bytes saddr addr port) =
    let got = cut_off bytes in
    let st' = record st { buf = write st.buf 0 got; len = length got } in
    if length got == 0 then (ret 0, st') else handle_packet_from env st' saddr addr port
