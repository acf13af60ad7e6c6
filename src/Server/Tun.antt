-- ===== src/Server/Tun.antt =====
-- Packets from the TUN device: handle_event_from_tun(), route_packet(), _route_packet(),
-- route_ipv4_packet() and broadcast_packet() of src/teavpn2/server/linux/udp_epoll.c.
pub mod Routing
pub mod Frame
use teavpn.Common.{
  ℕ, zero, suc, ◌+◌, ◌*◌, ◌/◌, ◌%◌, ◌^◌, true, false, List, ◌==◌, if◌then◌else◌, get_or, take,
  length, Ret, ret, fail, eagain, enoent,
}
use teavpn.Packet.{Buf, write, pprep, tsrv_tun_data, size_raw}
use teavpn.Route.{get_ipv4_route_map}
use teavpn.Server.{Server, session}
use teavpn.Server.Send.{send_to_client, status}

-- `iphdr->version`: the high half of the body's first byte
abbrev pub ip_version : Buf → ℕ
ip_version buf = get_or buf 4 0 / 16

-- `ntohl(iphdr->daddr)`: the four bytes from 16 on in the body, the high one first
abbrev pub ip_daddr : Buf → ℕ
ip_daddr buf =
    ((get_or buf 20 0 * 256 + get_or buf 21 0) * 256 + get_or buf 22 0) * 256 + get_or buf 23 0

-- `route_ipv4_packet`
unfoldable pub route_ipv4_packet : Server → ℕ → ℕ → Ret × Server
route_ipv4_packet st dst_addr send_len = elim (get_ipv4_route_map st.ipv4_map dst_addr) [
  | fail e ↦ (fail e, st)
  | ret idx ↦ (let (r, st') = send_to_client st idx send_len in (status r, st'))
]

-- The loop of `broadcast_packet` from session `i` on, `rounds` times.
unfoldable pub broadcast_from : ℕ → ℕ → ℕ → Server → Ret × Server
broadcast_from zero i send_len st = (ret 0, st)
broadcast_from (suc rounds) i send_len st = elim (session st i).is_authenticated [
  | false ↦ broadcast_from rounds (i + 1) send_len st
  | true ↦
      (let (r, st') = send_to_client st i send_len in
        elim r [ fail e ↦ (fail e, st') | ret _ ↦ broadcast_from rounds (i + 1) send_len st' ])
]

unfoldable pub broadcast_packet : Server → ℕ → Ret × Server
broadcast_packet st send_len = broadcast_from st.max_conn 0 send_len st

-- The IPv4 branch of `_route_packet`: to all where the destination has no route.
unfoldable pub route_or_all : Server → ℕ → Ret × Server
route_or_all st send_len =
    let (r, st') = route_ipv4_packet st (ip_daddr st.buf) send_len in
    elim r [
      | ret n ↦ (ret n, st')
      | fail e ↦ if e == enoent then broadcast_packet st' send_len else (fail e, st')
    ]

-- `_route_packet`
unfoldable pub route_or_broadcast : Server → ℕ → Ret × Server
route_or_broadcast st send_len =
    if ip_version st.buf == 4 then route_or_all st send_len else broadcast_packet st send_len

-- `route_packet`; the length is cut to 16 bits.
unfoldable pub route_packet : Server → ℕ → Ret × Server
route_packet st len =
    let (send_len, buf) = pprep st.buf tsrv_tun_data (len % 2 ^ 16) 0 in
    route_or_broadcast (record st { buf = buf }) send_len

-- What read() on the device gives: an error or the bytes of a packet.
pub data Read : Type 0 where
  failed : ℕ → Read
  packet : List ℕ → Read

unfoldable pub handle_event_from_tun : Server → Read → Ret × Server
handle_event_from_tun st (failed e) = if e == eagain then (ret 0, st) else (fail e, st)
handle_event_from_tun st (packet bytes) =
    let got = take size_raw bytes in
    route_packet (record st { buf = write st.buf 4 got; len = length got }) (length got)
