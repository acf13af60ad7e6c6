-- ===== src/Server/Close.antt =====
-- Ending a session: close_udp_session() of src/teavpn2/server/linux/udp_epoll.c.
use teavpn.Common.{ℕ, List, ◌==◌, if◌then◌else◌, Ret}
use teavpn.Packet.{pprep, tsrv_close}
use teavpn.Route.{del_ipv4_route_map}
use teavpn.Session.{delete_udp_session}
use teavpn.Server.{Server, session}
use teavpn.Server.Send.{send_to_client}

-- The route is taken out if the session has a private address.
abbrev pub unroute : Server → ℕ → Server
unroute st i =
    let iff = (session st i).ipv4_iff in
    if iff == 0 then st else record st { ipv4_map = del_ipv4_route_map st.ipv4_map iff }

-- The buffer is filled and a packet of that length is sent.
abbrev pub send_prepared : Server → ℕ → ℕ × List ℕ → Ret × Server
send_prepared st i (n, buf) = send_to_client (record st { buf = buf }) i n

-- `delete_udp_session` on the server's pool
abbrev pub drop_session : Server → ℕ → Ret × Server
drop_session st i = let (r, pool) = delete_udp_session st.pool i in (r, record st { pool = pool })

-- `close_udp_session`: the close packet is sent once; whether that worked is not looked at.
unfoldable pub close_udp_session : Server → ℕ → Ret × Server
close_udp_session st i =
    let unrouted = unroute st i in
    drop_session (send_prepared unrouted i (pprep unrouted.buf tsrv_close 0 0)).1 i
