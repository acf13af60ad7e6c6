-- ===== src/Server/Auth.antt =====
-- handle_clpkt_auth() of src/teavpn2/server/linux/udp_epoll.c.
pub mod Admission
use teavpn.Common.{ℕ, true, none, some, List, if◌then◌else◌, take, Ret, ret, fail}
use teavpn.Packet.{
  Buf, write, cstr, strncpy2, pprep, body, size_if_info, size_auth_res, tsrv_auth_ok,
  tsrv_auth_reject,
}
use teavpn.Packet.Auth.{credential}
use teavpn.Route.{add_ipv4_route_map}
use teavpn.Server.{Server, Env, session, with_session}
use teavpn.Server.Send.{status}
use teavpn.Server.Close.{send_prepared, close_udp_session}

-- `auth_res->iff.ipv4` as a C string: the field of 16 bytes at 2 + 16 + 16 in the body
abbrev pub assigned_ipv4 : Buf → List ℕ
assigned_ipv4 buf = cstr (body buf 34 16)

-- What an accepted client gets once the answer is sent: its private address, the route to it, and its
-- name.
unfoldable pub admit : Env → List ℕ → Server → ℕ → Server
admit env name st i =
    let iff = env.inet_addr (assigned_ipv4 st.buf) in
    with_session (record st { ipv4_map = add_ipv4_route_map st.ipv4_map iff (session st i).idx }) i
      (λ s. record s { ipv4_iff = iff; is_authenticated = true; username = strncpy2 name 256 })

-- The answer to an accepted client: the interface's settings go into the packet buffer, from which the
-- credentials were copied before.
unfoldable pub accept_auth : Env → List ℕ → List ℕ → Server → ℕ → Ret × Server
accept_auth env name iff st i =
    let (r, told) =
      send_prepared st i
        (pprep (write st.buf 6 (take size_if_info iff)) tsrv_auth_ok size_auth_res 0) in
    elim r [
      | fail e ↦ (fail e, (close_udp_session told i).1)
      | ret _ ↦ (ret 0, admit env name told i)
    ]

unfoldable pub reject_auth : Server → ℕ → Ret × Server
reject_auth st i =
    let (r, told) = send_prepared st i (pprep st.buf tsrv_auth_reject 0 0) in
    (status r, (close_udp_session told i).1)

unfoldable pub handle_clpkt_auth : Env → Server → ℕ → Ret × Server
handle_clpkt_auth env st i =
    let name = credential st.buf 0 in
    if (session st i).is_authenticated
    then (ret 0, st)
    else elim (env.auth name (credential st.buf 256)) [
      | none ↦ reject_auth st i
      | some iff ↦ accept_auth env name iff st i
    ]
