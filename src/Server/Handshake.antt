-- ===== src/Server/Handshake.antt =====
-- New clients: handle_client_handshake(), send_handshake(), send_handshake_reject(),
-- _handle_new_client(), skip_session_creation() and handle_new_client() of
-- src/teavpn2/server/linux/udp_epoll.c.
pub mod Verdict
pub mod Greeting
use teavpn.Common.{
  ℕ, ◌+◌, Bool, not, ◌||◌, Option, none, some, List, ◌==◌, ltb, if◌then◌else◌, get_or, set, Ret,
  ret, fail, eagain, ebadmsg,
}
use teavpn.Packet.{
  Buf, pkt_type, pkt_len, pkt_min_len, size_handshake, version, patch_level, sub_level,
  hreject_invalid, hreject_version_not_supported, tcli_handshake, tcli_tun_data, tcli_reqsync,
  tcli_sync, tcli_close, srv_pprep_handshake, srv_pprep_handshake_reject,
}
use teavpn.Session.{SockAddr, create_udp_sess}
use teavpn.Server.{Server, Env, with_session}
use teavpn.Server.Send.{status}
use teavpn.Server.Close.{send_prepared, close_udp_session}

-- The checks of `handle_client_handshake` on a packet of which `len` bytes came: the reason to reject
-- it, if there is one. The version stands in the first three bytes of the body.
unfoldable pub handshake_verdict : ℕ → Buf → Option ℕ
handshake_verdict len buf =
    if ltb len (pkt_min_len + size_handshake)
    then some hreject_invalid
    else if not (pkt_len buf == size_handshake)
    then some hreject_invalid
    else if not (pkt_type buf == tcli_handshake)
    then some hreject_invalid
    else if not (get_or buf 4 0 == version)
        || not (get_or buf 5 0 == patch_level)
        || not (get_or buf 6 0 == sub_level)
    then some hreject_version_not_supported
    else none

-- What the checks leave in the buffer: `len` in host order (its bytes swapped) if there are enough
-- bytes, and a NUL at the end of the version's text if the packet has the right length and type.
unfoldable pub handshake_checked : ℕ → Buf → Buf
handshake_checked len buf =
    if ltb len (pkt_min_len + size_handshake)
    then buf
    else let swapped = set (set buf 2 (get_or buf 3 0)) 3 (get_or buf 2 0) in
      if not (pkt_len buf == size_handshake) || not (pkt_type buf == tcli_handshake)
      then swapped
      else set swapped 35 0

unfoldable pub send_handshake : Server → ℕ → Ret × Server
send_handshake st i =
    let (r, st') = send_prepared st i (srv_pprep_handshake st.buf) in (status r, st')

unfoldable pub send_handshake_reject : Server → ℕ → ℕ → List ℕ → Ret × Server
send_handshake_reject st i reason msg =
    let (r, st') = send_prepared st i (srv_pprep_handshake_reject st.buf reason (some msg)) in
    (status r, st')

unfoldable pub handle_client_handshake : Env → Server → ℕ → Ret × Server
handle_client_handshake env st i =
    let checked = record st { buf = handshake_checked st.len st.buf } in
    elim (handshake_verdict st.len st.buf) [
      | none ↦ send_handshake checked i
      | some reason ↦
          (fail ebadmsg, (send_handshake_reject checked i reason (env.reject_msg st.len st.buf)).1)
    ]

-- `_handle_new_client`; the sends and the checks return 0 or an error.
unfoldable pub greet_new_client : Env → Server → ℕ → Ret × Server
greet_new_client env st i =
    let (r, st') = handle_client_handshake env st i in
    elim r [
      | ret n ↦ (ret n, st')
      | fail e ↦ (if e == ebadmsg then ret 0 else fail e, (close_udp_session st' i).1)
    ]

-- `skip_session_creation`
unfoldable pub skip_session_creation : Buf → Bool
skip_session_creation buf =
    let type = pkt_type buf in
    (type == tcli_tun_data) || (type == tcli_reqsync) || (type == tcli_sync) || (type == tcli_close)

unfoldable pub handle_new_client : Env → Server → ℕ → ℕ → SockAddr → Ret × Server
handle_new_client env st addr port saddr =
    if skip_session_creation st.buf
    then (ret 0, st)
    else (let (r, pool) = create_udp_sess env.allocated env.now st.pool addr port in
        let made = record st { pool = pool } in
        elim r [
          | fail e ↦ (if e == eagain then ret 0 else fail e, made)
          | ret i ↦ greet_new_client env (with_session made i (λ s. record s { addr = saddr })) i
        ])
