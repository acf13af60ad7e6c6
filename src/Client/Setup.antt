-- ===== src/Client/Setup.antt =====
-- The client's way to a session: do_handshake(), do_auth() and what they call in
-- src/teavpn2/client/linux/udp.c.
pub mod Handshake
pub mod Answer
pub mod Auth
use teavpn.Common.{
  ℕ, zero, suc, ◌+◌, Bool, true, false, not, ◌&&◌, ◌||◌, List, [], ◌∷◌, ◌==◌, ltb, if◌then◌else◌,
  get_or, set, take, drop, Ret, ret, fail, ebadmsg, econnreset, enetdown, etimedout,
}
use teavpn.Packet.{
  Buf, write, strncpy2, pprep, pkt_type, pkt_len, body, pkt_min_len, size_handshake, size_auth_res,
  size_if_info, version, patch_level, sub_level, tsrv_close, tsrv_handshake, tsrv_auth_ok,
  tsrv_auth_reject, tcli_close, cli_pprep_handshake, cli_pprep_auth,
}
use teavpn.Client.{Client, CliCfg}
use teavpn.Client.Socket.{send_packet, do_recv_from, poll_fd_input}

-- PKT_MAX_LEN
abbrev pub pkt_max_len : ℕ
pkt_max_len = 4100

-- The result of `server_handshake_chk` on a packet of which `len` bytes came.
unfoldable pub server_handshake_chk : ℕ → Buf → Ret
server_handshake_chk len buf =
    if pkt_type buf == tsrv_close
    then fail econnreset
    else if ltb len (pkt_min_len + size_handshake)
    then fail ebadmsg
    else if not (pkt_len buf == size_handshake)
    then fail ebadmsg
    else if not (pkt_type buf == tsrv_handshake)
    then fail ebadmsg
    else if not (get_or buf 4 0 == version)
        || not (get_or buf 5 0 == patch_level)
        || not (get_or buf 6 0 == sub_level)
    then fail ebadmsg
    else ret 0

-- `pkt->len = ntohs(pkt->len)`: the bytes of the length are swapped in the buffer.
abbrev pub swap_len : Buf → Buf
swap_len buf = set (set buf 2 (get_or buf 3 0)) 3 (get_or buf 2 0)

-- What `server_handshake_chk` leaves in the buffer.
unfoldable pub handshake_looked_at : ℕ → Buf → Buf
handshake_looked_at len buf =
    if (pkt_type buf == tsrv_close) || ltb len (pkt_min_len + size_handshake)
    then buf
    else if not (pkt_len buf == size_handshake) || not (pkt_type buf == tsrv_handshake)
    then swap_len buf
    else set (swap_len buf) 35 0

-- `_do_handshake`
unfoldable pub send_handshake : Client → Ret × Client
send_handshake st = send_packet st (cli_pprep_handshake st.buf)

unfoldable pub wait_for_handshake_response : Client → Ret × Client
wait_for_handshake_response st =
    let (polled, st1) = poll_fd_input st in
    elim polled [
      | fail e ↦ (fail e, st1)
      | ret _ ↦
          (let (got, st2) = do_recv_from st1 pkt_max_len in
            elim got [
              | fail e ↦ (fail e, st2)
              | ret len ↦ (
                server_handshake_chk len st2.buf,
                record st2 { buf = handshake_looked_at len st2.buf },
              )
            ])
    ]

-- `teavpn2_cli_udp_send_close_packet`
unfoldable pub send_close_packet : Client → Ret × Client
send_close_packet st = send_packet st (pprep st.buf tcli_close 0 0)

-- Whether `do_handshake` tries again after attempt number `tries` ended with `r`.
abbrev pub tries_again : ℕ → Ret → Bool
tries_again tries (ret n) = false
tries_again tries (fail e) = ((e == etimedout) && ltb tries 5) || ((e == econnreset) && ltb tries 3)

-- The loop of `do_handshake` after `tries` attempts; the first argument is fuel.
unfoldable pub handshake_loop : ℕ → ℕ → Client → Ret × Client
handshake_loop zero tries st = (fail etimedout, st)
handshake_loop (suc fuel) tries st =
    let (r, st1) = send_handshake st in
    elim r [
      | fail e ↦ (fail e, st1)
      | ret _ ↦
          (let (r', st2) = wait_for_handshake_response st1 in
            elim (tries_again (tries + 1) r') [
              | true ↦ handshake_loop fuel (tries + 1) st2
              | false ↦ (r', st2)
            ])
    ]

-- Whether the first close packet went out is not looked at.
unfoldable pub do_handshake : Client → Ret × Client
do_handshake st = handshake_loop 5 0 (send_close_packet st).1

-- The result of `server_auth_res_chk` on a packet of which `len` bytes came.
unfoldable pub server_auth_res_chk : ℕ → Buf → Ret
server_auth_res_chk len buf =
    if pkt_type buf == tsrv_close
    then fail econnreset
    else if pkt_type buf == tsrv_auth_reject
    then fail ebadmsg
    else if not (pkt_type buf == tsrv_auth_ok)
    then fail ebadmsg
    else if ltb len (pkt_min_len + size_auth_res)
    then fail ebadmsg
    else if not (pkt_len buf == size_auth_res)
    then fail ebadmsg
    else ret 0

-- What `server_auth_res_chk` leaves in the buffer.
unfoldable pub auth_looked_at : ℕ → Buf → Buf
auth_looked_at len buf =
    if not (pkt_type buf == tsrv_auth_ok) || ltb len (pkt_min_len + size_auth_res)
    then buf
    else swap_len buf

-- `bring_up_iface`: the settings in the packet get the configured device's name, and go into the
-- configuration; there the server's address replaces `ipv4_pub` if `override_default` is set.
unfoldable pub bring_up_iface : CliCfg → Client → Ret × Client
bring_up_iface cfg st =
    let named = write st.buf 6 (strncpy2 cfg.dev 16) in
    let iff = body named 2 size_if_info in
    let iff2 = if cfg.override_default then write iff 16 (strncpy2 cfg.server_addr 16) else iff in
    let st' = record st { buf = named; iff = iff2 } in
    if cfg.iface_up iff2
    then (ret 0, record st' { need_remove_iff = true })
    else (fail enetdown, st')

unfoldable pub wait_for_auth_response : CliCfg → Client → Ret × Client
wait_for_auth_response cfg st =
    let (polled, st1) = poll_fd_input st in
    elim polled [
      | fail e ↦ (fail e, st1)
      | ret _ ↦
          (let (got, st2) = do_recv_from st1 pkt_max_len in
            elim got [
              | fail e ↦ (fail e, st2)
              | ret len ↦
                  (let st3 = record st2 { buf = auth_looked_at len st2.buf } in
                    elim (server_auth_res_chk len st2.buf) [
                      | fail e ↦ (fail e, st3)
                      | ret _ ↦ bring_up_iface cfg st3
                    ])
            ])
    ]

-- `_do_auth`
unfoldable pub send_auth : CliCfg → Client → Ret × Client
send_auth cfg st = send_packet st (cli_pprep_auth st.buf cfg.username cfg.password)

unfoldable pub auth_attempt : CliCfg → Client → Ret × Client
auth_attempt cfg st =
    let (r, st') = send_auth cfg st in
    elim r [ fail e ↦ (fail e, st') | ret _ ↦ wait_for_auth_response cfg st' ]

abbrev pub timed_out : Ret → Bool
timed_out (ret n) = false
timed_out (fail e) = e == etimedout

-- The loop of `do_auth` with `left` retries left.
unfoldable pub auth_loop : CliCfg → ℕ → Client → Ret × Client
auth_loop cfg zero st = auth_attempt cfg st
auth_loop cfg (suc left) st =
    let (r, st') = auth_attempt cfg st in
    elim (timed_out r) [ true ↦ auth_loop cfg left st' | false ↦ (r, st') ]

unfoldable pub do_auth : CliCfg → Client → Ret × Client
do_auth cfg st = auth_loop cfg 5 st

-- The part of `teavpn2_client_udp_run` between the set-up of the descriptors and the event loop.
unfoldable pub open_session : CliCfg → Client → Ret × Client
open_session cfg st =
    let (r, st') = do_handshake st in elim r [ fail e ↦ (fail e, st') | ret _ ↦ do_auth cfg st' ]
