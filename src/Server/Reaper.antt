-- ===== src/Server/Reaper.antt =====
-- The thread that ends stale sessions: zr_send_reqsync(), zr_close_sess(), zr_chk_auth(),
-- zr_chk_no_auth() and zombie_reaper_do_scan() of src/teavpn2/server/linux/udp_epoll.c. The state's
-- `buf` stands for the reaper's own packet buffer during a scan, and is put back after it: the four
-- bytes of each packet are all set before it is sent.
pub mod Timeouts
use teavpn.Common.{
  ℕ, zero, suc, ◌+◌, ◌-◌, ◌*◌, ◌/◌, true, false, Option, none, some, ◌==◌, ltb, if◌then◌else◌, Ret,
}
use teavpn.Packet.{pprep, tsrv_reqsync}
use teavpn.Server.{Server, session}
use teavpn.Server.Close.{send_prepared, close_udp_session}

-- UDP_SESS_TIMEOUT_NO_AUTH and UDP_SESS_TIMEOUT_AUTH, in seconds
abbrev pub timeout_no_auth : ℕ
timeout_no_auth = 30

abbrev pub timeout_auth : ℕ
timeout_auth = 180

-- `while (i-- > 0) zr_send_reqsync(state, sess);`
unfoldable pub send_reqsyncs : ℕ → Server → ℕ → Server
send_reqsyncs zero st i = st
send_reqsyncs (suc n) st i =
    send_reqsyncs n (send_prepared st i (pprep st.buf tsrv_reqsync 0 0)).1 i

-- How many sync requests an authenticated session gets that was idle for `time_diff` seconds.
unfoldable pub reqsync_count : ℕ → ℕ
reqsync_count time_diff =
    if ltb (timeout_auth * 4 / 5) time_diff
    then 7
    else if ltb (timeout_auth * 3 / 5) time_diff
    then 5
    else if ltb (timeout_auth * 2 / 5) time_diff
    then 3
    else if ltb (timeout_auth * 1 / 5) time_diff
    then 1
    else 0

-- `zr_close_sess` does what `close_udp_session` does.
unfoldable pub zr_chk_auth : Server → ℕ → ℕ → Server
zr_chk_auth st i time_diff =
    if ltb timeout_auth time_diff
    then (close_udp_session st i).1
    else send_reqsyncs (reqsync_count time_diff) st i

unfoldable pub zr_chk_no_auth : Server → ℕ → ℕ → Server
zr_chk_no_auth st i time_diff =
    if ltb timeout_no_auth time_diff then (close_udp_session st i).1 else st

-- One round of the scan. `now` is the clock, 0 where gettimeofday() fails; a session that was active
-- after `now` has been idle for a negative time, which no limit is below.
unfoldable pub scan_session : ℕ → Server → ℕ → Server
scan_session now st i =
    let s = session st i in
    let time_diff = now - s.last_act in
    elim s.is_connected [
      | false ↦ st
      | true ↦ elim s.is_authenticated [
        | true ↦ zr_chk_auth st i time_diff
        | false ↦ zr_chk_no_auth st i time_diff
      ]
    ]

-- the loop from session `i` on, `rounds` times; `clock i` is the time that is read for session `i`
unfoldable pub scan_from : ℕ → ℕ → (ℕ → ℕ) → Server → Server
scan_from zero i clock st = st
scan_from (suc rounds) i clock st = scan_from rounds (i + 1) clock (scan_session (clock i) st i)

unfoldable pub zombie_reaper_do_scan : (ℕ → ℕ) → Server → Server
zombie_reaper_do_scan clock st =
    if st.pool.n_on_sess == 0
    then st
    else record (scan_from st.max_conn 0 clock st) { buf = st.buf }
