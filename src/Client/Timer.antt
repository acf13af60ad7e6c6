-- ===== src/Client/Timer.antt =====
-- The client's timer: tt_send_reqsync() and _run_timer_thread() of
-- src/teavpn2/client/linux/udp_epoll.c. The packet is on the timer's own stack:
-- `buf` stands for it during a call, and is put back, since the four bytes that are sent are all set.
pub mod Limits
use teavpn.Common.{ℕ, zero, suc, ◌-◌, ◌*◌, ◌/◌, true, ltb, if◌then◌else◌}
use teavpn.Packet.{pprep, tcli_reqsync}
use teavpn.Client.{Client}
use teavpn.Client.Socket.{send_packet}

-- UDP_SESS_TIMEOUT
abbrev pub udp_sess_timeout : ℕ
udp_sess_timeout = 180

-- `while (i-- > 0) tt_send_reqsync(state);`, whether or not the packets go out
unfoldable pub send_reqsyncs : ℕ → Client → Client
send_reqsyncs zero st = st
send_reqsyncs (suc i) st =
    send_reqsyncs i (record (send_packet st (pprep st.buf tcli_reqsync 0 0)).1 { buf = st.buf })

-- How many sync requests go out when the server was silent for `time_diff` seconds.
unfoldable pub reqsync_count : ℕ → ℕ
reqsync_count time_diff =
    if ltb (udp_sess_timeout * 4 / 5) time_diff
    then 7
    else if ltb (udp_sess_timeout * 3 / 5) time_diff
    then 5
    else if ltb (udp_sess_timeout * 2 / 5) time_diff
    then 3
    else if ltb (udp_sess_timeout * 1 / 5) time_diff
    then 1
    else 0

-- `now` is the clock, 0 where gettimeofday() fails; a time before the last sign of life is a negative
-- difference, which no limit is below.
unfoldable pub run_timer : ℕ → Client → Client
run_timer now st =
    let time_diff = now - st.last_t in
    if ltb udp_sess_timeout time_diff
    then record st { timeout_disconnect = true; stop = true }
    else send_reqsyncs (reqsync_count time_diff) st
