-- ===== src/Server/Send.antt =====
-- Sending to a client, with the retries while the socket's buffer is full: _send_to_client(),
-- wait_for_fd_be_writable(), emergency_wait_for_*_fd_be_writable() and send_to_client() of
-- src/teavpn2/server/linux/udp_epoll.c.
pub mod Frame
pub mod Retry
use teavpn.Common.{
  ℕ, zero, suc, Bool, true, false, List, [], ◌∷◌, ◌==◌, if◌then◌else◌, take, Ret, ret, fail, eagain,
  enetdown, etimedout,
}
use teavpn.Session.{SockAddr}
use teavpn.Server.{Server, Attempt, session}

-- `wait_for_fd_be_writable` from the result of poll(), a failure being its errno
unfoldable pub wait_for_fd_be_writable : Ret → Ret
wait_for_fd_be_writable (ret zero) = fail etimedout
wait_for_fd_be_writable (ret (suc n)) = ret 0
wait_for_fd_be_writable (fail e) = fail e

-- `emergency_wait_for_udp_fd_be_writable`, and that for the TUN descriptor
unfoldable pub emergency_wait : Ret → Server → Ret × Server
unfolding wait_for_fd_be_writable
emergency_wait polled st =
    let urgent = record st { in_emergency = true } in
    if st.stop then (fail enetdown, urgent) else elim (wait_for_fd_be_writable polled) [
      | ret _ ↦ (ret 0, urgent)
      | fail _ ↦ (fail enetdown, record urgent { stop = true })
    ]

-- The loop of `send_to_client` for a packet that is not empty, over the answers left.
unfoldable pub send_loop : List Attempt → SockAddr → List ℕ → Server → Ret × Server
send_loop [] dst bytes st = (fail enetdown, record st { udp_answers = [] })
send_loop (a ∷ rest) dst bytes st =
    let asked = record st { udp_answers = rest } in
    elim a.io [
      | ret zero ↦ (fail enetdown, asked)
      | ret (suc n) ↦ (
        ret (suc n),
        record asked { in_emergency = false; sent = record { dst = dst; bytes = bytes } ∷ st.sent },
      )
      | fail e ↦
          if e == eagain
          then (let (r, waited) = emergency_wait a.poll asked in
              elim r [ ret _ ↦ send_loop rest dst bytes waited | fail e' ↦ (fail e', waited) ])
          else (fail e, asked)
    ]

-- `send_to_client`: the first `pkt_len` bytes of the buffer to session `i`
unfoldable pub send_to_client : Server → ℕ → ℕ → Ret × Server
send_to_client st i pkt_len =
    if pkt_len == 0
    then (ret 0, record st { in_emergency = false })
    else send_loop st.udp_answers (session st i).addr (take pkt_len st.buf) st

-- `if (send_ret < 0) return (int)send_ret; return 0;`
abbrev pub status : Ret → Ret
status (ret n) = ret 0
status (fail e) = fail e
