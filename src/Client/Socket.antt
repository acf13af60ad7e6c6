-- ===== src/Client/Socket.antt =====
-- The client's calls on its UDP socket: simple_do_send_to(), simple_do_recv_from() and poll_fd_input()
-- of src/teavpn2/client/linux/udp.c, do_send_to() and do_recv_from() of udp_epoll.c there.
pub mod Answers
use teavpn.Common.{
  ℕ, zero, suc, not, ◌&&◌, ◌||◌, List, [], ◌∷◌, ◌==◌, if◌then◌else◌, take, length, Ret, ret, fail,
  eintr, enetdown, etimedout,
}
use teavpn.Packet.{Buf, write}
use teavpn.Client.{Client, Polled, failed, arrived}

-- The first `n` bytes of the buffer go to the server if sendto() takes them.
unfoldable pub do_send_to : Client → ℕ → Ret × Client
do_send_to st n = elim st.sends [
  | [] ↦ (fail enetdown, st)
  | a ∷ rest ↦
      (let asked = record st { sends = rest } in
        elim a [
          | fail e ↦ (fail e, asked)
          | ret k ↦ (ret k, record asked { sent = take n st.buf ∷ st.sent })
        ])
]

-- The buffer is filled and a packet of that length is sent; 0 or an error.
unfoldable pub send_packet : Client → ℕ × Buf → Ret × Client
send_packet st (n, buf) =
    let (r, st') = do_send_to (record st { buf = buf }) n in
    (elim r [ ret _ ↦ ret 0 | fail e ↦ fail e ], st')

-- recvfrom() into the first `room` bytes of the buffer
unfoldable pub do_recv_from : Client → ℕ → Ret × Client
do_recv_from st room = elim st.replies [
  | [] ↦ (fail enetdown, st)
  | a ∷ rest ↦
      (let asked = record st { replies = rest } in
        elim a [
          | failed e ↦ (fail e, asked)
          | arrived bytes ↦
              (let got = take room bytes in
                (ret (length got), record asked { buf = write st.buf 0 got }))
        ])
]

-- The loop of `poll_fd_input` over the answers left.
unfoldable pub poll_loop : List Polled → Client → Ret × Client
poll_loop [] st = (fail enetdown, record st { polls = [] })
poll_loop (p ∷ rest) st =
    let st' = record st { polls = rest; stop = st.stop || p.signalled } in
    elim p.result [
      | ret zero ↦ (fail etimedout, st')
      | ret (suc n) ↦ (ret (suc n), st')
      | fail e ↦ if (e == eintr) && not st'.stop then poll_loop rest st' else (fail e, st')
    ]

unfoldable pub poll_fd_input : Client → Ret × Client
poll_fd_input st = poll_loop st.polls st
