-- ===== src/Server/Send/Retry.antt =====
-- When a send delivers.
use teavpn.Common.{
  ℕ, zero, suc, ◌<◌, ◌≡◌, ◌≢◌, refl, subst, arith, true, false, List, [], ◌∷◌, Ret, ret, fail,
  eagain, take,
}
use teavpn.Session.{SockAddr}
use teavpn.Server.{Server, Attempt, session}
use teavpn.Server.Send.{emergency_wait, send_loop, send_to_client}

-- The loop delivers the datagram once if it returns a length, and not at all if it returns an error,
-- which is never EAGAIN.
abbrev pub Delivers : SockAddr → List ℕ → Server → Ret × Server → Type 0
Delivers dst bytes st (r, st') = elim r [
  | ret n ↦
      (st'.sent ≡ record { dst = dst; bytes = bytes } ∷ st.sent)
      × (st'.in_emergency ≡ false)
      × (0 < n)
  | fail e ↦ (st'.sent ≡ st.sent) × (e ≢ eagain)
]

emergency_wait-sent :
    (polled : Ret) (st : Server)
    → ((emergency_wait polled st).1.sent ≡ st.sent) × ((emergency_wait polled st).0 ≢ fail eagain)
unfolding emergency_wait
emergency_wait-sent polled st = (ground arith, ground arith)

send_loop-Delivers :
    (answers : List Attempt) (dst : SockAddr) (bytes : List ℕ) (st : Server)
    → Delivers dst bytes st (send_loop answers dst bytes st)
unfolding send_loop
send_loop-Delivers [] dst bytes st = ground arith
send_loop-Delivers (a ∷ rest) dst bytes st =
    let asked = record st { udp_answers = rest } in
    ground (
      arith,
      emergency_wait-sent a.poll asked,
      send_loop-Delivers rest dst bytes (emergency_wait a.poll asked).1,
    )

-- A packet that is not empty goes to the client's address exactly once if `send_to_client` returns a
-- length, which also ends an emergency, and not at all if it returns an error; the error is never
-- EAGAIN, which is retried.
pub send_to_client-Delivers :
    (st : Server) (i n : ℕ)
    → 0 < n
    → Delivers (session st i).addr (take n st.buf) st (send_to_client st i n)
unfolding send_to_client
send_to_client-Delivers st i n h =
    ground (arith, send_loop-Delivers st.udp_answers (session st i).addr (take n st.buf) st)

-- The newest datagram after a send that returned a length.
pub send_to_client-sent :
    (st : Server) (i n m : ℕ)
    → 0 < n
    → (send_to_client st i n).0 ≡ ret m
    → (send_to_client st i n).1.sent
      ≡ record { dst = (session st i).addr; bytes = take n st.buf } ∷ st.sent
send_to_client-sent st i n m h e =
    let (r, st') = send_to_client st i n in
    (subst (λ r'. Delivers (session st i).addr (take n st.buf) st (r', st')) e
      (send_to_client-Delivers st i n h)).0

-- `rounds` answers EAGAIN, after each of which poll() reports the socket writable
abbrev pub busy : ℕ → List Attempt → List Attempt
busy zero more = more
busy (suc rounds) more = record { io = fail eagain; poll = ret 1 } ∷ busy rounds more

emergency_wait-running :
    (st : Server)
    → st.stop ≡ false
    → emergency_wait (ret 1) st ≡ (ret 0, record st { in_emergency = true })
unfolding emergency_wait
emergency_wait-running st run = rw run

send_loop-busy :
    (rounds n : ℕ) (poll : Ret) (more : List Attempt) (dst : SockAddr) (bytes : List ℕ)
    (st : Server)
    → st.stop ≡ false
    → 0 < n
    → (send_loop (busy rounds (record { io = ret n; poll = poll } ∷ more)) dst bytes st).0 ≡ ret n
unfolding send_loop
send_loop-busy zero zero poll more dst bytes st run h = absurd (omega arith)
send_loop-busy zero (suc n) poll more dst bytes st run h = refl
send_loop-busy (suc rounds) n poll more dst bytes st run h =
    let asked = record st {
      udp_answers = busy rounds (record { io = ret n; poll = poll } ∷ more);
    } in
    ground (
      arith,
      emergency_wait-running asked run,
      send_loop-busy rounds n poll more dst bytes (record asked { in_emergency = true }) run h,
    )

-- While the server runs, a full socket buffer delays a packet and does not lose it: however many times
-- sendto() answers EAGAIN, if poll() then always reports the socket writable and sendto() at last
-- takes the packet, `send_to_client` returns the length that was sent.
pub send_to_client_retries :
    (rounds n : ℕ) (poll : Ret) (more : List Attempt) (st : Server) (i len : ℕ)
    → st.stop ≡ false
    → st.udp_answers ≡ busy rounds (record { io = ret n; poll = poll } ∷ more)
    → 0 < n
    → 0 < len
    → (send_to_client st i len).0 ≡ ret n
unfolding send_to_client
send_to_client_retries rounds n poll more st i len run answers h g =
    ground (arith, send_loop-busy rounds n poll more (session st i).addr (take len st.buf) st)
