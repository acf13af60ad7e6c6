-- ===== src/Client/Setup/Handshake.antt =====
-- How the client's handshake ends.
use teavpn.Common.{
  ℕ, zero, suc, ◌+◌, ◌≤◌, ◌<◌, ◌≡◌, ◌≢◌, refl, sym, ◌∙◌, ap, subst, arith, true, false, Bool-cases,
  inl, inr, length, IfOk, IfOk_intro, Ret, ret, fail,
}
use teavpn.Packet.{Buf, pprep, cli_pprep_handshake, tcli_close}
use teavpn.Client.{Client}
use teavpn.Client.Socket.{do_recv_from, poll_fd_input}
use teavpn.Client.Socket.Answers.{
  Later, Came, Came-Later, send_packet-sent, send_packet-Later, poll_fd_input-sent,
  poll_fd_input-Later, do_recv_from-sent, do_recv_from-Later, do_recv_from-Came,
}
use teavpn.Client.Setup.{
  pkt_max_len, server_handshake_chk, handshake_looked_at, send_handshake,
  wait_for_handshake_response, send_close_packet, tries_again, handshake_loop, do_handshake,
}

-- The buffer is what the check left of a datagram that was to come, in the buffer, and that it accepts.
abbrev pub Accepted : Client → Buf → Type 0
Accepted st buf =
    (len : ℕ) × (got : Buf) × Came st pkt_max_len len got
    × (server_handshake_chk len got ≡ ret 0)
    × (buf ≡ handshake_looked_at len got)

-- An attempt or the loop: at most `n` packets went out, and success means a packet that was accepted.
abbrev Greeted : ℕ → Client → Ret × Client → Type 0
Greeted n st (r, st') =
    (length st'.sent ≤ length st.sent + n)
    × Later st st'
    × ((m : ℕ) → r ≡ ret m → Accepted st st'.buf)

-- What is said from a later state holds from an earlier one.
Accepted-Later : (st st' : Client) (buf : Buf) → Later st st' → Accepted st' buf → Accepted st buf
Accepted-Later st st' buf k (len, got, came, chk, left) =
    (len, got, Came-Later st st' pkt_max_len len got k came, chk, left)

Greeted-Later :
    (few n : ℕ) (st st' : Client) (r : Ret × Client)
    → length st'.sent ≤ length st.sent + few
    → Later st st'
    → Greeted n st' r
    → Greeted (few + n) st r
Greeted-Later few n st st' (r, last) h k (sent, later, good) = (
  omega arith,
  λ bytes a. k bytes (later bytes a),
  λ m e. Accepted-Later st st' last.buf k (good m e),
)

server_handshake_chk-ret :
    (len : ℕ) (buf : Buf) (m : ℕ)
    → server_handshake_chk len buf ≡ ret m
    → server_handshake_chk len buf ≡ ret 0
unfolding server_handshake_chk
server_handshake_chk-ret len buf m e = ground arith

module _ (st : Client) where
  abbrev polled : Ret × Client
  polled = poll_fd_input st

  abbrev received : Ret × Client
  received = do_recv_from polled.1 pkt_max_len

  received-sent : received.1.sent ≡ st.sent
  received-sent = do_recv_from-sent polled.1 pkt_max_len ∙ poll_fd_input-sent st

  received-Later : Later st received.1
  received-Later bytes a =
      poll_fd_input-Later st bytes (do_recv_from-Later polled.1 pkt_max_len bytes a)

  wait_unpolled : (e : ℕ) → polled.0 ≡ fail e → wait_for_handshake_response st ≡ (fail e, polled.1)
  unfolding wait_for_handshake_response
  wait_unpolled e h = rw (h, wait_for_handshake_response) refl

  wait_unread :
      (n e : ℕ)
      → polled.0 ≡ ret n
      → received.0 ≡ fail e
      → wait_for_handshake_response st ≡ (fail e, received.1)
  unfolding wait_for_handshake_response
  wait_unread n e h g = rw (h, wait_for_handshake_response, g) refl

  wait_read :
      (n len : ℕ)
      → polled.0 ≡ ret n
      → received.0 ≡ ret len
      → wait_for_handshake_response st ≡ (
        server_handshake_chk len received.1.buf,
        record received.1 { buf = handshake_looked_at len received.1.buf },
      )
  unfolding wait_for_handshake_response
  wait_read n len h g = rw (h, wait_for_handshake_response, g) refl

  wait_lem : Greeted 0 st (wait_for_handshake_response st)
  wait_lem = go polled.0 refl
    where
      no_ret : (e m : ℕ) → fail e ≢ ret m
      no_ret e m = ground arith

      got :
          (n : ℕ) (r : Ret)
          → polled.0 ≡ ret n
          → received.0 ≡ r
          → Greeted 0 st (wait_for_handshake_response st)
      got n (fail e) h g =
          subst (Greeted 0 st) (sym (wait_unread n e h g))
            (omega (arith, ap length received-sent), received-Later, λ m f. absurd (no_ret e m f))
      got n (ret len) h g = subst (Greeted 0 st) (sym (wait_read n len h g)) (
        omega (arith, ap length received-sent),
        received-Later,
        λ m f. (
          len,
          received.1.buf,
          Came-Later st polled.1 pkt_max_len len received.1.buf (poll_fd_input-Later st)
              (do_recv_from-Came polled.1 pkt_max_len len g),
          server_handshake_chk-ret len received.1.buf m f,
          refl,
        ),
      )

      go : (r : Ret) → polled.0 ≡ r → Greeted 0 st (wait_for_handshake_response st)
      go (fail e) h = subst (Greeted 0 st) (sym (wait_unpolled e h)) (
        omega (arith, ap length (poll_fd_input-sent st)),
        poll_fd_input-Later st,
        λ m f. absurd (no_ret e m f),
      )
      go (ret n) h = got n received.0 h refl

module _ (fuel tries : ℕ) (st : Client) where
  abbrev asked : Ret × Client
  asked = send_handshake st

  abbrev waited : Ret × Client
  waited = wait_for_handshake_response asked.1

  loop_unsent : (e : ℕ) → asked.0 ≡ fail e → handshake_loop (suc fuel) tries st ≡ (fail e, asked.1)
  unfolding handshake_loop
  loop_unsent e h = rw (h, handshake_loop) refl

  loop_again :
      (n : ℕ)
      → asked.0 ≡ ret n
      → tries_again (tries + 1) waited.0 ≡ true
      → handshake_loop (suc fuel) tries st ≡ handshake_loop fuel (tries + 1) waited.1
  unfolding handshake_loop
  loop_again n h g = rw (h, handshake_loop, g) refl

  loop_ends :
      (n : ℕ)
      → asked.0 ≡ ret n
      → tries_again (tries + 1) waited.0 ≡ false
      → handshake_loop (suc fuel) tries st ≡ waited
  unfolding handshake_loop
  loop_ends n h g = rw (h, handshake_loop, g) refl

  asked-sent : length asked.1.sent ≤ length st.sent + 1
  unfolding send_handshake
  asked-sent = send_packet-sent st (cli_pprep_handshake st.buf)

  asked-Later : Later st asked.1
  unfolding send_handshake
  asked-Later = send_packet-Later st (cli_pprep_handshake st.buf)

  -- another attempt is made only after fewer than five
  tries_again-lt : tries_again (tries + 1) waited.0 ≡ true → tries + 1 < 5
  tries_again-lt h = ground arith

handshake_loop-Greeted :
    (fuel tries : ℕ) (st : Client) → Greeted fuel st (handshake_loop fuel tries st)
unfolding handshake_loop
handshake_loop-Greeted zero tries st =
    (omega arith, λ bytes a. a, λ m e. absurd (ground (arith, e)))
handshake_loop-Greeted (suc fuel) tries st =
    go (asked fuel tries st).0 refl
      (handshake_loop-Greeted fuel (tries + 1) (waited fuel tries st).1)
  where
    w : Ret × Client
    w = waited fuel tries st

    all : Greeted 1 st w
    all =
        Greeted-Later 1 0 st (asked fuel tries st).1 w (asked-sent fuel tries st)
          (asked-Later fuel tries st) (wait_lem (asked fuel tries st).1)

    one : length w.1.sent ≤ length st.sent + 1
    one = all.0

    later : Later st w.1
    later = all.1

    more : (r : Ret × Client) → Greeted (1 + fuel) st r → Greeted (suc fuel) st r
    more r (few, k, good) = (omega arith, k, good)

    go :
        (r : Ret)
        → (asked fuel tries st).0 ≡ r
        → Greeted fuel w.1 (handshake_loop fuel (tries + 1) w.1)
        → Greeted (suc fuel) st (handshake_loop (suc fuel) tries st)
    go (fail e) h rest = subst (Greeted (suc fuel) st) (sym (loop_unsent fuel tries st e h)) (
      omega (arith, asked-sent fuel tries st),
      asked-Later fuel tries st,
      λ m f. absurd (ground (arith, f)),
    )
    go (ret n) h rest = elim (Bool-cases (tries_again (tries + 1) w.0)) [
      | inl g ↦ subst (Greeted (suc fuel) st) (sym (loop_again fuel tries st n h g)) (
          more (handshake_loop fuel (tries + 1) w.1)
            (Greeted-Later 1 fuel st w.1 (handshake_loop fuel (tries + 1) w.1) one later rest))
      | inr g ↦
          subst (Greeted (suc fuel) st) (sym (loop_ends fuel tries st n h g))
            (omega (arith, one), later, all.2)
    ]

-- Once there is fuel for five attempts, more of it changes nothing.
handshake_loop_more :
    (fuel tries : ℕ) (st : Client)
    → tries < 5
    → 5 ≤ fuel + tries
    → handshake_loop (suc fuel) tries st ≡ handshake_loop fuel tries st
unfolding handshake_loop
handshake_loop_more zero tries st h g = absurd (omega arith)
handshake_loop_more (suc fuel) tries st h g =
    go (asked fuel tries st).0 refl
      (λ k. handshake_loop_more fuel (tries + 1) (waited fuel tries st).1 k (omega arith))
  where
    w : Ret × Client
    w = waited fuel tries st

    go :
        (r : Ret)
        → (asked fuel tries st).0 ≡ r
        → (tries + 1 < 5
            → handshake_loop (suc fuel) (tries + 1) w.1 ≡ handshake_loop fuel (tries + 1) w.1)
        → handshake_loop (suc (suc fuel)) tries st ≡ handshake_loop (suc fuel) tries st
    go (fail e) f rest = loop_unsent (suc fuel) tries st e f ∙ sym (loop_unsent fuel tries st e f)
    go (ret n) f rest = elim (Bool-cases (tries_again (tries + 1) w.0)) [
      | inl a ↦
          loop_again (suc fuel) tries st n f a
          ∙ (rest (tries_again-lt fuel tries st a) ∙ sym (loop_again fuel tries st n f a))
      | inr a ↦ loop_ends (suc fuel) tries st n f a ∙ sym (loop_ends fuel tries st n f a)
    ]

handshake_loop_enough :
    (extra : ℕ) (st : Client) → handshake_loop (extra + 5) 0 st ≡ handshake_loop 5 0 st
handshake_loop_enough zero st = refl
handshake_loop_enough (suc extra) st =
    let e : suc extra + 5 ≡ suc (extra + 5) = omega arith in
    rw e (
      handshake_loop_more (extra + 5) 0 st (omega arith) (omega arith)
      ∙ handshake_loop_enough extra st)

-- The handshake ends after at most five attempts: more fuel for its loop changes nothing. It sends at
-- most six packets, the first close packet included, and if it returns a value that is not an error,
-- its buffer is what server_handshake_chk() leaves of a datagram that was to come from the server, as
-- it stands in the buffer, and that it accepts.
pub do_handshake_lem :
    (extra : ℕ) (st : Client)
    → (handshake_loop (extra + 5) 0 (send_close_packet st).1 ≡ do_handshake st)
      × (length (do_handshake st).1.sent ≤ length st.sent + 6)
      × IfOk (do_handshake st).0 (Accepted st (do_handshake st).1.buf)
unfolding do_handshake send_close_packet
do_handshake_lem extra st =
    let begun = (send_close_packet st).1 in
    let close = pprep st.buf tcli_close 0 0 in
    let (few, later, good) =
      Greeted-Later 1 5 st begun (handshake_loop 5 0 begun) (send_packet-sent st close)
        (send_packet-Later st close) (handshake_loop-Greeted 5 0 begun) in
    (
      handshake_loop_enough extra begun,
      few,
      IfOk_intro (do_handshake st).0 (Accepted st (do_handshake st).1.buf) good,
    )
