-- ===== src/Client/Socket/Answers.antt =====
-- What the client's calls send, and which of the answers to come they use up.
use teavpn.Common.{
  ℕ, ◌+◌, ◌≤◌, ◌≡◌, ◌⊎◌, inl, inr, refl, sym, subst, ap, arith, ◌||◌, List, [], ◌∷◌, length, take,
  Ret, ret, fail, enetdown,
}
use teavpn.Packet.{Buf, write}
use teavpn.Client.{Client, Polled, Reply, failed, arrived}
use teavpn.Client.Socket.{do_send_to, send_packet, do_recv_from, poll_loop, poll_fd_input}

-- A send adds at most one packet to those that went out.
pub send_packet-sent :
    (st : Client) (p : ℕ × Buf) → length (send_packet st p).1.sent ≤ length st.sent + 1
unfolding send_packet do_send_to
send_packet-sent st p = ground arith

poll_loop-sent : (ps : List Polled) (st : Client) → (poll_loop ps st).1.sent ≡ st.sent
unfolding poll_loop
poll_loop-sent [] st = refl
poll_loop-sent (p ∷ ps) st =
    ground (arith, poll_loop-sent ps (record st { polls = ps; stop = st.stop || p.signalled }))

pub poll_fd_input-sent : (st : Client) → (poll_fd_input st).1.sent ≡ st.sent
unfolding poll_fd_input
poll_fd_input-sent st = poll_loop-sent st.polls st

pub do_recv_from-sent : (st : Client) (room : ℕ) → (do_recv_from st room).1.sent ≡ st.sent
unfolding do_recv_from
do_recv_from-sent st room = ground arith

-- A datagram is among the answers to come.
abbrev pub Among : List ℕ → List Reply → Type 0
Among bytes [] = ⊥
Among bytes (a ∷ rest) = (a ≡ arrived bytes) ⊎ Among bytes rest

-- The datagrams to come are among those that were to come before.
abbrev pub Later : Client → Client → Type 0
Later st st' = (bytes : List ℕ) → Among bytes st'.replies → Among bytes st.replies

-- A buffer with the first `room` bytes of a datagram that was to come, `len` bytes.
abbrev pub Came : Client → ℕ → ℕ → Buf → Type 0
Came st room len buf =
    (bytes : List ℕ) × (old : Buf) × Among bytes st.replies
    × (len ≡ length (take room bytes))
    × (buf ≡ write old 0 (take room bytes))

pub Came-Later :
    (st st' : Client) (room len : ℕ) (buf : Buf)
    → Later st st'
    → Came st' room len buf
    → Came st room len buf
Came-Later st st' room len buf later (bytes, old, a, l, b) = (bytes, old, later bytes a, l, b)

-- Answers that stay are answers to come.
pub same-Later : (st st' : Client) → st'.replies ≡ st.replies → Later st st'
same-Later st st' e bytes a = subst (Among bytes) e a

pub send_packet-Later : (st : Client) (p : ℕ × Buf) → Later st (send_packet st p).1
unfolding send_packet do_send_to
send_packet-Later st p = same-Later st (send_packet st p).1 (ground arith)

poll_loop-replies : (ps : List Polled) (st : Client) → (poll_loop ps st).1.replies ≡ st.replies
unfolding poll_loop
poll_loop-replies [] st = refl
poll_loop-replies (p ∷ ps) st =
    ground (arith, poll_loop-replies ps (record st { polls = ps; stop = st.stop || p.signalled }))

pub poll_fd_input-Later : (st : Client) → Later st (poll_fd_input st).1
unfolding poll_fd_input
poll_fd_input-Later st = same-Later st (poll_fd_input st).1 (poll_loop-replies st.polls st)

no_ret : {A : Type 0} {e n : ℕ} → fail e ≡ ret n → A
no_ret h = absurd (ground (arith, h))

same_ret : {m n : ℕ} → ret m ≡ ret n → n ≡ m
same_ret h = ground (arith, h)

module _ (st : Client) (room : ℕ) where
  recv_none : st.replies ≡ [] → do_recv_from st room ≡ (fail enetdown, record st { replies = [] })
  unfolding do_recv_from
  recv_none e = rw (do_recv_from, e) (ap (λ l. (fail enetdown, record st { replies = l })) e)

  recv_failed :
      (n : ℕ) (rest : List Reply)
      → st.replies ≡ failed n ∷ rest
      → do_recv_from st room ≡ (fail n, record st { replies = rest })
  unfolding do_recv_from
  recv_failed n rest e = rw (do_recv_from, e) refl

  recv_arrived :
      (bytes : List ℕ) (rest : List Reply)
      → st.replies ≡ arrived bytes ∷ rest
      → do_recv_from st room ≡ (
        ret (length (take room bytes)),
        record st { replies = rest; buf = write st.buf 0 (take room bytes) },
      )
  unfolding do_recv_from
  recv_arrived bytes rest e = rw (do_recv_from, e) refl

  -- What a call that used up the first answer leaves.
  rest-Later :
      (a : Reply) (rest : List Reply) (st' : Client)
      → st.replies ≡ a ∷ rest
      → st'.replies ≡ rest
      → Later st st'
  rest-Later a rest st' e f bytes g = subst (Among bytes) (sym e) (inr (subst (Among bytes) f g))

  pub do_recv_from-Later : Later st (do_recv_from st room).1
  do_recv_from-Later = go st.replies refl
    where
      P : Ret × Client → Type 0
      P r = Later st r.1

      go : (replies : List Reply) → st.replies ≡ replies → P (do_recv_from st room)
      go [] e = subst P (sym (recv_none e)) (λ bytes g. absurd g)
      go (failed n ∷ rest) e =
          subst P (sym (recv_failed n rest e))
            (rest-Later (failed n) rest (record st { replies = rest }) e refl)
      go (arrived bytes ∷ rest) e = subst P (sym (recv_arrived bytes rest e)) (
          rest-Later (arrived bytes) rest
            (record st { replies = rest; buf = write st.buf 0 (take room bytes) }) e refl)

  pub do_recv_from-Came :
      (len : ℕ) → (do_recv_from st room).0 ≡ ret len → Came st room len (do_recv_from st room).1.buf
  do_recv_from-Came len = go st.replies refl
    where
      P : Ret × Client → Type 0
      P r = r.0 ≡ ret len → Came st room len r.1.buf

      go : (replies : List Reply) → st.replies ≡ replies → P (do_recv_from st room)
      go [] e = subst P (sym (recv_none e)) (λ f. no_ret f)
      go (failed n ∷ rest) e = subst P (sym (recv_failed n rest e)) (λ f. no_ret f)
      go (arrived bytes ∷ rest) e =
          subst P (sym (recv_arrived bytes rest e))
            (λ f. (bytes, st.buf, subst (Among bytes) (sym e) (inl refl), same_ret f, refl))
