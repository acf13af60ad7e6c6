-- ===== src/Server/Event/Written.antt =====
-- What a packet from a client has written to the TUN device.
use teavpn.Common.{
  ℕ, ◌≡◌, ◌≢◌, ◌⊎◌, refl, ◌∙◌, arith, some, List, [], ◌∷◌, ◌==◌, ==_iff, if◌then◌else◌, if_intro,
  Bool-cases, Option-cases, inl, inr, Ret, ret, fail, eagain, ebadmsg,
}
use teavpn.Packet.{
  pkt_type, pkt_len, body, srv_pprep_sync, tcli_handshake, tcli_auth, tcli_tun_data, tcli_reqsync,
  tcli_sync, tcli_close,
}
use teavpn.Session.{SockAddr, lookup_udp_sess}
use teavpn.Server.{Server, Env, Attempt, TunWrite}
use teavpn.Server.Send.{emergency_wait}
use teavpn.Server.Send.Frame.{emergency_wait-Keeps}
use teavpn.Server.Event.{
  tun_loop, handle_clpkt_tun_data, handle_clpkt_reqsync, dispatch, handle_packet_from,
}
use teavpn.Server.Event.Unwritten.{
  send_prepared-written, close_udp_session-written, handle_clpkt_auth-written,
  handle_new_client-written, count_round-written,
}

-- After the data: the device took it, or an error came and nothing was written.
abbrev Takes : TunWrite → Server → Ret × Server → Type 0
Takes w st (r, st') = elim r [
  | ret _ ↦ st'.written ≡ w ∷ st.written
  | fail e ↦ (st'.written ≡ st.written) × (e ≢ eagain)
]

emergency_wait-ne : (polled : Ret) (st : Server) → (emergency_wait polled st).0 ≢ fail eagain
unfolding emergency_wait
emergency_wait-ne polled st = ground arith

tun_loop-Takes :
    (answers : List Attempt) (w : TunWrite) (st : Server) → Takes w st (tun_loop answers w st)
unfolding tun_loop
tun_loop-Takes [] w st = ground arith
tun_loop-Takes (a ∷ rest) w st =
    let asked = record st { tun_answers = rest } in
    ground (
      arith,
      emergency_wait-Keeps a.poll asked,
      emergency_wait-ne a.poll asked,
      tun_loop-Takes rest w (emergency_wait a.poll asked).1,
    )

-- The data of the packet in the buffer: the bytes that its header counts, in one write.
abbrev pub tun_data : Server → TunWrite
tun_data st = record { asked = pkt_len st.buf; bytes = body st.buf 0 (pkt_len st.buf) }

-- What the call wrote, for its result.
abbrev pub TakesData : Server → Ret × Server → Type 0
TakesData st (r, st') = elim r [
  | ret _ ↦ st'.written ≡ (if pkt_len st.buf == 0 then st.written else tun_data st ∷ st.written)
  | fail e ↦ (st'.written ≡ st.written) × (e ≢ eagain)
]

-- The data of a packet goes to the TUN device exactly once if `handle_clpkt_tun_data` returns 0, all
-- of the bytes that the packet's header counts in one write, and not at all if it returns an error;
-- the error is never EAGAIN, which is retried. Data of no bytes is not written.
handle_clpkt_tun_data_lem : (st : Server) → TakesData st (handle_clpkt_tun_data st)
unfolding handle_clpkt_tun_data
handle_clpkt_tun_data_lem st = ground (arith, tun_loop-Takes st.tun_answers (tun_data st) st)

-- Nothing is written, or the packet is one with data of a session's client, and its data is written.
abbrev pub Writes : Server → ℕ → ℕ → Ret × Server → Type 0
Writes st addr port (r, st') =
    (st'.written ≡ st.written)
    ⊎ ((i : ℕ) × (lookup_udp_sess st.pool addr port ≡ some i)
        × (pkt_type st.buf ≡ tcli_tun_data)
        × (st'.written ≡ tun_data st ∷ st.written))

module _ (env : Env) (st : Server) (saddr : SockAddr) (addr port : ℕ) where
  same_written :
      (x y : Ret × Server)
      → x.1.written ≡ y.1.written
      → Writes st addr port y
      → Writes st addr port x
  same_written x y e (inl same) = inl (e ∙ same)
  same_written x y e (inr (i, found, type, wrote)) = inr (i, found, type, e ∙ wrote)

  dispatch-written :
      (i : ℕ) → lookup_udp_sess st.pool addr port ≡ some i → Writes st addr port (dispatch env st i)
  unfolding dispatch handle_clpkt_reqsync
  dispatch-written i found =
      let P = Writes st addr port in
      let type = pkt_type st.buf in
      if_intro P (type == tcli_handshake) (inl refl) (
        if_intro P (type == tcli_auth) (inl (handle_clpkt_auth-written env st i))
          (elim (Bool-cases (type == tcli_tun_data)) [
            | inl e ↦ rw e (by_data ((==_iff type tcli_tun_data).0 e))
            | inr e ↦ rw e (
                if_intro P (type == tcli_reqsync)
                  (inl (send_prepared-written st i (srv_pprep_sync st.buf)))
                  (if_intro P (type == tcli_sync) (inl refl) (
                    if_intro P (type == tcli_close) (inl (close_udp_session-written st i))
                      (inl refl))))
          ]))
    where
      by_data : pkt_type st.buf ≡ tcli_tun_data → Writes st addr port (handle_clpkt_tun_data st)
      by_data t = ground (arith, handle_clpkt_tun_data_lem st, found)

  -- What follows a known client's packet writes nothing more.
  pub handle_packet_from-written :
      (i : ℕ)
      → lookup_udp_sess st.pool addr port ≡ some i
      → (handle_packet_from env st saddr addr port).1.written ≡ (dispatch env st i).1.written
  unfolding handle_packet_from
  handle_packet_from-written i found = go (dispatch env st i).0 refl
    where
      go :
          (r : Ret)
          → (dispatch env st i).0 ≡ r
          → (handle_packet_from env st saddr addr port).1.written ≡ (dispatch env st i).1.written
      go (ret n) e =
          rw (found, e, handle_packet_from) (count_round-written env (dispatch env st i).1 i)
      go (fail n) e =
          rw (found, e, handle_packet_from)
            (if_intro (λ (x : Ret × Server). x.1.written ≡ (dispatch env st i).1.written)
              (n == ebadmsg) (close_udp_session-written (dispatch env st i).1 i) refl)

  -- A packet has something written to the TUN device only if a session is in use by its sender and it
  -- is a packet with data; then the data is what its header counts, in one write. A sender without a
  -- session never reaches the device.
  pub handle_packet_from_lem : Writes st addr port (handle_packet_from env st saddr addr port)
  unfolding handle_packet_from
  handle_packet_from_lem = elim (Option-cases (lookup_udp_sess st.pool addr port)) [
    | inl e ↦ rw (e, handle_packet_from) (inl (handle_new_client-written env st addr port saddr))
    | inr (i, e) ↦
        same_written (handle_packet_from env st saddr addr port) (dispatch env st i)
          (handle_packet_from-written i e) (dispatch-written i e)
  ]
