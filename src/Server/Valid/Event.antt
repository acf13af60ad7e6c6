-- ===== src/Server/Valid/Event.antt =====
-- Every datagram keeps the server valid.
use teavpn.Common.{
  ℕ, ◌+◌, ◌%◌, ◌≡◌, refl, ◌∙◌, ap, arith, true, length, ◌==◌, some, get_or-set, get_or-out,
  if_intro, Bool-cases, Option-cases, inl, inr, Ret, ret, fail, eagain, ebadmsg, List, [], ◌∷◌,
}
use teavpn.Packet.{
  write, pkt_type, pkt_len, body, srv_pprep_sync, tcli_handshake, tcli_auth, tcli_tun_data,
  tcli_reqsync, tcli_sync, tcli_close,
}
use teavpn.Packet.Fields.{length-write}
use teavpn.Packet.Sizes.{length-srv_pprep_sync}
use teavpn.Session.{stamp, SockAddr, reset_udp_session, lookup_udp_sess}
use teavpn.Session.Lookup.{lookup-serves}
use teavpn.Server.{Server, Env, Attempt, TunWrite, session, with_session}
use teavpn.Server.Send.{emergency_wait}
use teavpn.Server.Send.Frame.{emergency_wait-Keeps}
use teavpn.Server.Event.{
  tun_loop, handle_clpkt_tun_data, touch, handle_clpkt_reqsync, dispatch, count_round,
  handle_packet_from, Received, failed, datagram, cut_off,
}
use teavpn.Server.Receive.{handle_event_from_udp}
use teavpn.Server.Valid.{IsValid, Alike, Alike-IsValid, with_session-IsValid}
use teavpn.Server.Valid.Close.{
  send_prepared-KeepsPool, send_prepared-IsValid, close_udp_session-IsValid,
}
use teavpn.Server.Valid.New.{handle_new_client-IsValid}
use teavpn.Server.Valid.Auth.{Quiet, handle_clpkt_auth-IsValid, handle_clpkt_auth-ne}

tun_loop-Alike :
    (answers : List Attempt) (w : TunWrite) (st : Server) → Alike st (tun_loop answers w st).1
unfolding tun_loop
tun_loop-Alike [] w st = ground arith
tun_loop-Alike (a ∷ rest) w st =
    let asked = record st { tun_answers = rest } in
    ground (
      arith,
      emergency_wait-Keeps a.poll asked,
      tun_loop-Alike rest w (emergency_wait a.poll asked).1,
    )

touch-IsValid : (env : Env) {st : Server} (i : ℕ) → IsValid st → IsValid (touch env st i)
touch-IsValid env {st} i v =
    with_session-IsValid v i (λ s. record s { last_act = stamp env.now s.last_act })
      (record {
        client = record { idx = refl; src_addr = refl; src_port = refl; is_connected = refl };
        ipv4_iff = refl;
        is_authenticated = refl;
      })

touch-used :
    (env : Env) (st : Server) (i : ℕ)
    → (session st i).is_connected ≡ true
    → (session (touch env st i) i).is_connected ≡ true
touch-used env st i used =
    let s = record (session st i) { last_act = stamp env.now (session st i).last_act } in
    ground (
      arith,
      get_or-set st.pool.sess_arr i i s (reset_udp_session 0),
      get_or-out st.pool.sess_arr i (reset_udp_session 0),
    )

module _ (env : Env) {st : Server} (v : IsValid st) (i : ℕ) where
  count_round-IsValid : IsValid (count_round env st i)
  unfolding count_round
  count_round-IsValid = elim (Bool-cases (((session st i).loop_c + 1) % 256 % 32 == 0)) [
    | inl e ↦
        rw e
          (send_prepared-IsValid i _ _ (length-srv_pprep_sync st.buf) (touch-IsValid env i counted))
    | inr e ↦ rw e counted
  ]
    where
      counted :
          IsValid (with_session st i (λ s. record s { loop_c = ((session st i).loop_c + 1) % 256 }))
      counted =
          with_session-IsValid v i (λ s. record s { loop_c = ((session st i).loop_c + 1) % 256 })
            (record {
              client = record { idx = refl; src_addr = refl; src_port = refl; is_connected = refl };
              ipv4_iff = refl;
              is_authenticated = refl;
            })

  tun_data-Alike : Alike st (handle_clpkt_tun_data st).1
  unfolding handle_clpkt_tun_data
  tun_data-Alike = ground (
    arith,
    tun_loop-Alike st.tun_answers
        (record { asked = pkt_len st.buf; bytes = body st.buf 0 (pkt_len st.buf) }) st,
  )

  reqsync-IsValid : IsValid (handle_clpkt_reqsync st i).1
  unfolding handle_clpkt_reqsync
  reqsync-IsValid = send_prepared-IsValid i _ _ (length-srv_pprep_sync st.buf) v

  module _ (used : (session st i).is_connected ≡ true) where
    reqsync-used : (session (handle_clpkt_reqsync st i).1 i).is_connected ≡ true
    unfolding handle_clpkt_reqsync
    reqsync-used = rw ((send_prepared-KeepsPool st i (srv_pprep_sync st.buf)).pool) used

    pub dispatch-IsValid : IsValid (dispatch env st i).1
    unfolding dispatch
    dispatch-IsValid =
        let P = λ (r : Ret × Server). IsValid r.1 in
        let type = pkt_type st.buf in
        if_intro P (type == tcli_handshake) v (
          if_intro P (type == tcli_auth) (handle_clpkt_auth-IsValid env v i used) (
            if_intro P (type == tcli_tun_data) (Alike-IsValid tun_data-Alike v) (
              if_intro P (type == tcli_reqsync) (touch-IsValid env i reqsync-IsValid) (
                if_intro P (type == tcli_sync) (touch-IsValid env i v)
                  (if_intro P (type == tcli_close) (close_udp_session-IsValid v i used) v)))))

    -- Where the packet is refused as bad, the session is still in use.
    dispatch-bad :
        Quiet st.udp_answers
        → (dispatch env st i).0 ≡ fail ebadmsg
        → (session (dispatch env st i).1 i).is_connected ≡ true
    unfolding dispatch
    dispatch-bad q =
        let P = λ (r : Ret × Server). (r.0 ≡ fail ebadmsg → (session r.1 i).is_connected ≡ true) in
        let type = pkt_type st.buf in
        if_intro P (type == tcli_handshake) (λ e. used)
          (if_intro P (type == tcli_auth) (λ e. absurd (handle_clpkt_auth-ne env st i q e))
            (if_intro P (type == tcli_tun_data) (λ e. rw (tun_data-Alike.pool) used)
              (if_intro P (type == tcli_reqsync) (λ e. reqsync_used)
                (if_intro P (type == tcli_sync) (λ e. touch-used env st i used)
                  (if_intro P (type == tcli_close) (λ e. cc) (λ e. used))))))
      where
        reqsync_used : (session (touch env (handle_clpkt_reqsync st i).1 i) i).is_connected ≡ true
        reqsync_used = touch-used env (handle_clpkt_reqsync st i).1 i reqsync-used

module _ (env : Env) {st : Server} (v : IsValid st) (q : Quiet st.udp_answers) (saddr : SockAddr)
    (addr port : ℕ) where
  known-IsValid :
      (i : ℕ)
      → lookup_udp_sess st.pool addr port ≡ some i
      → IsValid (handle_packet_from env st saddr addr port).1
  unfolding handle_packet_from
  known-IsValid i found = go (dispatch env st i).0 refl
    where
      used : (session st i).is_connected ≡ true
      used = ground (arith, lookup-serves i addr port v.pool found)

      go :
          (r : Ret)
          → (dispatch env st i).0 ≡ r
          → IsValid (handle_packet_from env st saddr addr port).1
      go (ret n) e =
          rw (found, e, handle_packet_from)
            (count_round-IsValid env (dispatch-IsValid env v i used) i)
      go (fail n) e =
          rw (found, e, handle_packet_from)
            (elim (Bool-cases (n == ebadmsg)) [
              | inl b ↦ rw b (
                  close_udp_session-IsValid (dispatch-IsValid env v i used) i
                    (dispatch-bad env v i used q (e ∙ ap fail (ground arith))))
              | inr b ↦ rw b (dispatch-IsValid env v i used)
            ])

  handle_packet_from-IsValid : IsValid (handle_packet_from env st saddr addr port).1
  unfolding handle_packet_from
  handle_packet_from-IsValid = elim (Option-cases (lookup_udp_sess st.pool addr port)) [
    | inl e ↦ rw (e, handle_packet_from) (handle_new_client-IsValid env addr port v e saddr)
    | inr (i, e) ↦ known-IsValid i e
  ]

-- Whatever arrives, of whatever type, length and sender, and however the network, the clock, the
-- allocator and the user files answer, `handle_event_from_udp` keeps the server valid: the session
-- pool stays consistent and every route leads to an authenticated session. sendto() must not answer
-- EBADMSG.
pub handle_event_from_udp-IsValid :
    (env : Env) {st : Server} (what : Received)
    → IsValid st
    → Quiet st.udp_answers
    → IsValid (handle_event_from_udp env st what).1
unfolding handle_event_from_udp
handle_event_from_udp-IsValid env {st} (failed e) v q =
    if_intro (λ (r : Ret × Server). IsValid r.1) (e == eagain)
      (Alike-IsValid (record { pool = refl; ipv4_map = refl; max_conn = refl; buf = refl }) v) v
handle_event_from_udp-IsValid env {st} (datagram bytes saddr addr port) v q =
    let got = cut_off bytes in
    let w : IsValid (record st { buf = write st.buf 0 got; len = length got }) = record {
      pool = v.pool;
      members = v.members;
      routes = v.routes;
      buffer = length-write st.buf 0 got ∙ v.buffer;
    } in
    if_intro (λ (r : Ret × Server). IsValid r.1) (length got == 0) w
      (handle_packet_from-IsValid env w q saddr addr port)
