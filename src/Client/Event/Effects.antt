-- ===== src/Client/Event/Effects.antt =====
-- What a packet from the server makes the client do.
use teavpn.Common.{
  ℕ, zero, suc, ◌≡◌, ◌≢◌, ◌⊎◌, refl, arith, true, false, List, [], ◌∷◌, ◌==◌, ==_iff, Bool-cases,
  Option, inl, inr, Ret, ret, fail, ap, length, take, ◌≤◌, ◌<◌,
}
use teavpn.Packet.{
  Buf, pkt_type, pkt_len, body, pprep, tsrv_handshake, tsrv_auth_ok, tsrv_tun_data, tsrv_reqsync,
  tsrv_sync, tsrv_close,
}
use teavpn.Session.{stamp}
use teavpn.Server.{TunWrite}
use teavpn.Client.{Client}
use teavpn.Client.Socket.{do_send_to, send_packet}
use teavpn.Client.Event.{
  heard, recv_from_server, handle_tun_data, handle_req_sync, dispatch, handle_event_udp,
}
use teavpn.Client.Event.Received.{Same, all_same, recv_same}

-- The data of the packet in the buffer: the bytes that its header counts, in one write.
abbrev pub data_of : Client → TunWrite
data_of st = record { asked = pkt_len st.buf; bytes = body st.buf 0 (pkt_len st.buf) }

-- What a packet in the buffer of `st` did, with the result of handling it: nothing; an error came and
-- nothing else; its data was written; the client was told to stop; the server was heard of; or the
-- server was heard of and asked for an answer, which was sent unless an error came.
pub data Heeds (now : Option ℕ) (st : Client) : Ret × Client → Type 0 where
  quiet :
      {st' : Client}
      → (pkt_type st.buf ≡ tsrv_handshake) ⊎ (pkt_type st.buf ≡ tsrv_auth_ok)
      → Same st st'
      → Heeds now st (ret 0, st')
  refused :
      {st' : Client} (e : ℕ)
      → (pkt_type st.buf ≡ tsrv_tun_data) ⊎ (5 < pkt_type st.buf)
      → Same st st'
      → Heeds now st (fail e, st')
  took_data :
      {st' : Client}
      → pkt_type st.buf ≡ tsrv_tun_data
      → Same (record st { written = data_of st ∷ st.written }) st'
      → Heeds now st (ret 0, st')
  closed :
      {st' : Client}
      → pkt_type st.buf ≡ tsrv_close
      → Same (record st { stop = true }) st'
      → Heeds now st (ret 0, st')
  in_touch :
      {st' : Client}
      → pkt_type st.buf ≡ tsrv_sync
      → Same (record st { last_t = stamp now st.last_t }) st'
      → Heeds now st (ret 0, st')
  answered :
      {st' : Client}
      → pkt_type st.buf ≡ tsrv_reqsync
      → Same
          (record st {
            sent = (tsrv_sync ∷ 0 ∷ 0 ∷ 0 ∷ []) ∷ st.sent;
            last_t = stamp now st.last_t;
          })
          st'
      → Heeds now st (ret 0, st')
  unanswered :
      {st' : Client} (e : ℕ)
      → pkt_type st.buf ≡ tsrv_reqsync
      → Same (record st { last_t = stamp now st.last_t }) st'
      → Heeds now st (fail e, st')

-- What goes out for a prepared packet without data.
pub empty_packet :
    (buf : Buf) (type : ℕ) → 4 ≤ length buf → take 4 (pprep buf type 0 0).1 ≡ type ∷ 0 ∷ 0 ∷ 0 ∷ []
unfolding pprep
empty_packet [] type h = absurd (omega arith)
empty_packet (a ∷ []) type h = absurd (omega arith)
empty_packet (a ∷ b ∷ []) type h = absurd (omega arith)
empty_packet (a ∷ b ∷ c ∷ []) type h = absurd (omega arith)
empty_packet (a ∷ b ∷ c ∷ d ∷ buf) type h = refl

differs : {a b : ℕ} → (a == b) ≡ false → a ≢ b
differs h = ground arith

unknown_type : (n : ℕ) → n ≢ 0 → n ≢ 1 → n ≢ 2 → n ≢ 3 → n ≢ 4 → n ≢ 5 → 5 < n
unknown_type n a b c d e f = omega arith

module _ (now : Option ℕ) (st : Client) where
  by_data : pkt_type st.buf ≡ tsrv_tun_data → Heeds now st (handle_tun_data st)
  unfolding handle_tun_data
  by_data t = go st.writes refl
    where
      go : (answers : List Ret) → st.writes ≡ answers → Heeds now st (handle_tun_data st)
      go [] e = rw (handle_tun_data, e) (refused _ (inl t) (all_same st))
      go (fail n ∷ rest) e = rw (handle_tun_data, e) (refused n (inl t) (refl, refl, refl, refl))
      go (ret n ∷ rest) e = rw (handle_tun_data, e) (took_data t (refl, refl, refl, refl))

  by_request :
      4 ≤ length st.buf
      → pkt_type st.buf ≡ tsrv_reqsync
      → Heeds now st ((handle_req_sync st).0, heard now (handle_req_sync st).1)
  unfolding handle_req_sync send_packet do_send_to pprep
  by_request h t = go st.sends refl
    where
      packet :
          take 4 (pprep st.buf tsrv_sync 0 0).1 ∷ st.sent ≡ (tsrv_sync ∷ 0 ∷ 0 ∷ 0 ∷ []) ∷ st.sent
      packet = ap (λ p. p ∷ st.sent) (empty_packet st.buf tsrv_sync h)

      go :
          (answers : List Ret)
          → st.sends ≡ answers
          → Heeds now st ((handle_req_sync st).0, heard now (handle_req_sync st).1)
      go [] e = rw (handle_req_sync, e) (unanswered _ t (refl, refl, refl, refl))
      go (fail n ∷ rest) e = rw (handle_req_sync, e) (unanswered n t (refl, refl, refl, refl))
      go (ret n ∷ rest) e = rw (handle_req_sync, e) (answered t (refl, packet, refl, refl))

  by_type : 4 ≤ length st.buf → Heeds now st (dispatch now st)
  unfolding dispatch
  by_type h =
      let type = pkt_type st.buf in
      let P = Heeds now st in
      elim (Bool-cases (type == tsrv_handshake)) [
        | inl a ↦ rw a (quiet (inl ((==_iff type tsrv_handshake).0 a)) (all_same st))
        | inr a ↦ rw a (elim (Bool-cases (type == tsrv_auth_ok)) [
          | inl b ↦ rw b (quiet (inr ((==_iff type tsrv_auth_ok).0 b)) (all_same st))
          | inr b ↦ rw b (elim (Bool-cases (type == tsrv_tun_data)) [
            | inl c ↦ rw c (by_data ((==_iff type tsrv_tun_data).0 c))
            | inr c ↦ rw c (elim (Bool-cases (type == tsrv_reqsync)) [
              | inl d ↦ rw d (by_request h ((==_iff type tsrv_reqsync).0 d))
              | inr d ↦ rw d (elim (Bool-cases (type == tsrv_sync)) [
                | inl e ↦ rw e (in_touch ((==_iff type tsrv_sync).0 e) (refl, refl, refl, refl))
                | inr e ↦ rw e (elim (Bool-cases (type == tsrv_close)) [
                  | inl f ↦ rw f (closed ((==_iff type tsrv_close).0 f) (refl, refl, refl, refl))
                  | inr f ↦ rw f (
                      refused _
                        (inr (
                          unknown_type type (differs a) (differs b) (differs c) (differs d)
                            (differs e) (differs f)))
                        (all_same st))
                ])
              ])
            ])
          ])
        ])
      ]

-- What one event on the socket did, with what was received.
abbrev Met : Option ℕ → Client → Ret × Client → Ret → Type 0
Met now st' r got = elim got [
  | fail e ↦ r ≡ (fail e, st')
  | ret n ↦ elim n [ zero ↦ r ≡ (ret 0, st') | suc k ↦ Heeds now st' r ]
]

abbrev pub Hears : Option ℕ → Client → Ret × Client → Type 0
Hears now st r = let (got, st') = recv_from_server st in Same st st' × Met now st' r got

module _ (now : Option ℕ) (st : Client) where
  -- One event on the client's socket does one thing, by the type of the packet that came: data is
  -- written to the device in one write; a close packet sets `stop`; a sync packet, or a request for
  -- one, counts as a sign of life, and a request is answered by one sync packet; a handshake or an
  -- authentication is ignored; an error, or an unknown type, which is one, changes none of the outputs,
  -- of `stop` and of the last sign of life (but that a request counts whose answer failed). Receiving
  -- changes none of them. The buffer is of at least 4 bytes.
  pub handle_event_udp_lem : 4 ≤ length st.buf → Hears now st (handle_event_udp now st)
  unfolding handle_event_udp
  handle_event_udp_lem h = ((recv_same st).0, go (recv_from_server st).0 refl)
    where
      go :
          (got : Ret)
          → (recv_from_server st).0 ≡ got
          → Met now (recv_from_server st).1 (handle_event_udp now st) (recv_from_server st).0
      go (fail e) f = rw (f, handle_event_udp) refl
      go (ret zero) f = rw (f, handle_event_udp) refl
      go (ret (suc n)) f =
          rw (f, handle_event_udp)
            (by_type now (recv_from_server st).1 (omega (arith, h, (recv_same st).1)))
