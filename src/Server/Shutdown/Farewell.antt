-- ===== src/Server/Shutdown/Farewell.antt =====
-- Whom close_client_sess() tells that the session is over.
use teavpn.Common.{
  ℕ, zero, suc, ◌+◌, ◌≤◌, ◌≡◌, refl, sym, ◌∙◌, ap, subst, arith, Bool-cases, inl, inr, List, [],
  ◌∷◌, ◌++◌, length, ◌==◌, if◌then◌else◌, ret, take,
}
use mathlib.Core.List.{append_assoc}
use teavpn.Route.{del_ipv4_route_map}
use teavpn.Packet.{Buf, tsrv_close, pprep}
use teavpn.Session.{UdpSess, SockAddr}
use teavpn.Server.{Server, Datagram, Attempt, session}
use teavpn.Server.Send.{send_loop, send_to_client}
use teavpn.Server.Close.{close_udp_session, send_prepared}
use teavpn.Server.Valid.{IsValid}
use teavpn.Server.Valid.Close.{close_udp_session_lem}
use teavpn.Server.Shutdown.{close_if_connected, close_from, close_client_sess}
use teavpn.Server.Shutdown.Sessions.{close_one}

-- The kernel takes the next `n` packets.
unfoldable pub TakesAll : ℕ → List Attempt → Type 0
TakesAll zero answers = Unit {0}
TakesAll (suc n) [] = ⊥
TakesAll (suc n) (a ∷ answers) = ((k : ℕ) × (a.io ≡ ret (suc k))) × TakesAll n answers

-- The close packet for a session, 4 bytes with no data.
abbrev pub goodbye : UdpSess → Datagram
goodbye s = record { dst = s.addr; bytes = tsrv_close ∷ 0 ∷ 0 ∷ 0 ∷ [] }

-- What the sessions in use among `rounds` sessions from `i` on are told, the last one first.
unfoldable pub goodbyes : (ℕ → UdpSess) → ℕ → ℕ → List Datagram
goodbyes sess zero i = []
goodbyes sess (suc rounds) i =
    let rest = goodbyes sess rounds (i + 1) in
    if (sess i).is_connected then rest ++ (goodbye (sess i) ∷ []) else rest

close_packet :
    (buf : Buf)
    → length buf ≡ 4100
    → take 4 (pprep buf tsrv_close 0 0).1 ≡ tsrv_close ∷ 0 ∷ 0 ∷ 0 ∷ []
unfolding pprep
close_packet [] h = absurd (ground arith)
close_packet (a ∷ []) h = absurd (ground arith)
close_packet (a ∷ b ∷ []) h = absurd (ground arith)
close_packet (a ∷ b ∷ c ∷ []) h = absurd (ground arith)
close_packet (a ∷ b ∷ c ∷ d ∷ buf) h = refl

loop-sent :
    (answers : List Attempt) (n : ℕ) (dst : SockAddr) (bytes : List ℕ) (st : Server)
    → TakesAll (suc n) answers
    → ((send_loop answers dst bytes st).1.sent ≡ record { dst = dst; bytes = bytes } ∷ st.sent)
      × TakesAll n (send_loop answers dst bytes st).1.udp_answers
unfolding send_loop TakesAll
loop-sent [] n dst bytes st t = absurd t
loop-sent (a ∷ rest) n dst bytes st ((k, e), t) = rw e (refl, t)

-- The close packet that is prepared for a session goes to it.
packet-sent :
    (st : Server) (i n : ℕ)
    → length st.buf ≡ 4100
    → TakesAll (suc n) st.udp_answers
    → ((send_prepared st i (pprep st.buf tsrv_close 0 0)).1.sent ≡ goodbye (session st i) ∷ st.sent)
      × TakesAll n (send_prepared st i (pprep st.buf tsrv_close 0 0)).1.udp_answers
unfolding send_to_client pprep
packet-sent st i n h t =
    let buf = (pprep st.buf tsrv_close 0 0).1 in
    let (e, left) =
      loop-sent st.udp_answers n (session st i).addr (take 4 buf) (record st { buf = buf }) t in
    (
      e
          ∙ ap (λ b. record { dst = (session st i).addr; bytes = b } ∷ st.sent)
              (close_packet st.buf h),
      left,
    )

close-sent :
    (st : Server) (i n : ℕ)
    → length st.buf ≡ 4100
    → TakesAll (suc n) st.udp_answers
    → ((close_udp_session st i).1.sent ≡ goodbye (session st i) ∷ st.sent)
      × TakesAll n (close_udp_session st i).1.udp_answers
unfolding close_udp_session
close-sent st i n h t = elim (Bool-cases ((session st i).ipv4_iff == 0)) [
  | inl e ↦ rw e (packet-sent st i n h t)
  | inr e ↦ rw e (
      packet-sent (record st { ipv4_map = del_ipv4_route_map st.ipv4_map (session st i).ipv4_iff })
        i n h t)
]

-- The sessions in use among those.
unfoldable pub count_used : (ℕ → UdpSess) → ℕ → ℕ → ℕ
count_used sess zero i = 0
count_used sess (suc rounds) i =
    let rest = count_used sess rounds (i + 1) in if (sess i).is_connected then suc rest else rest

goodbyes-same :
    (f g : ℕ → UdpSess) (rounds i : ℕ)
    → ((j : ℕ) → i ≤ j → f j ≡ g j)
    → (goodbyes f rounds i ≡ goodbyes g rounds i) × (count_used f rounds i ≡ count_used g rounds i)
unfolding goodbyes count_used
goodbyes-same f g zero i h = (refl, refl)
goodbyes-same f g (suc rounds) i h =
    let (e, c) = goodbyes-same f g rounds (i + 1) (λ j from. h j (omega arith)) in
    (rw (h i (omega arith), e) refl, rw (h i (omega arith), c) refl)

-- The other sessions are as they were.
close_one-later :
    (i : ℕ) {st : Server}
    → IsValid st
    → (j : ℕ) → i + 1 ≤ j
    → session (close_if_connected st i) j ≡ session st j
close_one-later i {st} v j past = elim (Bool-cases (session st i).is_connected) [
  | inl used ↦ rw used ((close_udp_session_lem v i used).3 j (ground arith))
  | inr idle ↦ rw idle refl
]

-- What one session is told.
abbrev told : UdpSess → List Datagram
told s = if s.is_connected then goodbye s ∷ [] else []

close_one-sent :
    (i rounds : ℕ) {st : Server}
    → IsValid st
    → TakesAll (count_used (session st) (suc rounds) i) st.udp_answers
    → let st' = close_if_connected st i in
      (st'.sent ≡ told (session st i) ++ st.sent)
      × TakesAll (count_used (session st) rounds (i + 1)) st'.udp_answers
unfolding count_used
close_one-sent i rounds {st} v = elim (Bool-cases (session st i).is_connected) [
  | inl used ↦ rw used (λ t. close-sent st i (count_used (session st) rounds (i + 1)) v.buffer t)
  | inr idle ↦ rw idle (λ t. (refl, t))
]

goodbyes-told :
    (sess : ℕ → UdpSess) (rounds i : ℕ) (more : List Datagram)
    → goodbyes sess rounds (i + 1) ++ (told (sess i) ++ more) ≡ goodbyes sess (suc rounds) i ++ more
unfolding goodbyes
goodbyes-told sess rounds i more = elim (Bool-cases (sess i).is_connected) [
  | inl used ↦
      rw used (sym (append_assoc (goodbyes sess rounds (i + 1)) (goodbye (sess i) ∷ []) more))
  | inr idle ↦ rw idle refl
]

close_from-sent :
    (rounds i : ℕ) {st : Server}
    → IsValid st
    → TakesAll (count_used (session st) rounds i) st.udp_answers
    → (close_from rounds i st).sent ≡ goodbyes (session st) rounds i ++ st.sent
unfolding close_from
close_from-sent zero i v t = unfold goodbyes in refl
close_from-sent (suc rounds) i {st} v t =
    let st' = close_if_connected st i in
    let (said, left) = close_one-sent i rounds v t in
    let (same, count) =
      goodbyes-same (session st') (session st) rounds (i + 1) (close_one-later i v) in
    close_from-sent rounds (i + 1) (close_one i v).valid
      (subst (λ n. TakesAll n st'.udp_answers) (sym count) left)
    ∙ (cc (same, said) ∙ goodbyes-told (session st) rounds i st.sent)

-- If the kernel takes a packet for each session in use, `close_client_sess` sends to each of them
-- exactly one close packet, in the order of the indices, and nothing else.
pub close_client_sess-sent :
    {st : Server}
    → IsValid st
    → TakesAll (count_used (session st) st.max_conn 0) st.udp_answers
    → (close_client_sess st).sent ≡ goodbyes (session st) st.max_conn 0 ++ st.sent
unfolding close_client_sess
close_client_sess-sent {st} v t = close_from-sent st.max_conn 0 v t
