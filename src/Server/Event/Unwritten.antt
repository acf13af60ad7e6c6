-- ===== src/Server/Event/Unwritten.antt =====
-- What writes nothing to the TUN device.
use teavpn.Common.{
  ℕ, ◌+◌, ◌%◌, take, ◌≡◌, refl, ◌∙◌, arith, List, ◌==◌, if◌then◌else◌, if_intro, Option-cases, inl,
  inr, Ret, ret, fail, eagain,
}
use teavpn.Packet.Auth.{credential}
use teavpn.Packet.{
  write, size_if_info, size_auth_res, pprep, srv_pprep_sync, tsrv_close, tsrv_auth_ok,
  tsrv_auth_reject,
}
use teavpn.Session.{SockAddr, create_udp_sess, Pool}
use teavpn.Server.{Server, Env, session, with_session}
use teavpn.Server.Close.{unroute, send_prepared, close_udp_session}
use teavpn.Server.Auth.{accept_auth, reject_auth, admit, handle_clpkt_auth}
use teavpn.Server.Handshake.{
  skip_session_creation, handle_client_handshake, greet_new_client, handle_new_client,
}
use teavpn.Server.Event.{touch, count_round}
use teavpn.Server.Valid.Close.{send_prepared-KeepsPool}
use teavpn.Server.Valid.New.{handle_client_handshake-KeepsPool}

pub send_prepared-written :
    (st : Server) (i : ℕ) (p : ℕ × List ℕ) → (send_prepared st i p).1.written ≡ st.written
send_prepared-written st i p = (send_prepared-KeepsPool st i p).written

pub close_udp_session-written :
    (st : Server) (i : ℕ) → (close_udp_session st i).1.written ≡ st.written
unfolding close_udp_session
close_udp_session-written st i =
    send_prepared-written (unroute st i) i (pprep (unroute st i).buf tsrv_close 0 0) ∙ ground arith

reject_auth-written : (st : Server) (i : ℕ) → (reject_auth st i).1.written ≡ st.written
unfolding reject_auth
reject_auth-written st i =
    let p = pprep st.buf tsrv_auth_reject 0 0 in
    close_udp_session-written (send_prepared st i p).1 i ∙ send_prepared-written st i p

accept_auth-written :
    (env : Env) (name info : List ℕ) (st : Server) (i : ℕ)
    → (accept_auth env name info st i).1.written ≡ st.written
unfolding accept_auth admit
accept_auth-written env name info st i = go (send_prepared st i p).0 refl
  where
    p : ℕ × List ℕ
    p = pprep (write st.buf 6 (take size_if_info info)) tsrv_auth_ok size_auth_res 0

    go :
        (r : Ret)
        → (send_prepared st i p).0 ≡ r
        → (accept_auth env name info st i).1.written ≡ st.written
    go (ret n) e = rw (e, accept_auth) (send_prepared-written st i p)
    go (fail n) e =
        rw (e, accept_auth)
          (close_udp_session-written (send_prepared st i p).1 i ∙ send_prepared-written st i p)

pub handle_clpkt_auth-written :
    (env : Env) (st : Server) (i : ℕ) → (handle_clpkt_auth env st i).1.written ≡ st.written
unfolding handle_clpkt_auth
handle_clpkt_auth-written env st i =
    if_intro (λ (r : Ret × Server). r.1.written ≡ st.written) (session st i).is_authenticated refl
      (elim (Option-cases (env.auth (credential st.buf 0) (credential st.buf 256))) [
        | inl f ↦ rw f (reject_auth-written st i)
        | inr (info, f) ↦ rw f (accept_auth-written env (credential st.buf 0) info st i)
      ])

greet_new_client-written :
    (env : Env) (st : Server) (i : ℕ) → (greet_new_client env st i).1.written ≡ st.written
unfolding greet_new_client
greet_new_client-written env st i = ground (
  arith,
  handle_client_handshake-KeepsPool env st i,
  close_udp_session-written (handle_client_handshake env st i).1 i,
)

pub handle_new_client-written :
    (env : Env) (st : Server) (addr port : ℕ) (saddr : SockAddr)
    → (handle_new_client env st addr port saddr).1.written ≡ st.written
unfolding handle_new_client
handle_new_client-written env st addr port saddr =
    if_intro (λ (r : Ret × Server). r.1.written ≡ st.written) (skip_session_creation st.buf) refl
      (go made.0 refl)
  where
    made : Ret × Pool
    made = create_udp_sess env.allocated env.now st.pool addr port

    go :
        (r : Ret)
        → made.0 ≡ r
        → (elim made.0 as (λ x. Ret × Server) [
          | fail e ↦ (if e == eagain then ret 0 else fail e, record st { pool = made.1 })
          | ret i ↦
              greet_new_client env
                (with_session (record st { pool = made.1 }) i (λ s. record s { addr = saddr }))
                i
        ]).1.written
          ≡ st.written
    go (ret i) e = rw e (
        greet_new_client-written env
          (with_session (record st { pool = made.1 }) i (λ s. record s { addr = saddr })) i)
    go (fail n) e = rw e refl

pub count_round-written :
    (env : Env) (st : Server) (i : ℕ) → (count_round env st i).written ≡ st.written
unfolding count_round
count_round-written env st i =
    let counted =
      with_session st i (λ s. record s { loop_c = ((session st i).loop_c + 1) % 256 }) in
    let touched = touch env counted i in
    if_intro (λ (r : Server). r.written ≡ st.written) (((session st i).loop_c + 1) % 256 % 32 == 0)
      (send_prepared-written touched i (srv_pprep_sync touched.buf)) refl
