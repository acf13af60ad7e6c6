-- ===== src/Server/Auth/Admission.antt =====
-- What an authentication packet leads to.
use teavpn.Common.{
  ℕ, true, false, ◌≡◌, ◌≢◌, refl, sym, subst, ap, ◌∙◌, arith, Option, none, some, List, Ret, ret,
  fail, ◌∷◌, Option-cases, inl, inr, take, take_all, same_place, drop, length, ◌==◌,
}
use teavpn.Packet.{
  cstr, strncpy2, write, pprep, size_if_info, size_auth_res, tsrv_auth_ok, tsrv_auth_reject, Buf,
}
use teavpn.Packet.Auth.{credential}
use teavpn.Packet.Fields.{take-drop-write_within, drop-pprep, length-write}
use teavpn.Packet.Sizes.{length-pprep}
use teavpn.Route.{get_ipv4_route_map}
use teavpn.Session.{UdpSess, sess_at, reset_udp_session}
use teavpn.Server.{Server, Env, Datagram, session}
use teavpn.Server.Send.{status}
use teavpn.Server.Send.Frame.{send_to_client-Keeps}
use teavpn.Server.Send.Retry.{send_to_client-sent}
use teavpn.Server.Auth.{assigned_ipv4, admit, accept_auth, reject_auth, handle_clpkt_auth}
use teavpn.Server.Close.{send_prepared, close_udp_session}
use teavpn.Server.Valid.{IsValid}
use teavpn.Server.Valid.Auth.{admitted, routed}
use teavpn.Server.Valid.Close.{
  send_prepared-KeepsPool, send_prepared-IsValid, close_udp_session_lem,
}

-- The private address in the bytes of a `struct if_info`: the field of 16 bytes behind 32 others.
abbrev pub private_ipv4 : Env → List ℕ → ℕ
private_ipv4 env info = env.inet_addr (cstr (take 16 (drop 32 info)))

-- The session of a client with this name and these settings.
abbrev pub enrolled : Env → List ℕ → List ℕ → UdpSess → UdpSess
enrolled env name info s = record s {
  ipv4_iff = private_ipv4 env info;
  is_authenticated = true;
  username = strncpy2 name 256;
}

-- The answer to a client that is let in, made in the server's buffer, and its datagram.
abbrev pub acceptance : Server → List ℕ → ℕ × Buf
acceptance st info = pprep (write st.buf 6 (take size_if_info info)) tsrv_auth_ok size_auth_res 0

abbrev pub accepting : Server → ℕ → List ℕ → Datagram
accepting st i info =
    let (n, buf) = acceptance st info in record { dst = (session st i).addr; bytes = take n buf }

-- What the acceptance leads to, for the result of sending the answer.
abbrev pub Accepts : Env → Server → ℕ → List ℕ → Ret → Ret × Server → Type 0
Accepts env st i info told (r, st') = elim told [
  | ret _ ↦
      (r ≡ ret 0)
      × (st'.sent ≡ accepting st i info ∷ st.sent)
      × (session st' i ≡ enrolled env (credential st.buf 0) info (session st i))
      × (get_ipv4_route_map st'.ipv4_map (private_ipv4 env info) ≡ ret i)
  | fail e ↦ (r ≡ fail e) × (session st' i ≡ reset_udp_session i)
]

-- What the packet leads to, for the answer of the user files.
abbrev pub Admits : Env → Server → ℕ → Option (List ℕ) → Ret × Server → Type 0
Admits env st i answer (r, st') =
    elim answer [
      | none ↦
          (r ≡ status (send_prepared st i (pprep st.buf tsrv_auth_reject 0 0)).0)
          × (session st' i ≡ reset_udp_session i)
      | some info ↦ Accepts env st i info (send_prepared st i (acceptance st info)).0 (r, st')
    ]
    × ((j : ℕ) → j ≢ i → session st' j ≡ session st j)

==_refl : (i : ℕ) → (i == i) ≡ true
==_refl i = ground arith

==-other : (i j : ℕ) → j ≢ i → (i == j) ≡ false
==-other i j ne = ground arith

same_place_refl : (a : ℕ) → same_place a a ≡ true
same_place_refl a = ground arith

admit-sent :
    (env : Env) (name : List ℕ) (st : Server) (i : ℕ) → (admit env name st i).sent ≡ st.sent
unfolding admit
admit-sent env name st i = refl

-- The newest datagram of an acceptance whose answer was sent.
pub accept_auth-sent :
    (env : Env) (name info : List ℕ) (st : Server) (i n : ℕ)
    → (send_prepared st i (acceptance st info)).0 ≡ ret n
    → (accept_auth env name info st i).1.sent ≡ accepting st i info ∷ st.sent
unfolding accept_auth pprep
accept_auth-sent env name info st i n e =
    let (k, buf) = acceptance st info in
    rw (e, accept_auth)
      (admit-sent env name (send_prepared st i (acceptance st info)).1 i
        ∙ send_to_client-sent (record st { buf = buf }) i k n (omega arith) e)

pub handled_some :
    (env : Env) (st : Server) (i : ℕ) (info : List ℕ)
    → env.auth (credential st.buf 0) (credential st.buf 256) ≡ some info
    → (session st i).is_authenticated ≡ false
    → handle_clpkt_auth env st i ≡ accept_auth env (credential st.buf 0) info st i
unfolding handle_clpkt_auth
handled_some env st i info f fresh = rw (fresh, f, handle_clpkt_auth) refl

module _ (env : Env) {st : Server} (v : IsValid st) (i : ℕ)
    (used : (session st i).is_connected ≡ true) where
  rejected : Admits env st i none (reject_auth st i)
  unfolding reject_auth
  rejected =
      let k = send_prepared-KeepsPool st i (pprep st.buf tsrv_auth_reject 0 0) in
      let told = send_prepared-IsValid i _ _ (length-pprep st.buf tsrv_auth_reject 0 0) v in
      let (done, valid, gone, others, counted, found, routes) =
        close_udp_session_lem told i (rw k.pool used) in
      ((refl, gone), λ j ne. others j ne ∙ ap (λ p. sess_at p.sess_arr j) k.pool)

  module _ (info : List ℕ) (size : length info ≡ 82)
      (fresh : (session st i).is_authenticated ≡ false) where
    abbrev answer : ℕ × Buf
    answer = acceptance st info

    abbrev told : Server
    told = (send_prepared st i answer).1

    told-IsValid : IsValid told
    told-IsValid =
        send_prepared-IsValid i _ _
          (length-pprep (write st.buf 6 (take size_if_info info)) tsrv_auth_ok size_auth_res 0
            ∙ length-write st.buf 6 (take size_if_info info))
          v

    whole : take size_if_info info ≡ info
    whole = subst (λ n. take n info ≡ info) size (take_all info)

    told_iff : env.inet_addr (assigned_ipv4 told.buf) ≡ private_ipv4 env info
    told_iff =
        let bytes = take size_if_info info in
        ap (λ b. env.inet_addr (assigned_ipv4 b))
          (send_to_client-Keeps (record st { buf = answer.1 }) i answer.0).buf
        ∙ (ap (λ d. env.inet_addr (cstr (take 16 d)))
              (drop-pprep (write st.buf 6 bytes) tsrv_auth_ok size_auth_res 0 38 (omega arith))
            ∙ (ap (λ d. env.inet_addr (cstr d))
                  (take-drop-write_within st.buf 6 32 16 bytes
                    (omega (arith, ap length whole, size))
                    (omega (arith, ap length whole, size, v.buffer)))
                ∙ ap (λ l. env.inet_addr (cstr (take 16 (drop 32 l)))) whole))

    accept_ret :
        (n : ℕ)
        → (send_prepared st i answer).0 ≡ ret n
        → accept_auth env (credential st.buf 0) info st i
          ≡ (ret 0, admit env (credential st.buf 0) told i)
    unfolding accept_auth
    accept_ret n e = rw (e, accept_auth) refl

    accept_fail :
        (n : ℕ)
        → (send_prepared st i answer).0 ≡ fail n
        → accept_auth env (credential st.buf 0) info st i ≡ (fail n, (close_udp_session told i).1)
    unfolding accept_auth
    accept_fail n e = rw (e, accept_auth) refl

    kept : told.pool ≡ st.pool
    kept = (send_prepared-KeepsPool st i answer).pool

    abbrev Settled : Ret → Ret × Server → Type 0
    Settled told' (r, st') =
        Accepts env st i info told' (r, st') × ((j : ℕ) → j ≢ i → session st' j ≡ session st j)

    admit-Settled :
        (n : ℕ)
        → (send_prepared st i answer).0 ≡ ret n
        → Settled (ret n) (ret 0, admit env (credential st.buf 0) told i)
    admit-Settled n e =
        let here =
          admitted env (credential st.buf 0) told-IsValid i (rw kept used) (rw kept fresh) in
        let leads =
          routed env (credential st.buf 0) told-IsValid i (rw kept used) (rw kept fresh)
            (private_ipv4 env info) in
        (
          (
            refl,
            ap (λ x. x.1.sent) (sym (accept_ret n e))
                ∙ accept_auth-sent env (credential st.buf 0) info st i n e,
            here i
                ∙ rw (told_iff, ==_refl i)
                    (ap (λ p. enrolled env (credential st.buf 0) info (sess_at p.sess_arr i)) kept),
            leads ∙ rw (told_iff, same_place_refl (private_ipv4 env info)) refl,
          ),
          λ j ne. here j ∙ rw (==-other i j ne) (ap (λ p. sess_at p.sess_arr j) kept),
        )

    close_udp_session-Settled : (n : ℕ) → Settled (fail n) (fail n, (close_udp_session told i).1)
    close_udp_session-Settled n =
        let (done, valid, gone, others, counted, found, routes) =
          close_udp_session_lem told-IsValid i (rw kept used) in
        ((refl, gone), λ j ne. others j ne ∙ ap (λ p. sess_at p.sess_arr j) kept)

    accepted : Admits env st i (some info) (accept_auth env (credential st.buf 0) info st i)
    accepted = go (send_prepared st i answer).0 refl
      where
        go :
            (r : Ret)
            → (send_prepared st i answer).0 ≡ r
            → Admits env st i (some info) (accept_auth env (credential st.buf 0) info st i)
        go (ret n) e = subst (Admits env st i (some info)) (sym (accept_ret n e)) (
            subst (λ t. Settled t (ret 0, admit env (credential st.buf 0) told i)) (sym e)
              (admit-Settled n e))
        go (fail n) e = subst (Admits env st i (some info)) (sym (accept_fail n e)) (
            subst (λ t. Settled t (fail n, (close_udp_session told i).1)) (sym e)
              (close_udp_session-Settled n))

  handled_none :
      env.auth (credential st.buf 0) (credential st.buf 256) ≡ none
      → (session st i).is_authenticated ≡ false
      → handle_clpkt_auth env st i ≡ reject_auth st i
  unfolding handle_clpkt_auth
  handled_none f fresh = rw (fresh, f, handle_clpkt_auth) refl

  -- For a session in use that is not authenticated: if the user files reject the packet's name and
  -- password, the result is the one of sending the rejection, and the session is closed. If they accept
  -- with settings of 82 bytes, everything hangs on the sending of the answer with these settings: if
  -- the sending succeeds, the result is 0, the answer is the newest datagram to the session's address,
  -- the session is authenticated with the packet's name and the private address in the settings, and a
  -- lookup of that address leads to it; if the sending fails, its error is the result, and the session
  -- is closed. No other session changes.
  pub handle_clpkt_auth_lem :
      ((info : List ℕ)
        → env.auth (credential st.buf 0) (credential st.buf 256) ≡ some info
        → length info ≡ 82)
      → (session st i).is_authenticated ≡ false
      → Admits env st i
          (env.auth (credential st.buf 0) (credential st.buf 256))
          (handle_clpkt_auth env st i)
  handle_clpkt_auth_lem size fresh =
      elim (Option-cases (env.auth (credential st.buf 0) (credential st.buf 256))) [
        | inl f ↦ rw f (subst (Admits env st i none) (sym (handled_none f fresh)) rejected)
        | inr (info, f) ↦ rw f (
            subst (Admits env st i (some info)) (sym (handled_some env st i info f fresh))
              (accepted info (size info f) fresh))
      ]
