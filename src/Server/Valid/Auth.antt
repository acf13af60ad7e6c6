-- ===== src/Server/Valid/Auth.antt =====
-- An authentication packet keeps the server valid.
use teavpn.Common.{
  ℕ, ◌+◌, ◌≡◌, ◌≢◌, refl, ◌∙◌, arith, true, false, ◌==◌, if◌then◌else◌, take, get_or-set,
  Bool-cases, Option-cases, inl, inr, same_place, Ret, ret, fail, ebadmsg, List, [], ◌∷◌,
}
use teavpn.Packet.{
  Buf, write, pprep, size_if_info, size_auth_res, tsrv_auth_ok, tsrv_auth_reject, strncpy2,
}
use teavpn.Packet.Auth.{credential}
use teavpn.Packet.Fields.{length-write}
use teavpn.Packet.Sizes.{length-pprep, pprep-length}
use teavpn.Route.{get_ipv4_route_map}
use teavpn.Route.Laws.{get-add}
use teavpn.Session.{UdpSess, reset_udp_session}
use teavpn.Session.Update.{changed-IsValid}
use teavpn.Session.Delete.{used_lt}
use teavpn.Server.{Server, Env, Attempt, session}
use teavpn.Server.Send.{emergency_wait, send_loop, send_to_client}
use teavpn.Server.Close.{send_prepared}
use teavpn.Server.Auth.{assigned_ipv4, admit, accept_auth, reject_auth, handle_clpkt_auth}
use teavpn.Server.Valid.{IsValid}
use teavpn.Server.Valid.Close.{
  send_prepared-KeepsPool, send_prepared-IsValid, close_udp_session-IsValid,
}

-- sendto() never answers EBADMSG, the error by which the code marks a bad packet.
abbrev pub Quiet : List Attempt → Type 0
Quiet [] = Unit {0}
Quiet (a ∷ rest) = (a.io ≢ fail ebadmsg) × Quiet rest

emergency_wait-ne : (polled : Ret) (st : Server) → (emergency_wait polled st).0 ≢ fail ebadmsg
unfolding emergency_wait
emergency_wait-ne polled st = ground arith

send_loop-ne :
    (answers : List Attempt) (dst : _) (bytes : List ℕ) (st : Server)
    → Quiet answers
    → (send_loop answers dst bytes st).0 ≢ fail ebadmsg
unfolding send_loop
send_loop-ne [] dst bytes st q = ground arith
send_loop-ne (a ∷ rest) dst bytes st q =
    let asked = record st { udp_answers = rest } in
    ground (
      arith,
      emergency_wait-ne a.poll asked,
      send_loop-ne rest dst bytes (emergency_wait a.poll asked).1 q.1,
    )

pub send_prepared-ne :
    (st : Server) (i n : ℕ) (buf : Buf)
    → Quiet st.udp_answers
    → (send_prepared st i (n, buf)).0 ≢ fail ebadmsg
unfolding send_to_client
send_prepared-ne st i n buf q = ground (
  arith,
  send_loop-ne st.udp_answers (session st i).addr (take n buf) (record st { buf = buf }) q,
)

module _ (env : Env) (name : List ℕ) {st : Server} (v : IsValid st) (i : ℕ)
    (used : (session st i).is_connected ≡ true)
    (fresh : (session st i).is_authenticated ≡ false) where
  abbrev iff : ℕ
  iff = env.inet_addr (assigned_ipv4 st.buf)

  abbrev enrolled : UdpSess
  enrolled = record (session st i) {
    ipv4_iff = iff;
    is_authenticated = true;
    username = strncpy2 name 256;
  }

  pub admitted :
      (j : ℕ) → session (admit env name st i) j ≡ (if i == j then enrolled else session st j)
  unfolding admit
  admitted j = ground (
    arith,
    get_or-set st.pool.sess_arr i j enrolled (reset_udp_session 0),
    used_lt v.pool i used,
    v.pool.size,
  )

  pub routed :
      (a : ℕ)
      → get_ipv4_route_map (admit env name st i).ipv4_map a
        ≡ (if same_place iff a then ret i else get_ipv4_route_map st.ipv4_map a)
  unfolding admit
  routed a =
      rw (v.pool.indexed i (used_lt v.pool i used))
        (get-add st.ipv4_map iff a i (omega (arith, used_lt v.pool i used, v.pool.small)))

  pub admit-IsValid : IsValid (admit env name st i)
  admit-IsValid = record {
    pool =
        unfold admit in
        changed-IsValid v.pool i enrolled
          (record { idx = refl; src_addr = refl; src_port = refl; is_connected = refl });
    members = λ j. ground (arith, admitted j, v.members j);
    routes = λ a j clear route. ground (arith, admitted j, routed a, v.routes a j clear);
    buffer = unfold admit in v.buffer;
  }

module _ (env : Env) {st : Server} (v : IsValid st) (i : ℕ)
    (used : (session st i).is_connected ≡ true) where
  reject_auth-IsValid : IsValid (reject_auth st i).1
  unfolding reject_auth
  reject_auth-IsValid =
      close_udp_session-IsValid
        (send_prepared-IsValid i _ _ (length-pprep st.buf tsrv_auth_reject 0 0) v) i
        (rw ((send_prepared-KeepsPool st i (pprep st.buf tsrv_auth_reject 0 0)).pool) used)

  accept_auth-IsValid :
      (name iff_bytes : List ℕ)
      → (session st i).is_authenticated ≡ false
      → IsValid (accept_auth env name iff_bytes st i).1
  unfolding accept_auth
  accept_auth-IsValid name iff_bytes fresh = go (send_prepared st i p).0 refl
    where
      p : ℕ × Buf
      p = pprep (write st.buf 6 (take size_if_info iff_bytes)) tsrv_auth_ok size_auth_res 0

      told : IsValid (send_prepared st i p).1
      told =
          send_prepared-IsValid i _ _
            (length-pprep (write st.buf 6 (take size_if_info iff_bytes)) tsrv_auth_ok size_auth_res
                0
              ∙ length-write st.buf 6 (take size_if_info iff_bytes))
            v

      still : (session (send_prepared st i p).1 i).is_connected ≡ true
      still = rw ((send_prepared-KeepsPool st i p).pool) used

      still_fresh : (session (send_prepared st i p).1 i).is_authenticated ≡ false
      still_fresh = rw ((send_prepared-KeepsPool st i p).pool) fresh

      go :
          (r : Ret) → (send_prepared st i p).0 ≡ r → IsValid (accept_auth env name iff_bytes st i).1
      go (ret n) e = rw (e, accept_auth) (admit-IsValid env name told i still still_fresh)
      go (fail n) e = rw (e, accept_auth) (close_udp_session-IsValid told i still)

  -- The handling of an authentication packet keeps the server valid.
  pub handle_clpkt_auth-IsValid : IsValid (handle_clpkt_auth env st i).1
  unfolding handle_clpkt_auth
  handle_clpkt_auth-IsValid = elim (Bool-cases (session st i).is_authenticated) [
    | inl e ↦ rw e v
    | inr e ↦ elim (Option-cases (env.auth (credential st.buf 0) (credential st.buf 256))) [
      | inl f ↦ rw (e, f, handle_clpkt_auth) reject_auth-IsValid
      | inr (b, f) ↦ rw (e, f, handle_clpkt_auth) (accept_auth-IsValid _ b e)
    ]
  ]

module _ (env : Env) (st : Server) (i : ℕ) (q : Quiet st.udp_answers) where
  accept_auth-ne : (name b : List ℕ) → (accept_auth env name b st i).0 ≢ fail ebadmsg
  unfolding accept_auth
  accept_auth-ne name b = ground (
    arith,
    send_prepared-ne st i (size_auth_res + 4)
        (pprep (write st.buf 6 (take size_if_info b)) tsrv_auth_ok size_auth_res 0).1 q,
    pprep-length (write st.buf 6 (take size_if_info b)) tsrv_auth_ok size_auth_res 0,
  )

  reject_auth-ne : (reject_auth st i).0 ≢ fail ebadmsg
  unfolding reject_auth
  reject_auth-ne = ground (
    arith,
    send_prepared-ne st i 4 (pprep st.buf tsrv_auth_reject 0 0).1 q,
    pprep-length st.buf tsrv_auth_reject 0 0,
  )

  pub handle_clpkt_auth-ne : (handle_clpkt_auth env st i).0 ≢ fail ebadmsg
  unfolding handle_clpkt_auth
  handle_clpkt_auth-ne =
      elim (Option-cases (env.auth (credential st.buf 0) (credential st.buf 256))) [
        | inl f ↦ ground (arith, reject_auth-ne)
        | inr (b, f) ↦ ground (arith, accept_auth-ne (credential st.buf 0) b)
      ]
