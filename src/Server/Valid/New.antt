-- ===== src/Server/Valid/New.antt =====
-- A packet from an unknown client keeps the server valid.
use teavpn.Common.{
  ℕ, ◌≡◌, refl, subst, arith, true, false, length, length-set, some, none, set, get_or, get_or-set,
  get_or-out, Bool-cases, Option-cases, inl, inr, Ret, ret, fail,
}
use teavpn.Packet.{Buf, srv_pprep_handshake, srv_pprep_handshake_reject}
use teavpn.Packet.Sizes.{length-srv_pprep_handshake, length-srv_pprep_handshake_reject}
use teavpn.Session.{Pool, SockAddr, reset_udp_session, create_udp_sess, lookup_udp_sess}
use teavpn.Session.Create.{create_udp_sess_lem, Creates}
use teavpn.Server.{Server, Env, session, with_session}
use teavpn.Server.Handshake.{
  handshake_verdict, handshake_checked, send_handshake, send_handshake_reject,
  handle_client_handshake, greet_new_client, skip_session_creation, handle_new_client,
}
use teavpn.Server.Valid.{IsValid, with_session-IsValid}
use teavpn.Server.Valid.Close.{
  buf-IsValid, KeepsPool, send_prepared-KeepsPool, send_prepared-IsValid, close_udp_session-IsValid,
}

length-handshake_checked : (len : ℕ) (buf : Buf) → length (handshake_checked len buf) ≡ length buf
unfolding handshake_checked
length-handshake_checked len buf = ground (
  arith,
  length-set buf 2 (get_or buf 3 0),
  length-set (set buf 2 (get_or buf 3 0)) 3 (get_or buf 2 0),
  length-set (set (set buf 2 (get_or buf 3 0)) 3 (get_or buf 2 0)) 35 0,
)

module _ (env : Env) (st : Server) (i : ℕ) where
  pub handle_client_handshake-KeepsPool : KeepsPool st (handle_client_handshake env st i).1
  unfolding handle_client_handshake send_handshake send_handshake_reject
  handle_client_handshake-KeepsPool = elim (Option-cases (handshake_verdict st.len st.buf)) [
    | inl e ↦
        rw (e, handle_client_handshake)
          (ground (arith, send_prepared-KeepsPool checked i (srv_pprep_handshake checked.buf)))
    | inr (r, e) ↦
        rw (e, handle_client_handshake)
          (ground (
            arith,
            send_prepared-KeepsPool checked i
                (srv_pprep_handshake_reject checked.buf r (some (env.reject_msg st.len st.buf))),
          ))
  ]
    where
      checked : Server
      checked = record st { buf = handshake_checked st.len st.buf }

  pub handle_client_handshake-IsValid : IsValid st → IsValid (handle_client_handshake env st i).1
  unfolding handle_client_handshake send_handshake send_handshake_reject
  handle_client_handshake-IsValid v =
      let w =
        buf-IsValid (handshake_checked st.len st.buf) (length-handshake_checked st.len st.buf) v in
      elim (Option-cases (handshake_verdict st.len st.buf)) [
        | inl e ↦
            rw (e, handle_client_handshake)
              (send_prepared-IsValid i _ _ (length-srv_pprep_handshake _) w)
        | inr (r, e) ↦
            rw (e, handle_client_handshake)
              (send_prepared-IsValid i _ _ (length-srv_pprep_handshake_reject _ r _) w)
      ]

  pub greet_new_client-IsValid :
      IsValid st → (session st i).is_connected ≡ true → IsValid (greet_new_client env st i).1
  unfolding greet_new_client
  greet_new_client-IsValid v used = go (handle_client_handshake env st i).0 refl
    where
      w : IsValid (handle_client_handshake env st i).1
      w = handle_client_handshake-IsValid v

      still : (session (handle_client_handshake env st i).1 i).is_connected ≡ true
      still = rw (handle_client_handshake-KeepsPool.pool) used

      go :
          (r : Ret)
          → (handle_client_handshake env st i).0 ≡ r
          → IsValid (greet_new_client env st i).1
      go (ret n) e = rw (e, greet_new_client) w
      go (fail n) e = rw (e, greet_new_client) (close_udp_session-IsValid w i still)

module _ (env : Env) {st : Server} (addr port : ℕ) (v : IsValid st)
    (missed : lookup_udp_sess st.pool addr port ≡ none) where
  abbrev created : Ret × Pool
  created = create_udp_sess env.allocated env.now st.pool addr port

  abbrev made : Server
  made = record st { pool = created.1 }

  creates : Creates st.max_conn env.allocated env.now st.pool addr port created
  creates = create_udp_sess_lem env.allocated env.now addr port v.pool missed

  outcome :
      (r : Ret)
      → created.0 ≡ r
      → Creates st.max_conn env.allocated env.now st.pool addr port (r, created.1)
  outcome r e =
      subst (λ x. Creates st.max_conn env.allocated env.now st.pool addr port (x, created.1)) e
        creates

  made-IsValid : IsValid made
  made-IsValid = go created.0 refl
    where
      go : (r : Ret) → created.0 ≡ r → IsValid made
      go (ret i) e =
          let t = outcome (ret i) e in
          let (lt, idle, here, others, counted, found) = t.1 in
          record {
            pool = t.0;
            members = λ j. ground (arith, here, others j, v.members j, v.members i);
            routes = λ a j clear route. ground (arith, here, others j, v.routes a j clear route);
            buffer = v.buffer;
          }
      go (fail n) e =
          let t = outcome (fail n) e in
          record {
            pool = t.0;
            members = λ j. ground (arith, t.1.1 j, v.members j);
            routes = λ a j clear route. ground (arith, t.1.1 j, v.routes a j clear route);
            buffer = v.buffer;
          }

  -- A packet from an address that has no session keeps the server valid.
  pub handle_new_client-IsValid :
      (saddr : SockAddr) → IsValid (handle_new_client env st addr port saddr).1
  unfolding handle_new_client
  handle_new_client-IsValid saddr = elim (Bool-cases (skip_session_creation st.buf)) [
    | inl e ↦ rw e v
    | inr e ↦ go created.0 e refl
  ]
    where
      addressed_IsValid : (i : ℕ) → IsValid (with_session made i (λ s. record s { addr = saddr }))
      addressed_IsValid i =
          with_session-IsValid made-IsValid i (λ s. record s { addr = saddr })
            (record {
              client = record { idx = refl; src_addr = refl; src_port = refl; is_connected = refl };
              ipv4_iff = refl;
              is_authenticated = refl;
            })

      used :
          (i : ℕ)
          → created.0 ≡ ret i
          → (session (with_session made i (λ s. record s { addr = saddr })) i).is_connected ≡ true
      used i e = ground (
        arith,
        outcome (ret i) e,
        get_or-set created.1.sess_arr i i (record (session made i) { addr = saddr })
            (reset_udp_session 0),
        get_or-out created.1.sess_arr i (reset_udp_session 0),
      )

      go :
          (r : Ret)
          → skip_session_creation st.buf ≡ false
          → created.0 ≡ r
          → IsValid (handle_new_client env st addr port saddr).1
      go (fail n) f e = rw (f, e, handle_new_client) made-IsValid
      go (ret i) f e =
          rw (f, e, handle_new_client)
            (greet_new_client-IsValid env _ i (addressed_IsValid i) (used i e))
