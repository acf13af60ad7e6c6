-- ===== src/Server/Handshake/Greeting.antt =====
-- What becomes of a new session, by the handshake and by its answer.
use teavpn.Common.{
  ℕ, true, false, ◌≡◌, ◌≢◌, refl, sym, subst, ap, ◌∙◌, arith, ◌==◌, ==_iff, Bool-cases, Option,
  none, some, Ret, ret, fail, ebadmsg, ◌∷◌, take, Option-cases, inl, inr,
}
use teavpn.Packet.{pprep, srv_pprep_handshake}
use teavpn.Session.{sess_at, reset_udp_session}
use teavpn.Server.{Server, Env, Datagram, session}
use teavpn.Server.Send.{status}
use teavpn.Server.Send.Retry.{send_to_client-sent}
use teavpn.Server.Close.{send_prepared, close_udp_session}
use teavpn.Server.Handshake.{
  handshake_verdict, handshake_checked, send_handshake, handle_client_handshake, greet_new_client,
}
use teavpn.Server.Valid.{IsValid}
use teavpn.Server.Valid.Auth.{Quiet, send_prepared-ne}
use teavpn.Server.Valid.Close.{close_udp_session_lem}
use teavpn.Server.Valid.New.{handle_client_handshake-KeepsPool, handle_client_handshake-IsValid}

-- The server with the handshake looked at, and what it answers to one that it accepts.
abbrev pub looked_at : Server → Server
looked_at st = record st { buf = handshake_checked st.len st.buf }

abbrev pub welcome : Server → ℕ → Ret × Server
welcome st i =
    let checked = looked_at st in send_prepared checked i (srv_pprep_handshake checked.buf)

abbrev pub greeting : Server → ℕ → Datagram
greeting st i =
    let (n, buf) = srv_pprep_handshake (looked_at st).buf in
    record { dst = (session st i).addr; bytes = take n buf }

-- What an accepted handshake leads to, for the result of sending the answer.
abbrev pub Welcomes : Server → ℕ → Ret → Ret × Server → Type 0
Welcomes st i told (r, st') = elim told [
  | ret _ ↦ (r ≡ ret 0) × (st'.sent ≡ greeting st i ∷ st.sent) × (session st' i ≡ session st i)
  | fail e ↦ (r ≡ fail e) × (session st' i ≡ reset_udp_session i)
]

-- What the greeting leads to, for the verdict.
abbrev pub Greets : Server → ℕ → Option ℕ → Ret × Server → Type 0
Greets st i verdict (r, st') =
    elim verdict [
      | some reason ↦ (r ≡ ret 0) × (session st' i ≡ reset_udp_session i)
      | none ↦ Welcomes st i (welcome st i).0 (r, st')
    ]
    × ((j : ℕ) → j ≢ i → session st' j ≡ session st j)

module _ (env : Env) {st : Server} (v : IsValid st) (i : ℕ)
    (used : (session st i).is_connected ≡ true) where
  abbrev answered : Ret × Server
  answered = handle_client_handshake env st i

  closed :
      (session (close_udp_session answered.1 i).1 i ≡ reset_udp_session i)
      × ((j : ℕ) → j ≢ i → session (close_udp_session answered.1 i).1 j ≡ session st j)
  closed =
      let k = handle_client_handshake-KeepsPool env st i in
      let (done, valid, gone, others, counted, found, routes) =
        close_udp_session_lem (handle_client_handshake-IsValid env st i v) i (rw k.pool used) in
      (gone, λ j ne. ground (arith, others j ne, k))

  reject_lem :
      (reason : ℕ) → handshake_verdict st.len st.buf ≡ some reason → answered.0 ≡ fail ebadmsg
  unfolding handle_client_handshake
  reject_lem reason e = rw (e, handle_client_handshake) refl

  accept_lem :
      handshake_verdict st.len st.buf ≡ none
      → answered ≡ (status (welcome st i).0, (welcome st i).1)
  unfolding handle_client_handshake send_handshake
  accept_lem e = rw (e, handle_client_handshake) refl

  accept-ne : Quiet st.udp_answers → (welcome st i).0 ≢ fail ebadmsg
  accept-ne q =
      let (n, buf) = srv_pprep_handshake (looked_at st).buf in
      send_prepared-ne (looked_at st) i n buf q

  told-sent : (n : ℕ) → (welcome st i).0 ≡ ret n → (welcome st i).1.sent ≡ greeting st i ∷ st.sent
  unfolding srv_pprep_handshake pprep
  told-sent n e =
      let (k, buf) = srv_pprep_handshake (looked_at st).buf in
      send_to_client-sent (record (looked_at st) { buf = buf }) i k n (omega arith) e

  greeted_ret : (n : ℕ) → answered.0 ≡ ret n → greet_new_client env st i ≡ (ret n, answered.1)
  unfolding greet_new_client
  greeted_ret n e = rw (e, greet_new_client) refl

  greeted_fail :
      (n : ℕ)
      → answered.0 ≡ fail n
      → (n == ebadmsg) ≡ false
      → greet_new_client env st i ≡ (fail n, (close_udp_session answered.1 i).1)
  unfolding greet_new_client
  greeted_fail n e f = rw (e, f, greet_new_client) refl

  abbrev Settled : Ret → Ret × Server → Type 0
  Settled told (r, st') =
      Welcomes st i told (r, st') × ((j : ℕ) → j ≢ i → session st' j ≡ session st j)

  accepted :
      handshake_verdict st.len st.buf ≡ none
      → Quiet st.udp_answers
      → Settled (welcome st i).0 (greet_new_client env st i)
  accepted v q = go (welcome st i).0 refl
    where
      go : (r : Ret) → (welcome st i).0 ≡ r → Settled (welcome st i).0 (greet_new_client env st i)
      go (ret n) e =
          let a = accept_lem v in
          let same = (handle_client_handshake-KeepsPool env st i).pool in
          subst (λ t. Settled t (greet_new_client env st i)) (sym e)
            (subst (Settled (ret n)) (sym (greeted_ret 0 (ap (λ x. x.0) a ∙ ap status e))) (
              (refl, ap (λ x. x.1.sent) a ∙ told-sent n e, ap (λ p. sess_at p.sess_arr i) same),
              λ j ne. ap (λ p. sess_at p.sess_arr j) same,
            ))
      go (fail n) e =
          let a = ap (λ x. x.0) (accept_lem v) ∙ ap status e in
          subst (λ t. Settled t (greet_new_client env st i)) (sym e)
            (elim (Bool-cases (n == ebadmsg)) [
              | inl f ↦ absurd (accept-ne q (e ∙ ap fail ((==_iff n ebadmsg).0 f)))
              | inr f ↦
                  subst (Settled (fail n)) (sym (greeted_fail n a f)) ((refl, closed.0), closed.1)
            ])

  -- A session whose handshake is rejected is closed, without an error for the server. For one whose
  -- handshake is accepted, if the sending of the answer succeeds, the result is 0, the answer is the
  -- newest datagram to the session's address, and the session stays as it was; if the sending fails,
  -- its error is the result, and the session is closed. No other session changes. sendto() must not
  -- answer EBADMSG.
  pub greet_new_client_lem :
      Quiet st.udp_answers
      → Greets st i (handshake_verdict st.len st.buf) (greet_new_client env st i)
  unfolding greet_new_client
  greet_new_client_lem q = elim (Option-cases (handshake_verdict st.len st.buf)) [
    | inl e ↦ rw e (accepted e q)
    | inr (reason, e) ↦ rw (e, greet_new_client, reject_lem reason e) ((refl, closed.0), closed.1)
  ]
