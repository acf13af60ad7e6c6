-- ===== src/Client/Timer/Limits.antt =====
-- What the client's timer does for a silence of the server.
use teavpn.Common.{
  ℕ, zero, suc, ◌+◌, ◌-◌, ◌≤◌, ◌<◌, ◌≡◌, ◌⊎◌, refl, ◌∙◌, ap, arith, true, false, List, [], ◌∷◌,
  ◌++◌, replicate, length, ltb, if◌then◌else◌, Bool-cases, inl, inr, Ret, ret, fail,
}
use teavpn.Packet.{pprep, tcli_reqsync}
use teavpn.Client.{Client}
use teavpn.Client.Socket.{do_send_to, send_packet}
use teavpn.Client.Event.Effects.{empty_packet}
use teavpn.Client.Timer.{udp_sess_timeout, send_reqsyncs, reqsync_count, run_timer}

-- the packet that asks the server for a sign of life
abbrev pub reqsync : List ℕ
reqsync = tcli_reqsync ∷ 0 ∷ 0 ∷ 0 ∷ []

-- At most `n` sync requests went out, and nothing else changed.
abbrev pub Asks : ℕ → Client → Client → Type 0
Asks n st st' =
    (k : ℕ) × (k ≤ n)
    × (st'.sent ≡ replicate k reqsync ++ st.sent)
    × (st'.stop ≡ st.stop)
    × (st'.timeout_disconnect ≡ st.timeout_disconnect)
    × (st'.buf ≡ st.buf)

abbrev asked_once : Client → Client
asked_once st = record (send_packet st (pprep st.buf tcli_reqsync 0 0)).1 { buf = st.buf }

asked_once-Asks : (st : Client) → 4 ≤ length st.buf → Asks 1 st (asked_once st)
unfolding send_packet do_send_to pprep
asked_once-Asks st h = go st.sends refl
  where
    go : (answers : List Ret) → st.sends ≡ answers → Asks 1 st (asked_once st)
    go [] e = rw (send_packet, e) (0, omega arith, refl, refl, refl, refl)
    go (fail n ∷ rest) e = rw (send_packet, e) (0, omega arith, refl, refl, refl, refl)
    go (ret n ∷ rest) e =
        rw (send_packet, e)
          (
            1,
            omega arith,
            ap (λ p. p ∷ st.sent) (empty_packet st.buf tcli_reqsync h),
            refl,
            refl,
            refl,
          )

replicate-add :
    (k j : ℕ) (xs : List (List ℕ))
    → replicate k reqsync ++ (replicate j reqsync ++ xs) ≡ replicate (k + j) reqsync ++ xs
replicate-add zero j xs = let e : 0 + j ≡ j = omega arith in rw e refl
replicate-add (suc k) j xs =
    let e : suc k + j ≡ suc (k + j) = omega arith in
    rw e (ap (λ l. reqsync ∷ l) (replicate-add k j xs))

send_reqsyncs-Asks : (n : ℕ) (st : Client) → 4 ≤ length st.buf → Asks n st (send_reqsyncs n st)
unfolding send_reqsyncs
send_reqsyncs-Asks zero st h = (0, omega arith, refl, refl, refl, refl)
send_reqsyncs-Asks (suc n) st h =
    let (j, one, sent, stop, timeout, buf) = asked_once-Asks st h in
    let (k, few, sent', stop', timeout', buf') = send_reqsyncs-Asks n (asked_once st) h in
    (
      k + j,
      omega arith,
      sent' ∙ (ap (λ l. replicate k reqsync ++ l) sent ∙ replicate-add k j st.sent),
      stop' ∙ stop,
      timeout' ∙ timeout,
      buf' ∙ buf,
    )

reqsync_count-le : (d : ℕ) → reqsync_count d ≤ (if ltb 36 d then 7 else 0)
unfolding reqsync_count
reqsync_count-le d = ground arith

Asks-le : (n m : ℕ) (st st' : Client) → n ≤ m → Asks n st st' → Asks m st st'
Asks-le n m st st' h (k, few, sent, stop, timeout, buf) = (k, omega arith, sent, stop, timeout, buf)

over : (d : ℕ) → ltb 180 d ≡ true → 180 < d
over d h = ground arith

within : (d : ℕ) → ltb 180 d ≡ false → d ≤ 180
within d h = ground arith

-- A silence of the server of more than 180 seconds makes the client stop, as disconnected by a timeout,
-- and sends nothing. A shorter one stops nothing: at most 7 sync requests go out, each whole, none if
-- it is of at most 36 seconds, and the thread's buffer is as it was.
pub run_timer_lem :
    (now : ℕ) (st : Client)
    → 4 ≤ length st.buf
    → let d = now - st.last_t in
      let st' = run_timer now st in
      ((180 < d) × (st'.stop ≡ true) × (st'.timeout_disconnect ≡ true) × (st'.sent ≡ st.sent))
      ⊎ ((d ≤ 180) × Asks (if ltb 36 d then 7 else 0) st st')
unfolding run_timer
run_timer_lem now st h =
    let d = now - st.last_t in
    elim (Bool-cases (ltb udp_sess_timeout d)) [
      | inl e ↦ rw e (inl (over d e, refl, refl, refl))
      | inr e ↦ rw e (
          inr (
            within d e,
            Asks-le (reqsync_count d) (if ltb 36 d then 7 else 0) st
                (send_reqsyncs (reqsync_count d) st) (reqsync_count-le d)
                (send_reqsyncs-Asks (reqsync_count d) st h),
          ))
    ]
