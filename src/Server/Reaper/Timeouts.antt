-- ===== src/Server/Reaper/Timeouts.antt =====
-- What a scan for stale sessions leaves.
use teavpn.Common.{
  ℕ, zero, suc, ◌+◌, ◌-◌, ◌≡◌, ◌≢◌, refl, sym, ◌∙◌, arith, Bool, true, false, ◌&&◌, ◌==◌, ==_iff,
  ltb, leb, if◌then◌else◌, Bool-cases, inl, inr,
}
use teavpn.Packet.{pprep, tsrv_reqsync}
use teavpn.Packet.Sizes.{length-pprep}
use teavpn.Session.{UdpSess, reset_udp_session}
use teavpn.Session.Delete.{used_lt, free_room}
use teavpn.Server.{Server, session}
use teavpn.Server.Close.{send_prepared, close_udp_session}
use teavpn.Server.Reaper.{
  timeout_auth, timeout_no_auth, send_reqsyncs, reqsync_count, zr_chk_auth, zr_chk_no_auth,
  scan_session, scan_from, zombie_reaper_do_scan,
}
use teavpn.Server.Valid.{IsValid}
use teavpn.Server.Valid.Close.{
  buf-IsValid, send_prepared-KeepsPool, send_prepared-IsValid, close_udp_session_lem,
  max_conn-close,
}

-- The limit for a session, and whether it has been idle for longer.
abbrev pub is_stale : ℕ → UdpSess → Bool
is_stale now s =
    s.is_connected
    && ltb (if s.is_authenticated then timeout_auth else timeout_no_auth) (now - s.last_act)

reqsyncs-IsValid : (n : ℕ) {st : Server} (i : ℕ) → IsValid st → IsValid (send_reqsyncs n st i)
unfolding send_reqsyncs
reqsyncs-IsValid zero i v = v
reqsyncs-IsValid (suc n) {st} i v =
    reqsyncs-IsValid n i (send_prepared-IsValid i _ _ (length-pprep st.buf tsrv_reqsync 0 0) v)

reqsyncs-pool :
    (n : ℕ) (st : Server) (i : ℕ)
    → ((send_reqsyncs n st i).pool ≡ st.pool) × ((send_reqsyncs n st i).max_conn ≡ st.max_conn)
unfolding send_reqsyncs
reqsyncs-pool zero st i = (refl, refl)
reqsyncs-pool (suc n) st i =
    let k = send_prepared-KeepsPool st i (pprep st.buf tsrv_reqsync 0 0) in
    ground (arith, reqsyncs-pool n (send_prepared st i (pprep st.buf tsrv_reqsync 0 0)).1 i, k)

-- One session is looked at: it is reset if it is stale, and every other stays as it is.
record Scanned (now i : ℕ) (st st' : Server) : Type 0 where
  valid : IsValid st'
  same : st'.max_conn ≡ st.max_conn
  here : session st' i ≡ (if is_stale now (session st i) then reset_udp_session i else session st i)
  others : (j : ℕ) → j ≢ i → session st' j ≡ session st j

closed-Scanned :
    (now i : ℕ) {st : Server}
    → IsValid st
    → is_stale now (session st i) ≡ true
    → Scanned now i st (close_udp_session st i).1
closed-Scanned now i {st} v stale =
    let used : (session st i).is_connected ≡ true = ground arith in
    let t = close_udp_session_lem v i used in
    record { valid = t.1; same = max_conn-close st i; here = rw stale t.2; others = t.3 }

kept-Scanned :
    (now i n : ℕ) {st : Server}
    → IsValid st
    → is_stale now (session st i) ≡ false
    → Scanned now i st (send_reqsyncs n st i)
kept-Scanned now i n {st} v fresh =
    let (pool, same) = reqsyncs-pool n st i in
    record {
      valid = reqsyncs-IsValid n i v;
      same = same;
      here = rw (fresh, pool);
      others = λ j ne. rw pool;
    }

-- how many sync requests a session gets
abbrev requests : ℕ → UdpSess → ℕ
requests now s =
    if s.is_connected && s.is_authenticated then reqsync_count (now - s.last_act) else 0

scan_session_lem :
    (now i : ℕ) (st : Server)
    → scan_session now st i ≡ (
        if is_stale now (session st i)
        then (close_udp_session st i).1
        else send_reqsyncs (requests now (session st i)) st i)
unfolding scan_session zr_chk_auth zr_chk_no_auth
scan_session_lem now i st = ground (arith, none_sent st i)
  where
    none_sent : (st : Server) (i : ℕ) → send_reqsyncs 0 st i ≡ st
    none_sent st i = unfold send_reqsyncs in refl

scan_session-Scanned :
    (now i : ℕ) {st : Server} → IsValid st → Scanned now i st (scan_session now st i)
scan_session-Scanned now i {st} v = elim (Bool-cases (is_stale now (session st i))) [
  | inl e ↦ rw (scan_session_lem, e) (closed-Scanned now i v e)
  | inr e ↦ rw (scan_session_lem, e) (kept-Scanned now i (requests now (session st i)) v e)
]

-- The sessions from `i` on, `rounds` of them, are looked at.
record Swept (clock : ℕ → ℕ) (i rounds : ℕ) (st st' : Server) : Type 0 where
  valid : IsValid st'
  same : st'.max_conn ≡ st.max_conn
  swept :
      (j : ℕ)
      → session st' j ≡ (
          if leb i j && ltb j (i + rounds) && is_stale (clock j) (session st j)
          then reset_udp_session j
          else session st j)

scan_from-Swept :
    (clock : ℕ → ℕ) (rounds i : ℕ) {st : Server}
    → IsValid st
    → Swept clock i rounds st (scan_from rounds i clock st)
unfolding scan_from
scan_from-Swept clock zero i {st} v = record { valid = v; same = refl; swept = λ j. ground arith }
scan_from-Swept clock (suc rounds) i {st} v =
    let one = scan_session-Scanned (clock i) i v in
    let rest = scan_from-Swept clock rounds (i + 1) one.valid in
    record {
      valid = rest.valid;
      same = rest.same ∙ one.same;
      swept = λ j. ground (arith, rest.swept j, one.here, one.others j);
    }

-- After a scan the server is valid. Exactly the stale sessions were ended: one that is in use and has
-- been idle, at the time read for it, for more than 180 seconds if it is authenticated, or 30 if it is
-- not, is reset; every other session is as it was.
pub zombie_reaper_do_scan_lem :
    (clock : ℕ → ℕ) {st : Server}
    → IsValid st
    → let st' = zombie_reaper_do_scan clock st in
      IsValid st'
      × ((j : ℕ)
          → session st' j
            ≡ (if is_stale (clock j) (session st j) then reset_udp_session j else session st j))
unfolding zombie_reaper_do_scan
zombie_reaper_do_scan_lem clock {st} v = elim (Bool-cases (st.pool.n_on_sess == 0)) [
  | inl e ↦ rw e (
    v,
    λ j. elim (Bool-cases (is_stale (clock j) (session st j))) [
      | inl f ↦ absurd (
          omega (
            arith,
            free_room v.pool j (ground arith),
            v.pool.counted,
            (==_iff st.pool.n_on_sess 0).0 e,
          ))
      | inr f ↦ rw f
    ],
  )
  | inr e ↦ rw e (
      let t = scan_from-Swept clock st.max_conn 0 v in
      (
        buf-IsValid st.buf (v.buffer ∙ sym t.valid.buffer) t.valid,
        λ j. elim (Bool-cases (is_stale (clock j) (session st j))) [
          | inl f ↦ ground (arith, t.swept j, used_lt v.pool j (ground arith))
          | inr f ↦ ground (arith, t.swept j)
        ],
      ))
]
