-- ===== src/Server/Loop/Runs.antt =====
-- The event loop as a run of the server.
use teavpn.Common.{
  ◌⊎◌, inl, inr, Bool-cases, false, zero, suc, ◌≡◌, refl, true, ◌||◌, if_intro, List, [], ◌∷◌, Ret,
  ret, fail,
}
use teavpn.Server.{Server}
use teavpn.Server.Valid.{IsValid}
use teavpn.Server.Valid.Auth.{Quiet}
use teavpn.Server.Reach.{Reach, Reach-IsValid, next, kernel, signal, udp_event, tun_event}
use teavpn.Server.Loop.{
  Source, on_udp, on_tun, Event, prepared, after, handle_event, handle_events, Waited, interrupted,
  events, run_round, run_event_loop,
}

abbrev pub AllQuiet : List Event → Type 0
AllQuiet [] = Unit {0}
AllQuiet (e ∷ es) = Quiet e.udp_answers × AllQuiet es

-- sendto() answers EBADMSG in none of the rounds.
abbrev pub QuietRounds : List Waited → Type 0
QuietRounds [] = Unit {0}
QuietRounds (interrupted n signalled ∷ ws) = QuietRounds ws
QuietRounds (events es ∷ ws) = AllQuiet es × QuietRounds ws

handle_event-Reach :
    {st : Server} (e : Event) → Reach st → Quiet e.udp_answers → Reach (handle_event st e).1
unfolding handle_event
handle_event-Reach {st} e r q =
    go e.source (next r (kernel st (st.stop || e.signalled) e.udp_answers e.tun_answers q))
  where
    go : (s : Source) → Reach (prepared st e) → Reach (handle_event st (record e { source = s })).1
    go (on_udp env what) k = next k (udp_event env (prepared st e) what q)
    go (on_tun what) k = next k (tun_event (prepared st e) what)

after-Reach :
    (r : Ret) {st : Server} (rest : Ret × Server)
    → Reach st
    → Reach rest.1
    → Reach (after r st rest).1
after-Reach (ret zero) rest k l = l
after-Reach (ret (suc n)) rest k l = k
after-Reach (fail n) rest k l = k

handle_events-Reach :
    (es : List Event) {st : Server} → Reach st → AllQuiet es → Reach (handle_events es st).1
unfolding handle_events
handle_events-Reach [] r q = r
handle_events-Reach (e ∷ es) {st} r q =
    let one = handle_event-Reach e r q.0 in
    after-Reach (handle_event st e).0 (handle_events es (handle_event st e).1) one
      (handle_events-Reach es one q.1)

run_round-Reach :
    (w : Waited) {st : Server} → Reach st → QuietRounds (w ∷ []) → Reach (run_round st w).1
unfolding run_round
run_round-Reach (interrupted n signalled) {st} r q = next r (signal st (st.stop || signalled))
run_round-Reach (events es) r q = handle_events-Reach es r q.0

one_round : (w : Waited) (ws : List Waited) → QuietRounds (w ∷ ws) → QuietRounds (w ∷ [])
one_round (interrupted n signalled) ws q = tt
one_round (events es) ws q = (q.0, tt)

later_rounds : (w : Waited) (ws : List Waited) → QuietRounds (w ∷ ws) → QuietRounds ws
later_rounds (interrupted n signalled) ws q = q
later_rounds (events es) ws q = q.1

stopped : (ws : List Waited) (st : Server) → st.stop ≡ true → run_event_loop ws st ≡ (ret 0, st)
unfolding run_event_loop
stopped [] st h = refl
stopped (w ∷ ws) st h = rw (h, run_event_loop) refl

run_event_loop-Reach :
    (ws : List Waited) {st : Server} → Reach st → QuietRounds ws → Reach (run_event_loop ws st).1
unfolding run_event_loop
run_event_loop-Reach [] r q = r
run_event_loop-Reach (w ∷ ws) {st} r q =
    let one = run_round-Reach w r (one_round w ws q) in
    if_intro (λ (x : Ret × Server). Reach x.1) st.stop r
      (after-Reach (run_round st w).0 (run_event_loop ws (run_round st w).1) one
        (run_event_loop-Reach ws one (later_rounds w ws q)))

-- The event loop is a run of the server: from a server that a run reaches, whatever epoll_wait()
-- reports, in whatever rounds, with whatever answers of the kernel and signals, it ends in a server
-- that a run reaches, so in a valid one. Once `stop` is set it handles no event and returns 0. sendto()
-- must not answer EBADMSG.
pub run_event_loop_lem :
    (ws : List Waited) {st : Server}
    → Reach st
    → QuietRounds ws
    → Reach (run_event_loop ws st).1
      × IsValid (run_event_loop ws st).1
      × ((st.stop ≡ false) ⊎ (run_event_loop ws st ≡ (ret 0, st)))
run_event_loop_lem ws {st} r q =
    let k = run_event_loop-Reach ws r q in
    (
      k,
      Reach-IsValid k,
      elim (Bool-cases st.stop) [ inl e ↦ inr (stopped ws st e) | inr e ↦ inl e ],
    )
