-- ===== src/Client/Setup/Answer.antt =====
-- What one answer to the client's authentication does.
use teavpn.Common.{
  ℕ, ◌+◌, ◌||◌, ◌≤◌, ◌≡◌, ◌≢◌, refl, sym, ◌∙◌, ap, subst, arith, true, false, if◌then◌else◌,
  Bool-cases, inl, inr, List, length, Ret, ret, fail, enetdown,
}
use teavpn.Packet.{Buf, write, strncpy2, body, size_if_info}
use teavpn.Client.{Client, CliCfg}
use teavpn.Client.Socket.{do_recv_from, poll_fd_input}
use teavpn.Client.Setup.{
  pkt_max_len, server_auth_res_chk, auth_looked_at, bring_up_iface, wait_for_auth_response,
}
use teavpn.Client.Socket.Answers.{
  Among, Later, Came, Came-Later, poll_fd_input-sent, poll_fd_input-Later, do_recv_from-sent,
  do_recv_from-Later, do_recv_from-Came,
}

-- The settings that the client brings its interface up with, from the packet in the buffer.
abbrev pub settings : CliCfg → Buf → List ℕ
settings cfg buf =
    let iff = body (write buf 6 (strncpy2 cfg.dev 16)) 2 size_if_info in
    if cfg.override_default then write iff 16 (strncpy2 cfg.server_addr 16) else iff

-- The interface is up with the settings in a datagram that was to come from the server to `st`, in the
-- buffer, and that is accepted.
abbrev pub Joined : CliCfg → Client → Client → Type 0
Joined cfg st st' =
    (cfg.iface_up st'.iff ≡ true)
    × (st'.need_remove_iff ≡ true)
    × (len : ℕ) × (got : Buf) × Came st pkt_max_len len got
    × (server_auth_res_chk len got ≡ ret 0)
    × (st'.iff ≡ settings cfg (auth_looked_at len got))

-- At most `n` packets went out, and success means that the interface is up.
abbrev pub Admitted : CliCfg → ℕ → Client → Ret × Client → Type 0
Admitted cfg n st (r, st') =
    (length st'.sent ≤ length st.sent + n)
    × Later st st'
    × ((m : ℕ) → r ≡ ret m → Joined cfg st st')

-- What is said from a later state holds from an earlier one.
Joined-Later :
    (cfg : CliCfg) (st st' last : Client) → Later st st' → Joined cfg st' last → Joined cfg st last
Joined-Later cfg st st' last k (up, need, len, got, came, chk, same) =
    (up, need, len, got, Came-Later st st' pkt_max_len len got k came, chk, same)

pub Admitted-Later :
    (cfg : CliCfg) (few n : ℕ) (st st' : Client) (r : Ret × Client)
    → length st'.sent ≤ length st.sent + few
    → Later st st'
    → Admitted cfg n st' r
    → Admitted cfg (few + n) st r
Admitted-Later cfg few n st st' (r, last) h k (sent, later, good) = (
  omega arith,
  λ bytes a. k bytes (later bytes a),
  λ m e. Joined-Later cfg st st' last k (good m e),
)

pub no_ret : (e m : ℕ) → fail e ≢ ret m
no_ret e m = ground arith

chk-ret :
    (len : ℕ) (buf : Buf) (m : ℕ)
    → server_auth_res_chk len buf ≡ ret m
    → server_auth_res_chk len buf ≡ ret 0
unfolding server_auth_res_chk
chk-ret len buf m e = ground arith

module _ (cfg : CliCfg) (st : Client) where
  bring_up_iface-sent : (bring_up_iface cfg st).1.sent ≡ st.sent
  unfolding bring_up_iface
  bring_up_iface-sent = ground arith

  bring_up_iface-replies : (bring_up_iface cfg st).1.replies ≡ st.replies
  unfolding bring_up_iface
  bring_up_iface-replies = ground arith

  abbrev Up : Ret × Client → Type 0
  Up (r, st') =
      (m : ℕ)
      → r ≡ ret m
      → (cfg.iface_up st'.iff ≡ true)
        × (st'.need_remove_iff ≡ true)
        × (st'.iff ≡ settings cfg st.buf)

  abbrev configured : Client
  configured = record st { buf = write st.buf 6 (strncpy2 cfg.dev 16); iff = settings cfg st.buf }

  up_lem :
      cfg.iface_up (settings cfg st.buf) ≡ true
      → bring_up_iface cfg st ≡ (ret 0, record configured { need_remove_iff = true })
  unfolding bring_up_iface
  up_lem f = rw f refl

  down_lem :
      cfg.iface_up (settings cfg st.buf) ≡ false
      → bring_up_iface cfg st ≡ (fail enetdown, configured)
  unfolding bring_up_iface
  down_lem f = rw f refl

  -- The settings go into the configuration, and the result is the one of bringing the interface up.
  pub bring_up_iface_lem :
      let (r, st') = bring_up_iface cfg st in
      let up = cfg.iface_up (settings cfg st.buf) in
      (st'.iff ≡ settings cfg st.buf)
      × (st'.need_remove_iff ≡ up || st.need_remove_iff)
      × (r ≡ (if up then ret 0 else fail enetdown))
  bring_up_iface_lem = elim (Bool-cases (cfg.iface_up (settings cfg st.buf))) [
    | inl f ↦ rw (up_lem f, f) (refl, refl, refl)
    | inr f ↦ rw (down_lem f, f) (refl, refl, refl)
  ]

  bring_up_iface-Up : Up (bring_up_iface cfg st)
  bring_up_iface-Up = elim (Bool-cases (cfg.iface_up (settings cfg st.buf))) [
    | inl f ↦ subst Up (sym (up_lem f)) (λ m e. (f, refl, refl))
    | inr f ↦ subst Up (sym (down_lem f)) (λ m e. absurd (no_ret enetdown m e))
  ]

module _ (cfg : CliCfg) (st : Client) where
  abbrev polled : Ret × Client
  polled = poll_fd_input st

  abbrev received : Ret × Client
  received = do_recv_from polled.1 pkt_max_len

  received-sent : received.1.sent ≡ st.sent
  received-sent = do_recv_from-sent polled.1 pkt_max_len ∙ poll_fd_input-sent st

  received-Later : Later st received.1
  received-Later bytes a =
      poll_fd_input-Later st bytes (do_recv_from-Later polled.1 pkt_max_len bytes a)

  wait_unpolled : (e : ℕ) → polled.0 ≡ fail e → wait_for_auth_response cfg st ≡ (fail e, polled.1)
  unfolding wait_for_auth_response
  wait_unpolled e h = rw (h, wait_for_auth_response) refl

  wait_unread :
      (n e : ℕ)
      → polled.0 ≡ ret n
      → received.0 ≡ fail e
      → wait_for_auth_response cfg st ≡ (fail e, received.1)
  unfolding wait_for_auth_response
  wait_unread n e h g = rw (h, wait_for_auth_response, g) refl

  module _ (n len : ℕ) (h : polled.0 ≡ ret n) (g : received.0 ≡ ret len) where
    abbrev checked : Client
    checked = record received.1 { buf = auth_looked_at len received.1.buf }

    wait_refused :
        (e : ℕ)
        → server_auth_res_chk len received.1.buf ≡ fail e
        → wait_for_auth_response cfg st ≡ (fail e, checked)
    unfolding wait_for_auth_response
    wait_refused e f = rw (h, wait_for_auth_response, g, f) refl

    pub wait_accepted :
        (m : ℕ)
        → server_auth_res_chk len received.1.buf ≡ ret m
        → wait_for_auth_response cfg st ≡ bring_up_iface cfg checked
    unfolding wait_for_auth_response
    wait_accepted m f = rw (h, wait_for_auth_response, g, f) refl

  pub wait_lem : Admitted cfg 0 st (wait_for_auth_response cfg st)
  wait_lem = go polled.0 refl
    where
      came : (n len : ℕ) → received.0 ≡ ret len → Came st pkt_max_len len received.1.buf
      came n len g =
          Came-Later st polled.1 pkt_max_len len received.1.buf (poll_fd_input-Later st)
            (do_recv_from-Came polled.1 pkt_max_len len g)

      quiet : length received.1.sent ≤ length st.sent + 0
      quiet = omega (arith, ap length received-sent)

      checked_lem :
          (n len : ℕ) (h : polled.0 ≡ ret n) (g : received.0 ≡ ret len) (r : Ret)
          → server_auth_res_chk len received.1.buf ≡ r
          → Admitted cfg 0 st (wait_for_auth_response cfg st)
      checked_lem n len h g (fail e) f =
          subst (Admitted cfg 0 st) (sym (wait_refused n len h g e f))
            (quiet, received-Later, λ m k. absurd (no_ret e m k))
      checked_lem n len h g (ret k) f =
          subst (Admitted cfg 0 st) (sym (wait_accepted n len h g k f)) (
            omega (arith, quiet, ap length (bring_up_iface-sent cfg (checked n len h g))),
            λ bytes a.
                received-Later bytes
                  (subst (Among bytes) (bring_up_iface-replies cfg (checked n len h g)) a),
            λ m e.
                let (up, need, same) = bring_up_iface-Up cfg (checked n len h g) m e in
                (up, need, len, received.1.buf, came n len g, chk-ret len received.1.buf k f, same),
          )

      got :
          (n : ℕ) (r : Ret)
          → polled.0 ≡ ret n
          → received.0 ≡ r
          → Admitted cfg 0 st (wait_for_auth_response cfg st)
      got n (fail e) h g =
          subst (Admitted cfg 0 st) (sym (wait_unread n e h g))
            (quiet, received-Later, λ m f. absurd (no_ret e m f))
      got n (ret len) h g = checked_lem n len h g (server_auth_res_chk len received.1.buf) refl

      go : (r : Ret) → polled.0 ≡ r → Admitted cfg 0 st (wait_for_auth_response cfg st)
      go (fail e) h = subst (Admitted cfg 0 st) (sym (wait_unpolled e h)) (
        omega (arith, ap length (poll_fd_input-sent st)),
        poll_fd_input-Later st,
        λ m f. absurd (no_ret e m f),
      )
      go (ret n) h = got n received.0 h refl
