-- ===== src/Protocol/Login.antt =====
-- The authentication packets, as the other side receives them.
use teavpn.Common.{
  ℕ, suc, zero, ◌+◌, ◌≤◌, ◌≡◌, refl, sym, ◌∙◌, ap, subst, arith, Bool, false, ◌||◌, if◌then◌else◌,
  some, List, [], ◌∷◌, ◌++◌, length, get_or, set, take, drop, ret, fail, enetdown, take_over,
  drop-set_before, length-set,
}
use teavpn.Packet.{
  Buf, write, cstr, strncpy2, pprep, pkt_type, pkt_len, body, size_raw, size_auth, tcli_auth,
  cli_pprep_auth, size_if_info, size_auth_res, tsrv_auth_ok,
}
use teavpn.Packet.Fields.{length-write, drop-pprep, take-drop-write}
use teavpn.Packet.Strings.{length-strncpy2}
use teavpn.Packet.Auth.{credential, cli_pprep_auth_lem}
use teavpn.Client.Setup.{
  pkt_max_len, server_auth_res_chk, auth_looked_at, swap_len, bring_up_iface,
  wait_for_auth_response,
}
use teavpn.Server.{Server, Env, session}
use teavpn.Server.Auth.{handle_clpkt_auth}
use teavpn.Server.Auth.Admission.{acceptance, accept_auth-sent, handled_some}
use teavpn.Server.Close.{send_prepared}
use teavpn.Client.{Client, CliCfg, arrived}
use teavpn.Client.Socket.{do_recv_from, poll_loop, poll_fd_input}
use teavpn.Client.Setup.Answer.{settings, wait_accepted, bring_up_iface_lem}
use teavpn.Protocol.Carry.{datagram_of, received, length-sent, got-packet, got-body}

-- The credentials in the client's packet, as the server receives it.
module _ (src dst : Buf) (user pass : List ℕ) (here : length src ≡ 4100)
    (there : length dst ≡ 4100) where
  abbrev filled : Buf
  filled = write (write src 4 (strncpy2 user 256)) 260 (strncpy2 pass 256)

  length-filled : length filled ≡ 4100
  length-filled =
      length-write (write src 4 (strncpy2 user 256)) 260 (strncpy2 pass 256)
      ∙ (length-write src 4 (strncpy2 user 256) ∙ here)

  abbrev request : Buf
  request = received size_raw dst (datagram_of (cli_pprep_auth src user pass))

  credential-received :
      (at : ℕ)
      → at + 256 ≤ 512
      → credential request at ≡ credential (cli_pprep_auth src user pass).1 at
  unfolding cli_pprep_auth
  credential-received at h =
      ap (λ f. cstr (set f 255 0))
        (got-body size_raw tcli_auth size_auth filled dst length-filled there (omega arith)
            (omega arith) at 256 h
          ∙ ap (λ l. take 256 l)
              (sym (drop-pprep filled tcli_auth size_auth 0 (4 + at) (omega arith))))

  -- The server that receives the client's authentication packet, of 516 bytes, finds its type there,
  -- and reads the user's name and password, each cut off at 255 bytes, whatever its buffer held. The
  -- buffers are of 4100 bytes.
  pub credentials_lem :
      let datagram = datagram_of (cli_pprep_auth src user pass) in
      (length datagram ≡ 516)
      × (pkt_type request ≡ tcli_auth)
      × (credential request 0 ≡ take 255 (cstr user))
      × (credential request 256 ≡ take 255 (cstr pass))
  credentials_lem =
      let (n, t, l, u, p) = cli_pprep_auth_lem src user pass (omega arith) in
      (
        unfold cli_pprep_auth in
            length-sent 516 tcli_auth size_auth filled dst length-filled there (omega arith)
              (omega arith),
        unfold cli_pprep_auth in
            (got-packet size_raw tcli_auth size_auth filled dst length-filled there (omega arith)
              (omega arith)).0,
        credential-received 0 (omega arith) ∙ u,
        credential-received 256 (omega arith) ∙ p,
      )

-- What is written at the front of a part of a buffer replaces the front of that part.
take-drop-write_onto :
    (buf : Buf) (at m : ℕ) (bytes : List ℕ)
    → length bytes ≤ m
    → at + length bytes ≤ length buf
    → take m (drop at (write buf at bytes)) ≡ bytes ++ drop (length bytes) (take m (drop at buf))
unfolding write
take-drop-write_onto [] zero m [] h g = refl
take-drop-write_onto [] (suc at) m [] h g = refl
take-drop-write_onto [] at m (b ∷ bytes) h g = absurd (omega arith)
take-drop-write_onto (x ∷ buf) zero m [] h g = refl
take-drop-write_onto (x ∷ buf) zero zero (b ∷ bytes) h g = absurd (omega arith)
take-drop-write_onto (x ∷ buf) zero (suc m) (b ∷ bytes) h g =
    ap (λ l. b ∷ l) (take-drop-write_onto buf zero m bytes (omega arith) (omega arith))
take-drop-write_onto (x ∷ buf) (suc at) m bytes h g =
    take-drop-write_onto buf at m bytes h (omega arith)

-- The settings in the server's answer, as the client receives it.
module _ (cfg : CliCfg) (src dst : Buf) (info : List ℕ) (here : length src ≡ 4100)
    (there : length dst ≡ 4100) (size : length info ≡ 82) where
  abbrev told : Buf
  told = write src 6 (take size_if_info info)

  abbrev answer : List ℕ
  answer = datagram_of (pprep told tsrv_auth_ok size_auth_res 0)

  abbrev got : Buf
  got = received pkt_max_len dst answer

  length-told : length told ≡ 4100
  length-told = length-write src 6 (take size_if_info info) ∙ here

  server_auth_res_chk_ok :
      (buf : Buf)
      → pkt_type buf ≡ tsrv_auth_ok
      → pkt_len buf ≡ size_auth_res
      → (server_auth_res_chk 88 buf ≡ ret 0) × (auth_looked_at 88 buf ≡ swap_len buf)
  unfolding server_auth_res_chk auth_looked_at
  server_auth_res_chk_ok buf t l = rw (t, l) (refl, refl)

  got-info : body got 2 82 ≡ info
  got-info =
      got-body pkt_max_len tsrv_auth_ok size_auth_res told dst length-told there (omega arith)
        (omega arith) 2 82 (omega arith)
      ∙ (ap (λ l. body (write src 6 l) 2 82) (take_over 82 info (omega (arith, size)))
          ∙ subst (λ n. take n (drop 6 (write src 6 info)) ≡ info) size
              (take-drop-write src 6 info (omega (arith, size))))

  length-got : length got ≡ 4100
  length-got = length-write dst 0 (take pkt_max_len answer) ∙ there

  named_info :
      take 82 (drop 6 (write (swap_len got) 6 (strncpy2 cfg.dev 16)))
      ≡ strncpy2 cfg.dev 16 ++ drop 16 info
  named_info =
      let dev = strncpy2 cfg.dev 16 in
      let swapped = set got 2 (get_or got 3 0) in
      let full = length-strncpy2 cfg.dev 16 in
      take-drop-write_onto (swap_len got) 6 82 dev (omega (arith, full)) (
        omega (
          arith,
          full,
          length-got,
          length-set got 2 (get_or got 3 0),
          length-set swapped 3 (get_or got 2 0),
        ))
      ∙ ap (λ l. dev ++ l)
          (ap (λ n. drop n (take 82 (drop 6 (swap_len got)))) full
            ∙ ap (λ l. drop 16 l)
                (ap (λ l. take 82 l)
                    (drop-set_before swapped 3 6 (get_or got 2 0) (omega arith)
                      ∙ drop-set_before got 2 6 (get_or got 3 0) (omega arith))
                  ∙ got-info))

  accepted_lem :
      cfg.override_default ≡ false
      → (length answer ≡ 88)
        × (server_auth_res_chk 88 got ≡ ret 0)
        × (settings cfg (auth_looked_at 88 got) ≡ strncpy2 cfg.dev 16 ++ drop 16 info)
  accepted_lem plain =
      let (t, l, b) =
        got-packet pkt_max_len tsrv_auth_ok size_auth_res told dst length-told there (omega arith)
          (omega arith) in
      let (accepted, looked_at) = server_auth_res_chk_ok got t l in
      (
        length-sent 88 tsrv_auth_ok size_auth_res told dst length-told there (omega arith)
            (omega arith),
        accepted,
        rw (looked_at, plain) named_info,
      )

-- A client to which the datagram comes next.
abbrev pub hearing : ℕ → Bool → List ℕ → Client → Client
hearing k signalled d st = record st {
  polls = record { result = ret (suc k); signalled = signalled } ∷ st.polls;
  replies = arrived d ∷ st.replies;
}

wait_heard :
    (cfg : CliCfg) (k : ℕ) (signalled : Bool) (d : List ℕ) (st : Client)
    → length (take pkt_max_len d) ≡ 88
    → server_auth_res_chk 88 (received pkt_max_len st.buf d) ≡ ret 0
    → wait_for_auth_response cfg (hearing k signalled d st)
      ≡ bring_up_iface cfg (record st {
        stop = st.stop || signalled;
        buf = auth_looked_at 88 (received pkt_max_len st.buf d);
      })
unfolding poll_fd_input poll_loop do_recv_from
wait_heard cfg k signalled d st n c =
    wait_accepted cfg (hearing k signalled d st) (suc k) 88 refl (ap ret n) 0 c

-- The server has a packet of a session that is not authenticated, with a name and a password that the
-- user files accept, with settings of 82 bytes. If the answer is sent, it is a datagram of 88 bytes to
-- the session's address. A client that then receives this datagram from its socket brings its interface
-- up with the settings that the user files gave, the first 16 bytes of which are replaced by the name of
-- the configured device: it keeps these settings, the result is 0 and the interface is to be removed at
-- the end if bringing it up works, and the result is ENETDOWN if not. The buffers are of 4100 bytes, and
-- the client's configuration does not put the server's address in.
pub settings_lem :
    (env : Env) (cfg : CliCfg) (st : Server) (cst : Client) (i n k : ℕ) (signalled : Bool)
    (info : List ℕ)
    → length st.buf ≡ 4100
    → length cst.buf ≡ 4100
    → env.auth (credential st.buf 0) (credential st.buf 256) ≡ some info
    → length info ≡ 82
    → (session st i).is_authenticated ≡ false
    → (send_prepared st i (acceptance st info)).0 ≡ ret n
    → cfg.override_default ≡ false
    → (d : List ℕ) × ((handle_clpkt_auth env st i).1.sent
        ≡ record { dst = (session st i).addr; bytes = d } ∷ st.sent)
      × (length d ≡ 88)
      × (let (r, cst') = wait_for_auth_response cfg (hearing k signalled d cst) in
          let iff = strncpy2 cfg.dev 16 ++ drop 16 info in
          (cst'.iff ≡ iff)
          × (cst'.need_remove_iff ≡ cfg.iface_up iff || cst.need_remove_iff)
          × (r ≡ (if cfg.iface_up iff then ret 0 else fail enetdown)))
settings_lem env cfg st cst i n k signalled info here there known size fresh sent plain =
    let d = datagram_of (acceptance st info) in
    let (long, chk, same) = accepted_lem cfg st.buf cst.buf info here there size plain in
    let heard =
      wait_heard cfg k signalled d cst
        (ap length (take_over pkt_max_len d (omega (arith, long))) ∙ long) chk in
    let looked = record cst {
      stop = cst.stop || signalled;
      buf = auth_looked_at 88 (received pkt_max_len cst.buf d);
    } in
    let (iff, need, result) = bring_up_iface_lem cfg looked in
    let up = ap cfg.iface_up same in
    (
      d,
      ap (λ x. x.1.sent) (handled_some env st i info known fresh)
          ∙ accept_auth-sent env (credential st.buf 0) info st i n sent,
      long,
      (
        ap (λ x. x.1.iff) heard ∙ (iff ∙ same),
        ap (λ x. x.1.need_remove_iff) heard ∙ (need ∙ ap (λ b. b || cst.need_remove_iff) up),
        ap (λ x. x.0) heard ∙ (result ∙ ap (λ b. if b then ret 0 else fail enetdown) up),
      ),
    )
