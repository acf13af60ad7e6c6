-- ===== src/Tests/ClientSide.antt =====
-- The theorems on the client at concrete inputs.
use teavpn.Common.{
  IfOk, ℕ, ◌+◌, ◌-◌, ◌≡◌, ◌≤◌, ◌<◌, ◌⊎◌, arith, ltb, if◌then◌else◌, true, false, some, List, [],
  ◌∷◌, replicate, length, length-replicate, take, ret,
}
use teavpn.Packet.{srv_pprep_handshake, pprep, tsrv_auth_ok, size_auth_res}
use teavpn.Client.{Client, CliCfg, arrived}
use teavpn.Client.Setup.{handshake_loop, send_close_packet, do_handshake}
use teavpn.Client.Setup.Handshake.{Accepted, do_handshake_lem}
use teavpn.Client.Event.{handle_event_udp}
use teavpn.Client.Event.Effects.{Hears, handle_event_udp_lem}
use teavpn.Client.Timer.{run_timer}
use teavpn.Client.Timer.Limits.{Asks, run_timer_lem}

-- A client that has sent nothing yet; the kernel takes every packet, and the first poll times out.
abbrev pub idle : Client
idle = record {
  stop = false;
  timeout_disconnect = false;
  need_remove_iff = false;
  loop_c = 0;
  last_t = 1000;
  iff = [];
  buf = replicate 4100 0;
  len = 0;
  polls =
      record { result = ret 0; signalled = false }
      ∷ record { result = ret 1; signalled = false }
      ∷ [];
  replies = [];
  sends = ret 4 ∷ ret 100 ∷ ret 100 ∷ ret 100 ∷ [];
  writes = ret 20 ∷ [];
  sent = [];
  written = [];
}

pub idle-room : length idle.buf ≡ 4100
idle-room = length-replicate {A = ℕ} 4100 0

-- the server's handshake
abbrev welcome : List ℕ
welcome = take 100 (srv_pprep_handshake (replicate 4100 0)).1

abbrev hopeful : Client
hopeful = record idle { replies = arrived welcome ∷ [] }

do_handshake_lem_example :
    (handshake_loop (3 + 5) 0 (send_close_packet hopeful).1 ≡ do_handshake hopeful)
    × (length (do_handshake hopeful).1.sent ≤ length hopeful.sent + 6)
    × IfOk (do_handshake hopeful).0 (Accepted hopeful (do_handshake hopeful).1.buf)
do_handshake_lem_example = do_handshake_lem 3 hopeful

abbrev config : CliCfg
config = record {
  username = 97 ∷ [];
  password = 98 ∷ [];
  dev = 116 ∷ 117 ∷ 110 ∷ [];
  override_default = false;
  server_addr = [];
  iface_up = λ iff. true;
}

-- The server lets the user in, with settings that are all zero.
abbrev admitted : Client
admitted = record idle {
  replies = arrived (take 88 (pprep (replicate 4100 0) tsrv_auth_ok size_auth_res 0).1) ∷ [];
}

-- Four bytes of data come.
abbrev fed : Client
fed = record idle { replies = arrived (2 ∷ 0 ∷ 0 ∷ 4 ∷ 69 ∷ 70 ∷ 71 ∷ 72 ∷ []) ∷ [] }

handle_event_udp_lem_example : Hears (some 1001) fed (handle_event_udp (some 1001) fed)
handle_event_udp_lem_example = handle_event_udp_lem (some 1001) fed (omega (arith, idle-room))

run_timer_lem_example :
    let d = 1100 - idle.last_t in
    let st' = run_timer 1100 idle in
    ((180 < d) × (st'.stop ≡ true) × (st'.timeout_disconnect ≡ true) × (st'.sent ≡ idle.sent))
    ⊎ ((d ≤ 180) × Asks (if ltb 36 d then 7 else 0) idle st')
run_timer_lem_example = run_timer_lem 1100 idle (omega (arith, idle-room))
