-- ===== src/Server/Reach.antt =====
-- The runs of the server: the set-up of teavpn2_server_udp_run() in
-- src/teavpn2/server/linux/udp.c, then events of udp_epoll.c in any order. An event runs to its end
-- before the next.
use teavpn.Common.{
  ℕ, ◌<◌, ◌^◌, ◌≡◌, refl, sym, ap, ◌∙◌, subst, arith, Bool, false, Option, none, some, List, [],
  replicate, length-replicate, Ret, ret, fail, enoent, ◌≢◌,
}
use teavpn.Route.{get_ipv4_route_map}
use teavpn.Session.{Pool, sess_at}
use teavpn.Session.Init.{init_pool, blank}
use teavpn.Session.Valid as PoolValid
use teavpn.Session.Init.Fresh.{init_pool-IsValid}
use teavpn.Server.{Server, Env, Attempt}
use teavpn.Server.Event.{Received}
use teavpn.Server.Receive.{handle_event_from_udp}
use teavpn.Server.Tun.{Read, handle_event_from_tun}
use teavpn.Server.Tun.Frame.{handle_event_from_tun-IsValid}
use teavpn.Server.Reaper.{zombie_reaper_do_scan}
use teavpn.Server.Reaper.Timeouts.{zombie_reaper_do_scan_lem}
use teavpn.Server.Valid.{IsValid}
use teavpn.Server.Valid.Auth.{Quiet}
use teavpn.Server.Valid.Event.{handle_event_from_udp-IsValid}

-- The server once the sessions are set up, with the zeroed table of `init_ipv4_map` and a zeroed packet
-- buffer.
abbrev pub started : ℕ → Pool → Server
started max_conn pool = record {
  stop = false;
  in_emergency = false;
  pool = pool;
  ipv4_map = λ a b. 0;
  max_conn = max_conn;
  buf = replicate 4100 0;
  len = 0;
  udp_answers = [];
  tun_answers = [];
  sent = [];
  written = [];
}

-- One step: the kernel's next answers and the stop signal, the stop signal alone, an event on the UDP socket or on the TUN
-- device, or a scan of the zombie reaper.
pub data Step : Server → Server → Type 0 where
  kernel :
      (st : Server) (stop : Bool) (udp tun : List Attempt)
      → Quiet udp
      → Step st (record st { stop = stop; udp_answers = udp; tun_answers = tun })
  signal : (st : Server) (stop : Bool) → Step st (record st { stop = stop })
  udp_event :
      (env : Env) (st : Server) (what : Received)
      → Quiet st.udp_answers
      → Step st (handle_event_from_udp env st what).1
  tun_event : (st : Server) (what : Read) → Step st (handle_event_from_tun st what).1
  scan : (clock : ℕ → ℕ) (st : Server) → Step st (zombie_reaper_do_scan clock st)

-- The servers that a run can reach.
pub data Reach : Server → Type 0 where
  start :
      (debug : Bool) (max_conn : ℕ) (pool : Pool)
      → 0 < max_conn
      → max_conn < 2 ^ 16
      → init_pool debug none none none max_conn ≡ some (ret 0, pool)
      → Reach (started max_conn pool)
  next : {st st' : Server} → Reach st → Step st st' → Reach st'

abbrev pub the_pool : Option (Ret × Pool) → Pool
the_pool none = blank
the_pool (some (r, pool)) = pool

pub no_route : (a : ℕ) → get_ipv4_route_map (λ a b. 0) a ≡ fail enoent
unfolding get_ipv4_route_map
no_route a = refl

pub no_ret : {r : Ret} (i : ℕ) → r ≡ fail enoent → r ≢ ret i
no_ret i e = ground arith

pub started-IsValid :
    (debug : Bool) (max_conn : ℕ) (pool : Pool)
    → 0 < max_conn
    → max_conn < 2 ^ 16
    → init_pool debug none none none max_conn ≡ some (ret 0, pool)
    → IsValid (started max_conn pool)
started-IsValid debug max_conn pool room small run =
    let (fresh, made, v, counted, unknown, missed) = init_pool-IsValid debug max_conn room small in
    let same : fresh ≡ pool = ap the_pool (sym made ∙ run) in
    record {
      pool = subst (PoolValid.IsValid max_conn) same v;
      members =
          λ i. ground (arith, unknown i, ap (λ p. (sess_at p.sess_arr i).is_authenticated) same);
      routes = λ a i clear route. absurd (no_ret i (no_route a) route);
      buffer = length-replicate {A = ℕ} 4100 0;
    }

Step-IsValid : {st st' : Server} → Step st st' → IsValid st → IsValid st'
Step-IsValid (kernel st stop udp tun quiet) v = record {
  pool = v.pool;
  members = v.members;
  routes = v.routes;
  buffer = v.buffer;
}
Step-IsValid (signal st stop) v = record {
  pool = v.pool;
  members = v.members;
  routes = v.routes;
  buffer = v.buffer;
}
Step-IsValid (udp_event env st what quiet) v = handle_event_from_udp-IsValid env what v quiet
Step-IsValid (tun_event st what) v = handle_event_from_tun-IsValid what v
Step-IsValid (scan clock st) v = (zombie_reaper_do_scan_lem clock v).0

-- Every server that a run reaches is valid: after the set-up for 1 to 65535 sessions, with memory and
-- mutexes at hand, and any sequence of signals, events on the UDP socket, events on the TUN device and
-- scans,
-- whatever the network, the device, the clock and the user files answer, the session pool is
-- consistent, only sessions in use are authenticated, and every route (but one at the place of the
-- address 0) leads to an authenticated session with that address. sendto() must not answer EBADMSG.
pub Reach-IsValid : {st : Server} → Reach st → IsValid st
Reach-IsValid (start debug max_conn pool room small run) =
    started-IsValid debug max_conn pool room small run
Reach-IsValid (next r s) = Step-IsValid s (Reach-IsValid r)
