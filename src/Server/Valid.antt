-- ===== src/Server/Valid.antt =====
-- The invariant of the server.
pub mod Close
pub mod New
pub mod Auth
pub mod Event
use teavpn.Common.{
  ℕ, suc, ◌+◌, ◌≤◌, ◌<◌, ◌≡◌, ◌≢◌, refl, ◌∙◌, sym, ap, subst, arith, Bool, true, false, length, set,
  length-set, get_or-set, get_or-out, ◌==◌, if◌then◌else◌, same_place, Ret, ret, List,
}
use teavpn.Packet.{Buf}
use teavpn.Route.{RouteMap, get_ipv4_route_map}
use teavpn.Session.{UdpSess, Pool, sess_at, reset_udp_session}
use teavpn.Session.Valid as PoolValid
use teavpn.Session.Valid.{in_use}
use teavpn.Session.Update.{SameClient, changed-IsValid}
use teavpn.Server.{Server, session, with_session}
use teavpn.Server.Send.Frame.{Keeps}

-- Every route leads to a session in use that is authenticated and has a private address of that
-- place. The place of the address 0 is left out: a session with that address is not unrouted.
abbrev pub Routes : RouteMap → List UdpSess → Type 0
Routes m arr =
    (a i : ℕ)
    → same_place 0 a ≡ false
    → get_ipv4_route_map m a ≡ ret i
    → ((sess_at arr i).is_connected ≡ true)
      × ((sess_at arr i).is_authenticated ≡ true)
      × (same_place (sess_at arr i).ipv4_iff a ≡ true)

-- The pool is consistent, only a session in use is authenticated, every route leads to an
-- authenticated session, and the packet buffer has its size.
pub record IsValid (st : Server) : Type 0 where
  pub pool : PoolValid.IsValid st.max_conn st.pool
  pub members :
      (i : ℕ) → (session st i).is_authenticated ≡ true → (session st i).is_connected ≡ true
  pub routes : Routes st.ipv4_map st.pool.sess_arr
  pub buffer : length st.buf ≡ 4100

-- The same sessions, routes, limit and packet buffer.
pub record Alike (st st' : Server) : Type 0 where
  pub pool : st'.pool ≡ st.pool
  pub ipv4_map : st'.ipv4_map ≡ st.ipv4_map
  pub max_conn : st'.max_conn ≡ st.max_conn
  pub buf : st'.buf ≡ st.buf

pub Alike-IsValid : {st st' : Server} → Alike st st' → IsValid st → IsValid st'
Alike-IsValid {st} {st'} k v = record {
  pool = subst (λ n. PoolValid.IsValid n st'.pool) (sym k.max_conn) (rw k.pool v.pool);
  members = rw k.pool v.members;
  routes = rw (k.pool, k.ipv4_map) v.routes;
  buffer = rw k.buf v.buffer;
}

pub Keeps-IsValid : {st st' : Server} → Keeps st st' → IsValid st → IsValid st'
Keeps-IsValid k v =
    Alike-IsValid
      (record { pool = k.pool; ipv4_map = k.ipv4_map; max_conn = k.max_conn; buf = k.buf }) v

-- A change of a session that keeps its client, its address and whether it is authenticated.
pub record SameMember (s s' : UdpSess) : Type 0 where
  pub client : SameClient s s'
  pub ipv4_iff : s'.ipv4_iff ≡ s.ipv4_iff
  pub is_authenticated : s'.is_authenticated ≡ s.is_authenticated

module _ {st : Server} (v : IsValid st) (i : ℕ) (f : UdpSess → UdpSess)
    (same : SameMember (session st i) (f (session st i))) where
  agrees : (j : ℕ) → SameMember (session st j) (session (with_session st i f) j)
  agrees j = ground (
    arith,
    get_or-set st.pool.sess_arr i j (f (session st i)) (reset_udp_session 0),
    get_or-out st.pool.sess_arr i (reset_udp_session 0),
  )

  pub with_session-IsValid : IsValid (with_session st i f)
  with_session-IsValid = record {
    pool = changed-IsValid v.pool i (f (session st i)) same.client;
    members = λ j. ground (arith, agrees j, v.members j);
    routes = λ a j. ground (arith, agrees j, v.routes a j);
    buffer = v.buffer;
  }
