-- ===== src/Server/Shutdown/Sessions.antt =====
-- The sessions at the end: what close_client_sess() leaves, and whom it tells.
use teavpn.Common.{
  ℕ, zero, suc, ◌+◌, ◌≤◌, ◌<◌, ◌≡◌, refl, ◌∙◌, ap, arith, Bool-cases, false, none, Option-cases,
  inl, inr, length, Ret, ret, fail, enoent, same_place, length-eq_of_once,
}
use native.Mathlib.Decide.{ℕ_discrete}
use teavpn.Route.{RouteMap, get_ipv4_route_map}
use teavpn.Stack.Lifo.{contents}
use teavpn.Session.{UdpSess, lookup_udp_sess}
use teavpn.Session.Delete.{used_lt}
use teavpn.Session.Lookup.{lookup-serves}
use teavpn.Server.{Server, session}
use teavpn.Server.Valid.{IsValid}
use teavpn.Server.Valid.Close.{close_udp_session_lem, max_conn-close}
use teavpn.Server.Shutdown.{close_if_connected, close_from, close_client_sess}

-- The sessions from `i` on, `rounds` of them, are reset; the others are as before.
pub record Closed (i rounds : ℕ) (st st' : Server) : Type 0 where
  pub valid : IsValid st'
  pub same : st'.max_conn ≡ st.max_conn
  pub off : (j : ℕ) → i ≤ j → j < i + rounds → (session st' j).is_connected ≡ false
  pub others : (j : ℕ) → (session st j).is_connected ≡ false → session st' j ≡ session st j

pub close_one : (i : ℕ) {st : Server} → IsValid st → Closed i 1 st (close_if_connected st i)
close_one i {st} v = elim (Bool-cases (session st i).is_connected) [
  | inl used ↦
      let t = close_udp_session_lem v i used in
      rw used (record {
        valid = t.1;
        same = max_conn-close st i;
        off = λ j from below. ground (arith, t.2);
        others = λ j idle. t.3 j (ground arith);
      })
  | inr idle ↦
      rw idle (record {
        valid = v;
        same = refl;
        off = λ j from below. ground arith;
        others = λ j e. refl;
      })
]

close_from-Closed :
    (rounds i : ℕ) {st : Server} → IsValid st → Closed i rounds st (close_from rounds i st)
unfolding close_from
close_from-Closed zero i {st} v = record {
  valid = v;
  same = refl;
  off = λ j from below. absurd (omega arith);
  others = λ j e. refl;
}
close_from-Closed (suc rounds) i {st} v =
    let one = close_one i v in
    let rest = close_from-Closed rounds (i + 1) one.valid in
    record {
      valid = rest.valid;
      same = rest.same ∙ one.same;
      off = λ j from below. elim (ℕ_discrete i j) [
        | yes here ↦
            let idle = one.off j (omega arith) (omega arith) in
            ap UdpSess.is_connected (rest.others j idle) ∙ idle
        | no past ↦ rest.off j (omega arith) (omega arith)
      ];
      others = λ j e. rest.others j (ap UdpSess.is_connected (one.others j e) ∙ e) ∙ one.others j e;
    }

missing :
    (m : RouteMap) (a n : ℕ)
    → get_ipv4_route_map m a ≡ fail n
    → get_ipv4_route_map m a ≡ fail enoent
unfolding get_ipv4_route_map
missing m a n e = ground arith

-- A valid server none of whose sessions is in use.
module _ {st : Server} (v : IsValid st) (off : (j : ℕ) → (session st j).is_connected ≡ false) where
  none_counted : st.pool.n_on_sess ≡ 0
  none_counted =
      let all_free : length (contents st.pool.sess_stk) ≡ st.max_conn =
        length-eq_of_once st.max_conn (contents st.pool.sess_stk) v.pool.no_more
          (λ j h. ground (arith, v.pool.free j h, off j)) in
      omega (arith, all_free, v.pool.counted)

  none_found : (a p : ℕ) → lookup_udp_sess st.pool a p ≡ none
  none_found a p = elim (Option-cases (lookup_udp_sess st.pool a p)) [
    | inl e ↦ e
    | inr (i, e) ↦ absurd (ground (arith, lookup-serves i a p v.pool e, off i))
  ]

  none_routed : (a : ℕ) → same_place 0 a ≡ false → get_ipv4_route_map st.ipv4_map a ≡ fail enoent
  none_routed a clear = go _ refl
    where
      go :
          (r : Ret)
          → get_ipv4_route_map st.ipv4_map a ≡ r
          → get_ipv4_route_map st.ipv4_map a ≡ fail enoent
      go (ret i) e = absurd (ground (arith, v.routes a i clear e, off i))
      go (fail n) e = missing st.ipv4_map a n e

-- After `close_client_sess` on a valid server, the server is valid and no session is in use: none is
-- counted, every index is free, no client is found, and no route leads anywhere, but perhaps one at the
-- place of the address 0. This holds whatever the network answers.
pub close_client_sess_lem :
    {st : Server}
    → IsValid st
    → let st' = close_client_sess st in
      IsValid st'
      × ((j : ℕ) → (session st' j).is_connected ≡ false)
      × (st'.pool.n_on_sess ≡ 0)
      × ((a p : ℕ) → lookup_udp_sess st'.pool a p ≡ none)
      × ((a : ℕ) → same_place 0 a ≡ false → get_ipv4_route_map st'.ipv4_map a ≡ fail enoent)
unfolding close_client_sess
close_client_sess_lem {st} v =
    let c = close_from-Closed st.max_conn 0 v in
    let off : (j : ℕ) → (session (close_from st.max_conn 0 st) j).is_connected ≡ false = λ j.
      elim (Bool-cases (session (close_from st.max_conn 0 st) j).is_connected) [
        | inr idle ↦ idle
        | inl used ↦ c.off j (omega arith) (omega (arith, used_lt c.valid.pool j used, c.same))
      ] in
    (c.valid, off, none_counted c.valid off, none_found c.valid off, none_routed c.valid off)
