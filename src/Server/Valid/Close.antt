-- ===== src/Server/Valid/Close.antt =====
-- Sending and closing keep the server valid.
use teavpn.Common.{
  ℕ, ◌+◌, ◌≡◌, ◌≢◌, ◌∙◌, arith, true, false, length, ◌==◌, if◌then◌else◌, Bool-cases, inl, inr,
  same_place, ret, fail, none, not, ◌&&◌, enoent,
}
use teavpn.Packet.{Buf, pprep, tsrv_close}
use teavpn.Packet.Sizes.{length-pprep}
use teavpn.Route.{get_ipv4_route_map}
use teavpn.Route.Laws.{get-del}
use teavpn.Session.{reset_udp_session, delete_udp_session, lookup_udp_sess, is_from}
use teavpn.Session.Delete.{delete_udp_session_lem}
use teavpn.Server.{Server, session}
use teavpn.Server.Send.Frame.{send_to_client-Keeps}
use teavpn.Server.Close.{unroute, send_prepared, drop_session, close_udp_session}
use teavpn.Server.Valid.{IsValid, Keeps-IsValid}

pub buf-IsValid :
    {st : Server} (buf : Buf)
    → length buf ≡ length st.buf
    → IsValid st
    → IsValid (record st { buf = buf })
buf-IsValid buf e v = record {
  pool = v.pool;
  members = v.members;
  routes = v.routes;
  buffer = e ∙ v.buffer;
}

-- The server with another buffer and what a send changes.
pub record KeepsPool (st st' : Server) : Type 0 where
  pub pool : st'.pool ≡ st.pool
  pub ipv4_map : st'.ipv4_map ≡ st.ipv4_map
  pub max_conn : st'.max_conn ≡ st.max_conn
  pub written : st'.written ≡ st.written

pub send_prepared-KeepsPool :
    (st : Server) (i : ℕ) (p : ℕ × Buf) → KeepsPool st (send_prepared st i p).1
send_prepared-KeepsPool st i (n, buf) =
    ground (arith, send_to_client-Keeps (record st { buf = buf }) i n)

pub send_prepared-IsValid :
    {st : Server} (i n : ℕ) (buf : Buf)
    → length buf ≡ length st.buf
    → IsValid st
    → IsValid (send_prepared st i (n, buf)).1
send_prepared-IsValid {st} i n buf e v =
    Keeps-IsValid (send_to_client-Keeps (record st { buf = buf }) i n) (buf-IsValid buf e v)

-- No route but one at the place of the address 0 leads to session `i`.
abbrev Unrouted : Server → ℕ → Type 0
Unrouted st i =
    (a j : ℕ) → same_place 0 a ≡ false → get_ipv4_route_map st.ipv4_map a ≡ ret j → j ≢ i

module _ {st : Server} (v : IsValid st) (i : ℕ) where
  unroute-Unrouted : Unrouted (unroute st i) i
  unroute-Unrouted a j off found =
      ground (arith, get-del st.ipv4_map (session st i).ipv4_iff a, v.routes a j)

  unroute-IsValid : IsValid (unroute st i)
  unroute-IsValid = elim (Bool-cases ((session st i).ipv4_iff == 0)) [
    | inl e ↦ rw e v
    | inr e ↦ rw e (record {
      pool = v.pool;
      members = v.members;
      routes = λ a j. ground (arith, get-del st.ipv4_map (session st i).ipv4_iff a, v.routes a j);
      buffer = v.buffer;
    })
  ]

module _ {st : Server} (v : IsValid st) (i : ℕ) (used : (session st i).is_connected ≡ true)
    (off : Unrouted st i) where
  drop_session-IsValid : IsValid (drop_session st i).1
  drop_session-IsValid =
      let (done, pool, gone, others, counted, found) = delete_udp_session_lem i v.pool used in
      let here : (j : ℕ)
          → session (drop_session st i).1 j
            ≡ (if j == i then reset_udp_session i else session st j) =
        λ j. ground (arith, gone, others j) in
      record {
        pool = pool;
        members = λ j. ground (arith, here j, v.members j);
        routes = λ a j clear route.
            ground (arith, here j, v.routes a j clear route, off a j clear route);
        buffer = v.buffer;
      }

module _ {st : Server} (v : IsValid st) (i : ℕ) (used : (session st i).is_connected ≡ true) where
  abbrev closing : Server
  closing = let st' = unroute st i in (send_prepared st' i (pprep st'.buf tsrv_close 0 0)).1

  closing-IsValid : IsValid closing
  closing-IsValid =
      let st' = unroute st i in
      send_prepared-IsValid i _ _ (length-pprep st'.buf tsrv_close 0 0) (unroute-IsValid v i)

  closing-KeepsPool : (closing.pool ≡ st.pool) × (closing.ipv4_map ≡ (unroute st i).ipv4_map)
  closing-KeepsPool =
      let st' = unroute st i in
      let k = send_prepared-KeepsPool st' i (pprep st'.buf tsrv_close 0 0) in ground (arith, k)

  closing-Unrouted : Unrouted closing i
  closing-Unrouted a j clear route =
      unroute-Unrouted v i a j clear (rw (← closing-KeepsPool.1) route)

  closing-used : (session closing i).is_connected ≡ true
  closing-used = rw closing-KeepsPool.0 used

  -- Closing a session in use keeps the server valid.
  pub close_udp_session-IsValid : IsValid (close_udp_session st i).1
  unfolding close_udp_session
  close_udp_session-IsValid = drop_session-IsValid closing-IsValid i closing-used closing-Unrouted

  -- what closing leaves of the routes
  closed_routes :
      (a : ℕ)
      → get_ipv4_route_map (close_udp_session st i).1.ipv4_map a ≡ (
          if not ((session st i).ipv4_iff == 0) && same_place (session st i).ipv4_iff a
          then fail enoent
          else get_ipv4_route_map st.ipv4_map a)
  unfolding close_udp_session
  closed_routes a = ground (arith, closing-KeepsPool, get-del st.ipv4_map (session st i).ipv4_iff a)

  -- Of a session in use, `close_udp_session` returns 0 whatever the network answers, and keeps the
  -- server valid. The session is reset and counts as one less; its client is not found afterwards, and
  -- every other session and lookup is as before. The route of its private address is gone, unless that
  -- address is 0, and every other route stays.
  pub close_udp_session_lem :
      let (r, st') = close_udp_session st i in
      (r ≡ ret 0)
      × IsValid st'
      × (session st' i ≡ reset_udp_session i)
      × ((j : ℕ) → j ≢ i → session st' j ≡ session st j)
      × (st'.pool.n_on_sess + 1 ≡ st.pool.n_on_sess)
      × ((a p : ℕ)
          → lookup_udp_sess st'.pool a p
            ≡ (if is_from (session st i) a p then none else lookup_udp_sess st.pool a p))
      × ((a : ℕ)
          → get_ipv4_route_map st'.ipv4_map a ≡ (
              if not ((session st i).ipv4_iff == 0) && same_place (session st i).ipv4_iff a
              then fail enoent
              else get_ipv4_route_map st.ipv4_map a))
  close_udp_session_lem =
      let (done, pool, gone, others, counted, found) = delete_udp_session_lem i v.pool used in
      let run : ((close_udp_session st i).0 ≡ (delete_udp_session st.pool i).0)
          × ((close_udp_session st i).1.pool ≡ (delete_udp_session st.pool i).1) =
        (
          unfold close_udp_session in rw closing-KeepsPool.0,
          unfold close_udp_session in rw closing-KeepsPool.0,
        ) in
      (
        run.0 ∙ done,
        close_udp_session-IsValid,
        rw run.1 gone,
        rw run.1 others,
        rw run.1 counted,
        rw run.1 found,
        closed_routes,
      )

pub max_conn-close : (st : Server) (i : ℕ) → (close_udp_session st i).1.max_conn ≡ st.max_conn
unfolding close_udp_session
max_conn-close st i =
    let st' = unroute st i in
    ground (arith, send_prepared-KeepsPool st' i (pprep st'.buf tsrv_close 0 0))
