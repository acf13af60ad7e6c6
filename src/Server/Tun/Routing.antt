-- ===== src/Server/Tun/Routing.antt =====
-- Who gets a packet from the TUN device.
use mathlib.Core.List.{append_assoc}
use teavpn.Common.{
  ℕ, zero, suc, ◌+◌, ◌%◌, ◌^◌, ◌<◌, ◌≡◌, refl, ◌∙◌, sym, ap, subst, arith, true, false, List, [],
  ◌∷◌, ◌++◌, ◌==◌, if_intro, Bool-cases, inl, inr, take, length, Ret, ret, fail, enoent, same_place,
}
use teavpn.Packet.{Buf, write, pprep, tsrv_tun_data, size_raw}
use teavpn.Packet.Fields.{length-write, get_or-pprep}
use teavpn.Packet.Sizes.{length-pprep, pprep-length}
use teavpn.Route.{get_ipv4_route_map}
use teavpn.Session.{UdpSess, SockAddr, Pool, sess_at}
use teavpn.Server.{Server, Datagram, session}
use teavpn.Server.Send.{send_to_client}
use teavpn.Server.Send.Frame.{send_to_client-Keeps}
use teavpn.Server.Send.Retry.{Delivers, send_to_client-Delivers}
use teavpn.Server.Tun.{
  ip_daddr, ip_version, route_ipv4_packet, broadcast_from, broadcast_packet, route_or_all,
  route_or_broadcast, route_packet, packet, handle_event_from_tun,
}
use teavpn.Server.Valid.{IsValid, Alike, Alike-IsValid}

-- An authenticated session has this address.
abbrev pub IsMember : List UdpSess → SockAddr → Type 0
IsMember arr a = (i : ℕ) × ((sess_at arr i).is_authenticated ≡ true) × (a ≡ (sess_at arr i).addr)

-- each of these datagrams went to an authenticated session
abbrev pub ToMembers : List UdpSess → List Datagram → Type 0
ToMembers arr [] = Unit {0}
ToMembers arr (d ∷ ds) = IsMember arr d.dst × ToMembers arr ds

ToMembers-append :
    (arr : List UdpSess) (xs ys : List Datagram)
    → ToMembers arr xs
    → ToMembers arr ys
    → ToMembers arr (xs ++ ys)
ToMembers-append arr [] ys h k = k
ToMembers-append arr (x ∷ xs) ys h k = (h.0, ToMembers-append arr xs ys h.1 k)

-- What was sent from `st` to `st'` went to authenticated sessions of `st`, and sessions, routes and
-- buffer are as before.
pub record Serves (st st' : Server) : Type 0 where
  pub alike : Alike st st'
  pub news : List Datagram
  pub only : st'.sent ≡ news ++ st.sent
  pub members : ToMembers st.pool.sess_arr news

-- A send to an authenticated session.
send-Serves :
    (st : Server) (i n : ℕ)
    → 0 < n
    → (session st i).is_authenticated ≡ true
    → Serves st (send_to_client st i n).1
send-Serves st i n h auth = go (send_to_client st i n).0 refl
  where
    k : Alike st (send_to_client st i n).1
    k =
        let f = send_to_client-Keeps st i n in
        record { pool = f.pool; ipv4_map = f.ipv4_map; max_conn = f.max_conn; buf = f.buf }

    d : Delivers (session st i).addr (take n st.buf) st (send_to_client st i n)
    d = send_to_client-Delivers st i n h

    go : (r : Ret) → (send_to_client st i n).0 ≡ r → Serves st (send_to_client st i n).1
    go (ret m) e = record {
      alike = k;
      news = record { dst = (session st i).addr; bytes = take n st.buf } ∷ [];
      only = ground (arith, d);
      members = ((i, auth, refl), tt);
    }
    go (fail m) e = record { alike = k; news = []; only = ground (arith, d); members = tt }

Serves-refl : (st : Server) → Serves st st
Serves-refl st = record {
  alike = record { pool = refl; ipv4_map = refl; max_conn = refl; buf = refl };
  news = [];
  only = refl;
  members = tt;
}

Serves-trans : {a b c : Server} → Serves a b → Serves b c → Serves a c
Serves-trans {a} {b} {c} s t = record {
  alike = record {
    pool = t.alike.pool ∙ s.alike.pool;
    ipv4_map = t.alike.ipv4_map ∙ s.alike.ipv4_map;
    max_conn = t.alike.max_conn ∙ s.alike.max_conn;
    buf = t.alike.buf ∙ s.alike.buf;
  };
  news = t.news ++ s.news;
  only = t.only ∙ (ap (λ l. t.news ++ l) s.only ∙ sym (append_assoc t.news s.news a.sent));
  members =
      ToMembers-append a.pool.sess_arr t.news s.news
        (subst (λ p. ToMembers (Pool.sess_arr p) t.news) s.alike.pool t.members) s.members;
}

broadcast_from-Serves :
    (rounds i n : ℕ) (st : Server) → 0 < n → Serves st (broadcast_from rounds i n st).1
unfolding broadcast_from
broadcast_from-Serves zero i n st h = Serves-refl st
broadcast_from-Serves (suc rounds) i n st h = elim (Bool-cases (session st i).is_authenticated) [
  | inl e ↦
      one (broadcast_from-Serves rounds (i + 1) n (send_to_client st i n).1 h)
        (send_to_client st i n).0 e refl
  | inr e ↦ rw (e, broadcast_from) (broadcast_from-Serves rounds (i + 1) n st h)
]
  where
    one :
        Serves
          (send_to_client st i n).1
          (broadcast_from rounds (i + 1) n (send_to_client st i n).1).1
        → (r : Ret) → (session st i).is_authenticated ≡ true
        → (send_to_client st i n).0 ≡ r
        → Serves st (broadcast_from (suc rounds) i n st).1
    one rest (ret m) e f = rw (e, f, broadcast_from) (Serves-trans (send-Serves st i n h e) rest)
    one rest (fail m) e f = rw (e, f, broadcast_from) (send-Serves st i n h e)

module _ {st : Server} (v : IsValid st) (n : ℕ) (h : 0 < n) where
  routed-Serves : (a : ℕ) → same_place 0 a ≡ false → Serves st (route_ipv4_packet st a n).1
  unfolding route_ipv4_packet
  routed-Serves a clear = go (get_ipv4_route_map st.ipv4_map a) refl
    where
      go : (r : Ret) → get_ipv4_route_map st.ipv4_map a ≡ r → Serves st (route_ipv4_packet st a n).1
      go (fail e) f = rw (f, route_ipv4_packet) (Serves-refl st)
      go (ret i) f = rw (f, route_ipv4_packet) (send-Serves st i n h (v.routes a i clear f).1)

  route_or_all-Serves : same_place 0 (ip_daddr st.buf) ≡ false → Serves st (route_or_all st n).1
  unfolding route_or_all broadcast_packet
  route_or_all-Serves clear = go (route_ipv4_packet st (ip_daddr st.buf) n).0 refl
    where
      first : Serves st (route_ipv4_packet st (ip_daddr st.buf) n).1
      first = routed-Serves (ip_daddr st.buf) clear

      go :
          (r : Ret)
          → (route_ipv4_packet st (ip_daddr st.buf) n).0 ≡ r
          → Serves st (route_or_all st n).1
      go (ret m) e = rw (e, route_or_all) first
      go (fail m) e =
          rw (e, route_or_all)
            (if_intro (λ (r : Ret × Server). Serves st r.1) (m == enoent)
              (Serves-trans first (
                broadcast_from-Serves (route_ipv4_packet st (ip_daddr st.buf) n).1.max_conn 0 n
                  (route_ipv4_packet st (ip_daddr st.buf) n).1 h))
              first)

  route_or_broadcast-Serves :
      same_place 0 (ip_daddr st.buf) ≡ false → Serves st (route_or_broadcast st n).1
  unfolding route_or_broadcast broadcast_packet
  route_or_broadcast-Serves clear =
      if_intro (λ (r : Ret × Server). Serves st r.1) (ip_version st.buf == 4)
        (route_or_all-Serves clear) (broadcast_from-Serves st.max_conn 0 n st h)

-- The packet buffer with the bytes that were read, and with the header.
abbrev pub tun_read : Server → List ℕ → Buf
tun_read st bytes = write st.buf 4 (take size_raw bytes)

module _ {st : Server} (v : IsValid st) (bytes : List ℕ)
    (clear : same_place 0 (ip_daddr (tun_read st bytes)) ≡ false) where
  abbrev filled : Server
  filled = record st { buf = tun_read st bytes; len = length (take size_raw bytes) }

  abbrev data_len : ℕ
  data_len = length (take size_raw bytes) % 2 ^ 16

  abbrev headed : Server
  headed = record filled { buf = (pprep (tun_read st bytes) tsrv_tun_data data_len 0).1 }

  headed-IsValid : IsValid headed
  headed-IsValid = record {
    pool = v.pool;
    members = v.members;
    routes = v.routes;
    buffer =
        length-pprep (tun_read st bytes) tsrv_tun_data data_len 0
        ∙ (length-write st.buf 4 (take size_raw bytes) ∙ v.buffer);
  }

  headed-daddr : ip_daddr headed.buf ≡ ip_daddr (tun_read st bytes)
  headed-daddr =
      let same = get_or-pprep (tun_read st bytes) tsrv_tun_data data_len 0 in
      rw
        (same 20 (omega arith), same 21 (omega arith), same 22 (omega arith), same 23 (omega arith))

  -- A packet from the TUN device goes to authenticated sessions only, whether it is routed or sent to
  -- all, and whatever the socket answers: each datagram sent for it goes to the address of a session
  -- that is authenticated. The server stays valid, with its sessions and routes. The destination's
  -- low two bytes are not both zero.
  pub handle_event_from_tun-ToMembers :
      let st' = (handle_event_from_tun st (packet bytes)).1 in
      IsValid st'
      × (st'.pool ≡ st.pool)
      × (st'.ipv4_map ≡ st.ipv4_map)
      × (news : List Datagram) × (st'.sent ≡ news ++ st.sent)
      × ToMembers st.pool.sess_arr news
  unfolding handle_event_from_tun route_packet
  handle_event_from_tun-ToMembers =
      let s =
        route_or_broadcast-Serves headed-IsValid
          (pprep (tun_read st bytes) tsrv_tun_data data_len 0).0
          (omega (arith, pprep-length (tun_read st bytes) tsrv_tun_data data_len 0))
          (rw headed-daddr clear) in
      (
        Alike-IsValid s.alike headed-IsValid,
        s.alike.pool,
        s.alike.ipv4_map,
        s.news,
        s.only,
        s.members,
      )
