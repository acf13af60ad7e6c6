-- ===== src/Server/Tun/Frame.antt =====
-- What a packet from the TUN device leaves alone, wherever it is routed.
use teavpn.Common.{
  ℕ, zero, suc, ◌+◌, ◌%◌, ◌^◌, ◌≡◌, refl, ◌∙◌, true, ◌==◌, if_intro, Bool-cases, inl, inr, take,
  length, Ret, ret, fail, eagain, enoent,
}
use teavpn.Packet.{write, pprep, tsrv_tun_data, size_raw}
use teavpn.Packet.Fields.{length-write}
use teavpn.Packet.Sizes.{length-pprep}
use teavpn.Route.{get_ipv4_route_map}
use teavpn.Server.{Server, session}
use teavpn.Server.Send.{send_to_client}
use teavpn.Server.Send.Frame.{send_to_client-Keeps}
use teavpn.Server.Tun.{
  ip_daddr, ip_version, route_ipv4_packet, broadcast_from, broadcast_packet, route_or_all,
  route_or_broadcast, route_packet, Read, failed, packet, handle_event_from_tun,
}
use teavpn.Server.Valid.{IsValid, Alike, Alike-IsValid}

Alike-refl : (st : Server) → Alike st st
Alike-refl st = record { pool = refl; ipv4_map = refl; max_conn = refl; buf = refl }

Alike-trans : {a b c : Server} → Alike a b → Alike b c → Alike a c
Alike-trans s t = record {
  pool = t.pool ∙ s.pool;
  ipv4_map = t.ipv4_map ∙ s.ipv4_map;
  max_conn = t.max_conn ∙ s.max_conn;
  buf = t.buf ∙ s.buf;
}

send_to_client-Alike : (st : Server) (i n : ℕ) → Alike st (send_to_client st i n).1
send_to_client-Alike st i n =
    let k = send_to_client-Keeps st i n in
    record { pool = k.pool; ipv4_map = k.ipv4_map; max_conn = k.max_conn; buf = k.buf }

broadcast_from-Alike : (rounds i n : ℕ) (st : Server) → Alike st (broadcast_from rounds i n st).1
unfolding broadcast_from
broadcast_from-Alike zero i n st = Alike-refl st
broadcast_from-Alike (suc rounds) i n st = elim (Bool-cases (session st i).is_authenticated) [
  | inl e ↦
      go (broadcast_from-Alike rounds (i + 1) n (send_to_client st i n).1) (send_to_client st i n).0
        e refl
  | inr e ↦ rw (e, broadcast_from) (broadcast_from-Alike rounds (i + 1) n st)
]
  where
    go :
        Alike
          (send_to_client st i n).1
          (broadcast_from rounds (i + 1) n (send_to_client st i n).1).1
        → (r : Ret) → (session st i).is_authenticated ≡ true
        → (send_to_client st i n).0 ≡ r
        → Alike st (broadcast_from (suc rounds) i n st).1
    go rest (ret m) e f = rw (e, f, broadcast_from) (Alike-trans (send_to_client-Alike st i n) rest)
    go rest (fail m) e f = rw (e, f, broadcast_from) (send_to_client-Alike st i n)

module _ (st : Server) (n : ℕ) where
  route_ipv4_packet-Alike : (a : ℕ) → Alike st (route_ipv4_packet st a n).1
  unfolding route_ipv4_packet
  route_ipv4_packet-Alike a = go (get_ipv4_route_map st.ipv4_map a) refl
    where
      go : (r : Ret) → get_ipv4_route_map st.ipv4_map a ≡ r → Alike st (route_ipv4_packet st a n).1
      go (fail e) f = rw (f, route_ipv4_packet) (Alike-refl st)
      go (ret i) f = rw (f, route_ipv4_packet) (send_to_client-Alike st i n)

  route_or_all-Alike : Alike st (route_or_all st n).1
  unfolding route_or_all broadcast_packet
  route_or_all-Alike = go (route_ipv4_packet st (ip_daddr st.buf) n).0 refl
    where
      first : Server
      first = (route_ipv4_packet st (ip_daddr st.buf) n).1

      k : Alike st first
      k = route_ipv4_packet-Alike (ip_daddr st.buf)

      go :
          (r : Ret)
          → (route_ipv4_packet st (ip_daddr st.buf) n).0 ≡ r
          → Alike st (route_or_all st n).1
      go (ret m) e = rw (e, route_or_all) k
      go (fail m) e =
          rw (e, route_or_all)
            (if_intro (λ (r : Ret × Server). Alike st r.1) (m == enoent)
              (Alike-trans k (broadcast_from-Alike first.max_conn 0 n first)) k)

  route_or_broadcast-Alike : Alike st (route_or_broadcast st n).1
  unfolding route_or_broadcast broadcast_packet
  route_or_broadcast-Alike =
      if_intro (λ (r : Ret × Server). Alike st r.1) (ip_version st.buf == 4) route_or_all-Alike
        (broadcast_from-Alike st.max_conn 0 n st)

-- Whatever comes from the TUN device, the server stays valid.
pub handle_event_from_tun-IsValid :
    {st : Server} (what : Read) → IsValid st → IsValid (handle_event_from_tun st what).1
unfolding handle_event_from_tun route_packet
handle_event_from_tun-IsValid {st} (failed e) v =
    if_intro (λ (r : Ret × Server). IsValid r.1) (e == eagain) v v
handle_event_from_tun-IsValid {st} (packet bytes) v =
    let got = take size_raw bytes in
    let filled = write st.buf 4 got in
    let data_len = length got % 2 ^ 16 in
    let (send_len, buf) = pprep filled tsrv_tun_data data_len 0 in
    Alike-IsValid (route_or_broadcast-Alike (record st { buf = buf; len = length got }) send_len)
      (record {
        pool = v.pool;
        members = v.members;
        routes = v.routes;
        buffer =
            length-pprep filled tsrv_tun_data data_len 0 ∙ (length-write st.buf 4 got ∙ v.buffer);
      })
