-- ===== src/Route/Laws.antt =====
-- What a lookup in the route table finds after an update.
use teavpn.Common.{ℕ, ◌<◌, ◌≡◌, arith, if◌then◌else◌, same_place, ret, fail, enoent}
use teavpn.Route.{RouteMap, add_ipv4_route_map, del_ipv4_route_map, get_ipv4_route_map}

-- After a route to session `idx` is added, a lookup finds it at every address with the same two low
-- bytes, and finds what it found before at every other address; `idx` is below 65535.
pub get-add :
    (m : RouteMap) (a b idx : ℕ)
    → idx < 65535
    → get_ipv4_route_map (add_ipv4_route_map m a idx) b
      ≡ (if same_place a b then ret idx else get_ipv4_route_map m b)
unfolding add_ipv4_route_map get_ipv4_route_map
get-add m a b idx h = ground arith

-- After a route is deleted, a lookup finds nothing at the addresses with the same two low bytes,
-- and finds what it found before at every other address.
pub get-del :
    (m : RouteMap) (a b : ℕ)
    → get_ipv4_route_map (del_ipv4_route_map m a) b
      ≡ (if same_place a b then fail enoent else get_ipv4_route_map m b)
unfolding del_ipv4_route_map get_ipv4_route_map
get-del m a b = ground arith

-- The index 65535 does not fit: its route reads as no route.
pub get-add_wraps :
    (m : RouteMap) (a : ℕ) → get_ipv4_route_map (add_ipv4_route_map m a 65535) a ≡ fail enoent
unfolding add_ipv4_route_map get_ipv4_route_map
get-add_wraps m a = ground arith
