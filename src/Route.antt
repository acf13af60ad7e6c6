-- ===== src/Route.antt =====
-- The table from private IPv4 addresses to session indices: add_ipv4_route_map(),
-- del_ipv4_route_map() and get_ipv4_route_map() of src/teavpn2/server/linux/udp.h.
pub mod Laws
use teavpn.Common.{
  ℕ, ◌+◌, ◌-◌, ◌%◌, ◌^◌, ◌==◌, if◌then◌else◌, Grid, grid_set, byte0, byte1, Ret, ret, fail, enoent,
}

-- `uint16_t (*ipv4_map)[0x100]`; 0 marks an address with no session.
abbrev pub RouteMap : Type 0
RouteMap = Grid ℕ

-- `idx + 1u` is stored in 16 bits.
unfoldable pub add_ipv4_route_map : RouteMap → ℕ → ℕ → RouteMap
unfolding grid_set
add_ipv4_route_map m addr idx = grid_set m (byte0 addr) (byte1 addr) ((idx + 1) % 2 ^ 16)

unfoldable pub del_ipv4_route_map : RouteMap → ℕ → RouteMap
unfolding grid_set
del_ipv4_route_map m addr = grid_set m (byte0 addr) (byte1 addr) 0

unfoldable pub get_ipv4_route_map : RouteMap → ℕ → Ret
get_ipv4_route_map m addr =
    let found = m (byte0 addr) (byte1 addr) in if found == 0 then fail enoent else ret (found - 1)
