-- ===== src/Iface/Words.antt =====
-- The words of the commands in src/teavpn2/net/linux/iface.c.
use teavpn.Common.{ℕ, List, [], ◌∷◌}

abbrev pub w_link_set_dev : List ℕ
w_link_set_dev =
    b'l' ∷ b'i' ∷ b'n' ∷ b'k' ∷ b' ' ∷ b's' ∷ b'e' ∷ b't' ∷ b' ' ∷ b'd' ∷ b'e' ∷ b'v' ∷ b' ' ∷ []

abbrev pub w_to_up : List ℕ
w_to_up = b' ' ∷ b'u' ∷ b'p' ∷ []

abbrev pub w_to_down : List ℕ
w_to_down = b' ' ∷ b'd' ∷ b'o' ∷ b'w' ∷ b'n' ∷ []

abbrev pub w_mtu : List ℕ
w_mtu = b' ' ∷ b'm' ∷ b't' ∷ b'u' ∷ b' ' ∷ []

abbrev pub w_addr : List ℕ
w_addr = b'a' ∷ b'd' ∷ b'd' ∷ b'r' ∷ b' ' ∷ []

abbrev pub w_add : List ℕ
w_add = b'a' ∷ b'd' ∷ b'd' ∷ []

abbrev pub w_delete : List ℕ
w_delete = b'd' ∷ b'e' ∷ b'l' ∷ b'e' ∷ b't' ∷ b'e' ∷ []

abbrev pub w_dev : List ℕ
w_dev = b' ' ∷ b'd' ∷ b'e' ∷ b'v' ∷ b' ' ∷ []

abbrev pub w_broadcast : List ℕ
w_broadcast = b' ' ∷ b'b' ∷ b'r' ∷ b'o' ∷ b'a' ∷ b'd' ∷ b'c' ∷ b'a' ∷ b's' ∷ b't' ∷ b' ' ∷ []

abbrev pub w_route : List ℕ
w_route = b'r' ∷ b'o' ∷ b'u' ∷ b't' ∷ b'e' ∷ b' ' ∷ []

abbrev pub w_route_delete : List ℕ
w_route_delete =
    b' ' ∷ b'r' ∷ b'o' ∷ b'u' ∷ b't' ∷ b'e' ∷ b' ' ∷ b'd' ∷ b'e' ∷ b'l' ∷ b'e' ∷ b't' ∷ b'e' ∷ b' '
    ∷ []

abbrev pub w_slash_32_via : List ℕ
w_slash_32_via = b'/' ∷ b'3' ∷ b'2' ∷ b' ' ∷ b'v' ∷ b'i' ∷ b'a' ∷ b' ' ∷ []

abbrev pub w_low_half : List ℕ
w_low_half =
    b' ' ∷ b'0' ∷ b'.' ∷ b'0' ∷ b'.' ∷ b'0' ∷ b'.' ∷ b'0' ∷ b'/' ∷ b'1' ∷ b' ' ∷ b'v' ∷ b'i' ∷ b'a'
    ∷ b' ' ∷ []

abbrev pub w_high_half : List ℕ
w_high_half =
    b' ' ∷ b'1' ∷ b'2' ∷ b'8' ∷ b'.' ∷ b'0' ∷ b'.' ∷ b'0' ∷ b'.' ∷ b'0' ∷ b'/' ∷ b'1' ∷ b' ' ∷ b'v'
    ∷ b'i' ∷ b'a' ∷ b' ' ∷ []

abbrev pub w_quietly : List ℕ
w_quietly =
    b' ' ∷ b'>' ∷ b'>' ∷ b' ' ∷ b'/' ∷ b'd' ∷ b'e' ∷ b'v' ∷ b'/' ∷ b'n' ∷ b'u' ∷ b'l' ∷ b'l' ∷ b' '
    ∷ b'2' ∷ b'>' ∷ b'&' ∷ b'1' ∷ []

abbrev pub w_default_via : List ℕ
w_default_via =
    b'd' ∷ b'e' ∷ b'f' ∷ b'a' ∷ b'u' ∷ b'l' ∷ b't' ∷ b' ' ∷ b'v' ∷ b'i' ∷ b'a' ∷ b' ' ∷ []

abbrev path_0 : List ℕ
path_0 = b'/' ∷ b'b' ∷ b'i' ∷ b'n' ∷ b'/' ∷ b'i' ∷ b'p' ∷ []

abbrev path_1 : List ℕ
path_1 = b'/' ∷ b's' ∷ b'b' ∷ b'i' ∷ b'n' ∷ b'/' ∷ b'i' ∷ b'p' ∷ []

abbrev path_2 : List ℕ
path_2 = b'/' ∷ b'u' ∷ b's' ∷ b'r' ∷ b'/' ∷ b'b' ∷ b'i' ∷ b'n' ∷ b'/' ∷ b'i' ∷ b'p' ∷ []

abbrev path_3 : List ℕ
path_3 = b'/' ∷ b'u' ∷ b's' ∷ b'r' ∷ b'/' ∷ b's' ∷ b'b' ∷ b'i' ∷ b'n' ∷ b'/' ∷ b'i' ∷ b'p' ∷ []

abbrev path_4 : List ℕ
path_4 =
    b'/' ∷ b'u' ∷ b's' ∷ b'r' ∷ b'/' ∷ b'l' ∷ b'o' ∷ b'c' ∷ b'a' ∷ b'l' ∷ b'/' ∷ b'b' ∷ b'i' ∷ b'n'
    ∷ b'/' ∷ b'i' ∷ b'p' ∷ []

abbrev path_5 : List ℕ
path_5 =
    b'/' ∷ b'u' ∷ b's' ∷ b'r' ∷ b'/' ∷ b'l' ∷ b'o' ∷ b'c' ∷ b'a' ∷ b'l' ∷ b'/' ∷ b's' ∷ b'b' ∷ b'i'
    ∷ b'n' ∷ b'/' ∷ b'i' ∷ b'p' ∷ []

abbrev path_6 : List ℕ
path_6 =
    b'/' ∷ b'd' ∷ b'a' ∷ b't' ∷ b'a' ∷ b'/' ∷ b'd' ∷ b'a' ∷ b't' ∷ b'a' ∷ b'/' ∷ b'c' ∷ b'o' ∷ b'm'
    ∷ b'.' ∷ b't' ∷ b'e' ∷ b'r' ∷ b'm' ∷ b'u' ∷ b'x' ∷ b'/' ∷ b'f' ∷ b'i' ∷ b'l' ∷ b'e' ∷ b's'
    ∷ b'/' ∷ b'u' ∷ b's' ∷ b'r' ∷ b'/' ∷ b'b' ∷ b'i' ∷ b'n' ∷ b'/' ∷ b'i' ∷ b'p' ∷ []

-- `ip_bin` of `find_ip_cmd`
abbrev pub ip_bin : List (List ℕ)
ip_bin = path_0 ∷ path_1 ∷ path_2 ∷ path_3 ∷ path_4 ∷ path_5 ∷ path_6 ∷ []
