-- ===== src/Tests/Interfaces.antt =====
-- The theorems on the network interface at concrete inputs.
use teavpn.Common.{
  ℕ, ◌+◌, ◌-◌, ◌*◌, ◌^◌, ◌≡◌, ◌≤◌, ◌<◌, refl, arith, true, false, some, List, [], ◌∷◌, ◌++◌, length,
}
use teavpn.User.{IfInfo}
use teavpn.Iface.{System, Shell}
use teavpn.Iface.Quote.{quote, escapeshellarg}
use teavpn.Iface.Quote.Shell.{read_word, outside, quotes, escapeshellarg_lem}
use teavpn.Iface.Address.{count_bits, cidr_of}
use teavpn.Iface.Address.Prefix.{cidr_of_lem}
use teavpn.Iface.Toggle.{teavpn_iface_toggle}
use teavpn.Iface.Toggle.Plan.{perform, plan, RunsFirst, teavpn_iface_toggle_lem}

-- `it's`, followed by a blank and another word
abbrev its : List ℕ
its = b'i' ∷ b't' ∷ quote ∷ b's' ∷ []

abbrev up_next : List ℕ
up_next = b' ' ∷ b'u' ∷ b'p' ∷ []

ends_there : read_word outside up_next ≡ some ([], up_next)
unfolding read_word
ends_there = refl

escapeshellarg_lem_example :
    (read_word outside (escapeshellarg its ++ up_next) ≡ some (its ++ [], up_next))
    × (length (escapeshellarg its) ≡ length its + 3 * quotes its + 2)
escapeshellarg_lem_example = escapeshellarg_lem its up_next [] up_next ends_there

-- the mask 255.255.255.0
cidr_of_lem_example :
    (count_bits (32 + 8) 16777215 ≡ cidr_of 16777215)
    × (16777215 < 2 ^ cidr_of 16777215)
    × (2 ^ cidr_of 16777215 ≤ 2 * 16777215 + 1)
    × (cidr_of (2 ^ 16 - 1) ≡ 16)
cidr_of_lem_example = cidr_of_lem 8 16777215 16 (omega arith) (omega arith)

-- The mask 255.240.0.0 has a prefix of 12 bits, and gives 16.
twelve : cidr_of 61695 ≡ 16
unfolding count_bits
twelve = refl

-- The network 10.0.0.0/24, and a default gateway.
abbrev system : System
system = record {
  inet_pton = λ text. some 16777215;
  inet_ntop = λ addr. some (b'1' ∷ b'0' ∷ []);
  decimal = λ n. b'2' ∷ b'4' ∷ [];
  access = λ path. true;
  routes = some [];
}

abbrev tunnel : IfInfo
tunnel = record {
  dev = b't' ∷ b'u' ∷ b'n' ∷ [];
  ipv4_pub = [];
  ipv4 = b'1' ∷ b'0' ∷ [];
  ipv4_netmask = b'2' ∷ [];
  ipv4_dgateway = [];
  ipv4_mtu = 1450;
}

-- The first command succeeds, the second fails.
abbrev shell : Shell
shell = record { statuses = 0 ∷ 256 ∷ []; ran = [] }

teavpn_iface_toggle_lem_example :
    (teavpn_iface_toggle system tunnel true false shell
      ≡ perform (plan system tunnel true false) shell)
    × RunsFirst
        (plan system tunnel true false).0
        shell
        (teavpn_iface_toggle system tunnel true false shell)
teavpn_iface_toggle_lem_example = teavpn_iface_toggle_lem system tunnel true false shell
