-- ===== src/Iface/Address.antt =====
-- The addresses of the interface: the part of teavpn_iface_toggle() in
-- src/teavpn2/net/linux/iface.c before the first command. Addresses are numbers as a processor with
-- the low byte first reads the four bytes that inet_pton() writes.
pub mod Prefix
use Prim.Native.Nat.{bit_and, bit_or}
use teavpn.Common.{
  ℕ, zero, suc, ◌+◌, ◌-◌, ◌/◌, ◌^◌, Option, none, some, List, [], ◌∷◌, ◌++◌, ◌==◌, ltb,
  if◌then◌else◌, take,
}
use teavpn.Packet.{cstr}
use teavpn.User.{IfInfo}
use teavpn.Iface.{System}

-- `while (tmp) { cidr++; tmp >>= 1; }`; the first argument is fuel.
unfoldable pub count_bits : ℕ → ℕ → ℕ
count_bits zero tmp = 0
count_bits (suc fuel) tmp = let rest = count_bits fuel (tmp / 2) in if tmp == 0 then 0 else suc rest

-- `cidr`, from 32 bits
abbrev pub cidr_of : ℕ → ℕ
cidr_of mask = count_bits 32 mask

abbrev pub network : ℕ → ℕ → ℕ
network addr mask = bit_and addr mask

-- `~` on 32 bits
abbrev pub broadcast : ℕ → ℕ → ℕ
broadcast nw mask = bit_or nw (2 ^ 32 - 1 - mask)

-- The texts for the commands, each without its NUL: the address and the network with the prefix length,
-- and the broadcast address.
pub record Addresses : Type 0 where
  pub ipv4 : List ℕ
  pub ipv4_nw : List ℕ
  pub ipv4_bc : List ℕ

-- snprintf(…, IPV4_L, "/%u", cidr) behind a text
abbrev pub with_prefix : System → List ℕ → ℕ → List ℕ
with_prefix sys text cidr = text ++ take 15 (b'/' ∷ sys.decimal cidr)

-- The addresses for a mask and an address that inet_pton() took; `none` where the code returns false.
unfoldable pub texts_for : System → List ℕ → ℕ → ℕ → Option Addresses
texts_for sys text mask addr =
    let cidr = cidr_of mask in
    let nw = network addr mask in
    elim (sys.inet_ntop nw) [
      | none ↦ none
      | some nw_text ↦ elim (sys.inet_ntop (broadcast nw mask)) [
        | none ↦ none
        | some bc_text ↦ some (record {
          ipv4 = with_prefix sys text cidr;
          ipv4_nw = with_prefix sys nw_text cidr;
          ipv4_bc = bc_text;
        })
      ]
    ]

unfoldable pub address_texts : System → IfInfo → Option Addresses
address_texts sys iface =
    let text = take 16 (cstr iface.ipv4) in
    elim (sys.inet_pton (take 16 (cstr iface.ipv4_netmask))) [
      | none ↦ none
      | some mask ↦
          if ltb 32 (cidr_of mask)
          then none
          else elim (sys.inet_pton text) [ none ↦ none | some addr ↦ texts_for sys text mask addr ]
    ]
