-- ===== src/Iface/Toggle.antt =====
-- The commands of teavpn_iface_toggle() in src/teavpn2/net/linux/iface.c, with find_ip_cmd(),
-- shell_exec() and EXEC_CMD. Texts are without their final NUL. What snprintf() cuts off is cut off
-- here; the sizes of the arrays for the quoted texts are not modelled.
pub mod Plan
use teavpn.Common.{
  ℕ, zero, suc, Bool, true, false, not, ◌&&◌, ◌||◌, Option, none, some, List, [], ◌∷◌, ◌++◌, ◌==◌,
  if◌then◌else◌, take,
}
use teavpn.Packet.{cstr}
use teavpn.User.{IfInfo}
use teavpn.Iface.{System, Shell}
use teavpn.Iface.Words.{
  w_link_set_dev, w_to_up, w_to_down, w_mtu, w_addr, w_add, w_delete, w_dev, w_broadcast, w_route,
  w_route_delete, w_slash_32_via, w_low_half, w_high_half, w_quietly, w_default_via, ip_bin,
}
use teavpn.Iface.Quote.{escapeshellarg}
use teavpn.Iface.Address.{Addresses, address_texts}

-- system(): what it returns when the shell cannot be started is not 0.
unfoldable pub run : List ℕ → Shell → ℕ × Shell
run cmd st = elim st.statuses [
  | [] ↦ (1, record st { ran = cmd ∷ st.ran })
  | status ∷ rest ↦ (status, record { statuses = rest; ran = cmd ∷ st.ran })
]

-- The text that EXEC_CMD makes in `__cbuf`: `BUF` has 256 bytes, `__cbuf` 768.
unfoldable pub command : Bool → List ℕ → List ℕ → List ℕ
command suppress_err ip text =
    let full = take 767 (ip ++ (b' ' ∷ take 255 text)) in
    if suppress_err then take 767 (full ++ w_quietly) else full

-- The loop of `find_ip_cmd`
unfoldable pub first_of : (List ℕ → Bool) → List (List ℕ) → Option (List ℕ)
first_of access [] = none
first_of access (path ∷ paths) =
    let rest = first_of access paths in if access path then some path else rest

abbrev pub find_ip_cmd : System → Option (List ℕ)
find_ip_cmd sys = first_of sys.access ip_bin

-- The text behind a prefix, and behind the first occurrence of a text, which strstr() finds.
unfoldable pub behind_prefix : List ℕ → List ℕ → Option (List ℕ)
behind_prefix [] s = some s
behind_prefix (c ∷ t) [] = none
behind_prefix (c ∷ t) (d ∷ s) = let rest = behind_prefix t s in if c == d then rest else none

unfoldable pub behind : List ℕ → List ℕ → Option (List ℕ)
behind t [] = behind_prefix t []
behind t (c ∷ s) =
    let later = behind t s in
    elim (behind_prefix t (c ∷ s)) [ some rest ↦ some rest | none ↦ later ]

-- "Just cut": the text before the first blank or line end.
unfoldable pub first_word : List ℕ → List ℕ
first_word [] = []
first_word (c ∷ s) = let rest = first_word s in if (c == b' ') || (c == b'\n') then [] else c ∷ rest

-- The default gateway in what `ip route show` prints, of which 255 bytes are read; where popen() fails
-- the buffer holds the command before.
unfoldable pub default_gateway : System → List ℕ → Option (List ℕ)
default_gateway sys before =
    let shown : List ℕ = elim sys.routes [
      | none ↦ take 255 before
      | some out ↦ cstr (take 255 out)
    ] in
    elim (behind w_default_via shown) [ none ↦ none | some s ↦ some (first_word s) ]

-- What follows a command of EXEC_CMD: the function goes on where it returned 0.
unfoldable pub go_on : ℕ × Shell → (Shell → Bool × Shell) → Bool × Shell
go_on (status, st) next = if status == 0 then next st else (false, st)

abbrev pub add_or_delete : Bool → List ℕ
add_or_delete up = if up then w_add else w_delete

abbrev pub link_text : IfInfo → Bool → System → List ℕ
link_text iface up sys =
    w_link_set_dev
    ++ (escapeshellarg (cstr iface.dev)
        ++ ((if up then w_to_up else w_to_down) ++ (w_mtu ++ sys.decimal iface.ipv4_mtu)))

abbrev pub addr_text : IfInfo → Bool → Addresses → List ℕ
addr_text iface up a =
    w_addr
    ++ (add_or_delete up
        ++ (w_dev
            ++ (escapeshellarg (cstr iface.dev)
                ++ (b' ' ∷ (escapeshellarg a.ipv4 ++ (w_broadcast ++ escapeshellarg a.ipv4_bc))))))

-- `route … ‹server›/32 via ‹gateway›`, and the command that deletes it before it is added
abbrev pub route_text : IfInfo → Bool → List ℕ → List ℕ
route_text iface up gateway =
    w_route
    ++ (add_or_delete up
        ++ (b' '
            ∷ (escapeshellarg (cstr iface.ipv4_pub) ++ (w_slash_32_via ++ escapeshellarg gateway))))

abbrev pub clear_text : IfInfo → List ℕ → List ℕ → List ℕ
clear_text iface ip gateway = take 127 (
    ip
    ++ (w_route_delete
        ++ (escapeshellarg (cstr iface.ipv4_pub)
            ++ (w_slash_32_via ++ (escapeshellarg gateway ++ w_quietly)))))

abbrev pub half_text : IfInfo → Bool → List ℕ → List ℕ
half_text iface up half =
    w_route ++ (add_or_delete up ++ (half ++ escapeshellarg (cstr iface.ipv4_dgateway)))

abbrev pub is_empty : List ℕ → Bool
is_empty [] = true
is_empty (c ∷ s) = false

-- The two halves of the address space through the tunnel, if there is a gateway in it.
unfoldable pub halves : IfInfo → Bool → Bool → List ℕ → Shell → Bool × Shell
halves iface up suppress_err ip st =
    if is_empty (cstr iface.ipv4_dgateway)
    then (true, st)
    else go_on (run (command suppress_err ip (half_text iface up w_low_half)) st) (λ st'.
      go_on (run (command suppress_err ip (half_text iface up w_high_half)) st')
        (λ st''. (true, st'')))

-- The route to the server's public address: before it is added, one that is left over is deleted,
-- whether or not there is one.
unfoldable pub public_route : IfInfo → Bool → Bool → List ℕ → List ℕ → Shell → Bool × Shell
public_route iface up suppress_err ip gateway st =
    let cleared = if up then (run (clear_text iface ip gateway) st).1 else st in
    go_on (run (command suppress_err ip (route_text iface up gateway)) cleared)
      (λ st'. halves iface up suppress_err ip st')

unfoldable pub routes_toggle :
    System → IfInfo → Bool → Bool → List ℕ → Addresses → Shell → Bool × Shell
routes_toggle sys iface up suppress_err ip a st =
    if is_empty (cstr iface.ipv4_pub)
    then (true, st)
    else elim (default_gateway sys (addr_text iface up a)) [
      | none ↦ (false, st)
      | some gateway ↦ public_route iface up suppress_err ip gateway st
    ]

unfoldable pub teavpn_iface_toggle : System → IfInfo → Bool → Bool → Shell → Bool × Shell
teavpn_iface_toggle sys iface up suppress_err st = elim (address_texts sys iface) [
  | none ↦ (false, st)
  | some a ↦ elim (find_ip_cmd sys) [
    | none ↦ (false, st)
    | some ip ↦ go_on (run (command suppress_err ip (link_text iface up sys)) st) (λ st'.
        go_on (run (command suppress_err ip (addr_text iface up a)) st')
          (λ st''. routes_toggle sys iface up suppress_err ip a st''))
  ]
]

abbrev pub teavpn_iface_up : System → IfInfo → Shell → Bool × Shell
teavpn_iface_up sys iface st = teavpn_iface_toggle sys iface true false st

abbrev pub teavpn_iface_down : System → IfInfo → Shell → Bool × Shell
teavpn_iface_down sys iface st = teavpn_iface_toggle sys iface false true st
