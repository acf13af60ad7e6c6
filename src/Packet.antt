-- ===== src/Packet.antt =====
-- The packets of src/teavpn2/packet.h as bytes in a buffer, and the functions that prepare them:
-- srv_pprep*() of server/linux/udp.h, cli_pprep*() of client/linux/udp.h, strncpy2() of common.h.
pub mod Fields
pub mod Sizes
pub mod Strings
pub mod Auth
use teavpn.Common.{
  ℕ, zero, suc, ◌+◌, ◌-◌, ◌*◌, ◌/◌, ◌%◌, ◌^◌, List, [], ◌∷◌, ◌++◌, ◌==◌, if◌then◌else◌, Option,
  none, some, get_or, set, take, drop, length, replicate,
}

-- the buffer of a `struct sc_pkt`; `struct cli_pkt` and `struct srv_pkt` share it
abbrev pub Buf : Type 0
Buf = List ℕ

-- TCLI_PKT_*, what the client sends
abbrev pub tcli_handshake : ℕ
tcli_handshake = 0

abbrev pub tcli_auth : ℕ
tcli_auth = 1

abbrev pub tcli_tun_data : ℕ
tcli_tun_data = 2

abbrev pub tcli_reqsync : ℕ
tcli_reqsync = 3

abbrev pub tcli_sync : ℕ
tcli_sync = 4

abbrev pub tcli_close : ℕ
tcli_close = 5

-- TSRV_PKT_*, what the server sends
abbrev pub tsrv_handshake : ℕ
tsrv_handshake = 0

abbrev pub tsrv_auth_ok : ℕ
tsrv_auth_ok = 1

abbrev pub tsrv_tun_data : ℕ
tsrv_tun_data = 2

abbrev pub tsrv_reqsync : ℕ
tsrv_reqsync = 3

abbrev pub tsrv_sync : ℕ
tsrv_sync = 4

abbrev pub tsrv_close : ℕ
tsrv_close = 5

abbrev pub tsrv_handshake_reject : ℕ
tsrv_handshake_reject = 6

abbrev pub tsrv_auth_reject : ℕ
tsrv_auth_reject = 7

-- TSRV_HREJECT_*
abbrev pub hreject_invalid : ℕ
hreject_invalid = 1

abbrev pub hreject_version_not_supported : ℕ
hreject_version_not_supported = 2

-- PKT_MIN_LEN, and the sizes of the packet's parts
abbrev pub pkt_min_len : ℕ
pkt_min_len = 4

abbrev pub size_handshake : ℕ
size_handshake = 96

abbrev pub size_handshake_reject : ℕ
size_handshake_reject = 512

abbrev pub size_auth : ℕ
size_auth = 512

-- `sizeof(struct if_info)` and `sizeof(struct pkt_auth_res)`
abbrev pub size_if_info : ℕ
size_if_info = 82

abbrev pub size_auth_res : ℕ
size_auth_res = 84

-- `sizeof(pkt->__raw)` of a `struct cli_pkt`
abbrev pub size_raw : ℕ
size_raw = 4096

-- The release that the Makefile sets: VERSION, PATCHLEVEL, SUBLEVEL, EXTRAVERSION.
abbrev pub version : ℕ
version = 0

abbrev pub patch_level : ℕ
patch_level = 1

abbrev pub sub_level : ℕ
sub_level = 2

abbrev pub extra_version : List ℕ
extra_version = b'-' ∷ b'r' ∷ b'c' ∷ b'1' ∷ []

-- Bytes copied into a buffer from position `at` on; what does not fit is dropped.
unfoldable pub write : Buf → ℕ → List ℕ → Buf
write [] at bytes = []
write (x ∷ buf) zero [] = x ∷ buf
write (x ∷ buf) zero (b ∷ bytes) = b ∷ write buf zero bytes
write (x ∷ buf) (suc at) bytes = x ∷ write buf at bytes

-- A C string: the bytes before the first NUL.
unfoldable pub cstr : List ℕ → List ℕ
cstr [] = []
cstr (c ∷ s) = if c == 0 then [] else c ∷ cstr s

-- `strncpy` fills `n` bytes: the string, cut off at `n`, then zeros.
unfoldable pub strncpy : ℕ → List ℕ → List ℕ
strncpy zero s = []
strncpy (suc n) [] = 0 ∷ strncpy n []
strncpy (suc n) (c ∷ s) = c ∷ strncpy n s

-- `strncpy2(dst, src, n)`: the bytes of `dst`
unfoldable pub strncpy2 : List ℕ → ℕ → List ℕ
unfolding cstr strncpy
strncpy2 src n = set (strncpy n (cstr src)) (n - 1) 0

-- `srv_pprep` and `cli_pprep`, which do the same: the buffer and the length of the packet. `htons`
-- puts the high byte first.
unfoldable pub pprep : Buf → ℕ → ℕ → ℕ → ℕ × Buf
pprep buf type data_len pad_len = (
  data_len + pkt_min_len,
  set (set (set (set buf 0 type) 2 (data_len / 256)) 3 (data_len % 256)) 1 pad_len,
)

-- The body that `srv_pprep_handshake` and `cli_pprep_handshake` write: the current version, no others.
abbrev pub handshake_body : List ℕ
handshake_body = version ∷ patch_level ∷ sub_level ∷ (strncpy2 extra_version 29 ++ replicate 64 0)

unfoldable pub srv_pprep_handshake : Buf → ℕ × Buf
srv_pprep_handshake buf = pprep (write buf 4 handshake_body) tsrv_handshake size_handshake 0

unfoldable pub cli_pprep_handshake : Buf → ℕ × Buf
cli_pprep_handshake buf = pprep (write buf 4 handshake_body) tcli_handshake size_handshake 0

-- `none` is a NULL message.
unfoldable pub srv_pprep_handshake_reject : Buf → ℕ → Option (List ℕ) → ℕ × Buf
srv_pprep_handshake_reject buf reason msg =
    let text : List ℕ = elim msg [ none ↦ replicate 511 0 | some m ↦ strncpy2 m 511 ] in
    pprep (write buf 4 (reason ∷ text)) tsrv_handshake_reject size_handshake_reject 0

unfoldable pub srv_pprep_sync : Buf → ℕ × Buf
srv_pprep_sync buf = pprep buf tsrv_sync 0 0

unfoldable pub cli_pprep_auth : Buf → List ℕ → List ℕ → ℕ × Buf
cli_pprep_auth buf user pass =
    pprep (write (write buf 4 (strncpy2 user 256)) 260 (strncpy2 pass 256)) tcli_auth size_auth 0

-- The fields of a received packet: `type`, `ntohs(len)`, and `n` bytes of the body from `at` on.
abbrev pub pkt_type : Buf → ℕ
pkt_type buf = get_or buf 0 0

abbrev pub pkt_len : Buf → ℕ
pkt_len buf = get_or buf 2 0 * 256 + get_or buf 3 0

abbrev pub body : Buf → ℕ → ℕ → List ℕ
body buf at n = take n (drop (4 + at) buf)
