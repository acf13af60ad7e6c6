-- ===== src/Server/Handshake/Verdict.antt =====
-- Which handshakes are accepted, and what becomes of the session.
use teavpn.Common.{ℕ, ◌+◌, ◌≤◌, ◌<◌, ◌≡◌, ◌↔◌, ◌∙◌, arith, none, length, get_or}
use teavpn.Packet.{
  Buf, write, pprep, pkt_type, pkt_len, handshake_body, cli_pprep_handshake, size_handshake,
  tcli_handshake,
}
use teavpn.Packet.Fields.{get_or-pprep, get_or-write, pprep-header, length-write}
use teavpn.Server.Handshake.{handshake_verdict}

-- A handshake is accepted exactly if at least 100 bytes came, the packet has the type and the length
-- of a handshake, and the client's version is that of the server.
pub handshake_verdict_iff :
    (len : ℕ) (buf : Buf)
    → (handshake_verdict len buf ≡ none) ↔ (
        (100 ≤ len)
        × (pkt_len buf ≡ size_handshake)
        × (pkt_type buf ≡ tcli_handshake)
        × (get_or buf 4 0 ≡ 0)
        × (get_or buf 5 0 ≡ 1)
        × (get_or buf 6 0 ≡ 2))
unfolding handshake_verdict
handshake_verdict_iff len buf = ground arith

-- The server accepts the handshake that `cli_pprep_handshake` prepares in a buffer of at least 100 bytes.
handshake_verdict-cli_pprep_handshake :
    (buf : Buf)
    → 100 ≤ length buf
    → let (n, buf') = cli_pprep_handshake buf in handshake_verdict n buf' ≡ none
unfolding cli_pprep_handshake
handshake_verdict-cli_pprep_handshake buf h =
    let w = write buf 4 handshake_body in
    let size : length w ≡ length buf = length-write buf 4 handshake_body in
    let (n, t, p, l, b, s) =
      pprep-header w tcli_handshake size_handshake 0 (omega (arith, size)) (omega arith) in
    let at : (j : ℕ)
        → j < 3
        → get_or (pprep w tcli_handshake size_handshake 0).1 (4 + j) 0 ≡ get_or handshake_body j 0 =
      λ j g.
        get_or-pprep w tcli_handshake size_handshake 0 (4 + j) (omega arith)
        ∙ get_or-write buf 4 j handshake_body 0 (omega arith) (omega arith) in
    (handshake_verdict_iff _ _).1
      (omega (arith, n), l, t, at 0 (omega arith), at 1 (omega arith), at 2 (omega arith))
