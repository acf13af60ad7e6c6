-- ===== src/Protocol/Greeting.antt =====
-- The handshakes, as the other side receives them.
use teavpn.Common.{ℕ, ◌+◌, ◌≤◌, ◌<◌, ◌≡◌, refl, ◌∙◌, arith, none, length, get_or, ret}
use teavpn.Packet.{
  Buf, write, pprep, pkt_type, pkt_len, size_raw, handshake_body, size_handshake, tsrv_handshake,
  cli_pprep_handshake, srv_pprep_handshake,
}
use teavpn.Packet.Fields.{length-write, get_or-write}
use teavpn.Server.Handshake.{handshake_verdict}
use teavpn.Server.Handshake.Verdict.{handshake_verdict_iff}
use teavpn.Client.Setup.{pkt_max_len, server_handshake_chk}
use teavpn.Protocol.Carry.{datagram_of, received, length-sent, got-packet, got-byte}

-- What the client accepts as the server's handshake.
server_handshake_chk_ok :
    (buf : Buf)
    → pkt_len buf ≡ size_handshake
    → pkt_type buf ≡ tsrv_handshake
    → get_or buf 4 0 ≡ 0
    → get_or buf 5 0 ≡ 1
    → get_or buf 6 0 ≡ 2
    → server_handshake_chk 100 buf ≡ ret 0
unfolding server_handshake_chk
server_handshake_chk_ok buf l t a b c = rw (t, l, a, b, c) refl

module _ (src dst : Buf) (here : length src ≡ 4100) (there : length dst ≡ 4100) where
  abbrev greeting : Buf
  greeting = write src 4 handshake_body

  length-greeting : length greeting ≡ 4100
  length-greeting = length-write src 4 handshake_body ∙ here

  version_byte :
      (room j : ℕ)
      → 100 ≤ room
      → j < 3
      → get_or (received room dst (datagram_of (pprep greeting 0 size_handshake 0))) (4 + j) 0
        ≡ get_or handshake_body j 0
  version_byte room j h g =
      got-byte room 0 size_handshake greeting dst length-greeting there (omega arith) (omega arith)
        (4 + j) (omega arith) (omega arith)
      ∙ get_or-write src 4 j handshake_body 0 (omega arith) (omega arith)

  -- Each side accepts the other's handshake: what either prepares in its buffer is a datagram of 100
  -- bytes, and once it is in the other's buffer, whatever that held, the server has no reason to reject
  -- the client's and the client's check of the server's returns 0. The buffers are of 4100 bytes.
  pub handshakes_lem :
      let hello = datagram_of (cli_pprep_handshake src) in
      let answer = datagram_of (srv_pprep_handshake src) in
      (length hello ≡ 100)
      × (handshake_verdict 100 (received size_raw dst hello) ≡ none)
      × (length answer ≡ 100)
      × (server_handshake_chk 100 (received pkt_max_len dst answer) ≡ ret 0)
  unfolding cli_pprep_handshake srv_pprep_handshake
  handshakes_lem =
      let size =
        length-sent 100 0 size_handshake greeting dst length-greeting there (omega arith)
          (omega arith) in
      let (t, l, b) =
        got-packet size_raw 0 size_handshake greeting dst length-greeting there (omega arith)
          (omega arith) in
      let (t', l', b') =
        got-packet pkt_max_len 0 size_handshake greeting dst length-greeting there (omega arith)
          (omega arith) in
      (
        size,
        (handshake_verdict_iff 100 _).1 (
          omega arith,
          l,
          t,
          version_byte size_raw 0 (omega arith) (omega arith),
          version_byte size_raw 1 (omega arith) (omega arith),
          version_byte size_raw 2 (omega arith) (omega arith),
        ),
        size,
        server_handshake_chk_ok _ l' t' (version_byte pkt_max_len 0 (omega arith) (omega arith))
            (version_byte pkt_max_len 1 (omega arith) (omega arith))
            (version_byte pkt_max_len 2 (omega arith) (omega arith)),
      )
