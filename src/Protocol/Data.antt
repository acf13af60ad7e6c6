-- ===== src/Protocol/Data.antt =====
-- A packet with data of the tunnel, as either side prepares it and finds it in its own buffer.
use teavpn.Common.{ℕ, false, ◌+◌, ◌≤◌, ◌<◌, ◌≡◌, ◌∙◌, arith, List, ◌==◌, length}
use teavpn.Packet.{Buf, write, pprep, pkt_type, pkt_len, body, size_raw}
use teavpn.Packet.Fields.{length-write, take-drop-write}
use teavpn.Server.{TunWrite}
use teavpn.Protocol.Carry.{datagram_of, received, length-sent, got-packet}

-- One write of these bytes.
abbrev pub write_of : List ℕ → TunWrite
write_of bytes = record { asked = length bytes; bytes = bytes }

-- The packet with the data `bytes` that is prepared in a buffer.
abbrev pub data_packet : ℕ → Buf → List ℕ → List ℕ
data_packet type buf bytes = datagram_of (pprep (write buf 4 bytes) type (length bytes) 0)

-- What the receiver finds in its buffer.
module _ (type : ℕ) (src dst : Buf) (bytes : List ℕ) (here : length src ≡ 4100)
    (there : length dst ≡ 4100) (fits : length bytes ≤ 4092) where
  abbrev pub got : Buf
  got = received size_raw dst (data_packet type src bytes)

  pub found :
      (pkt_type got ≡ type) × (pkt_len got ≡ length bytes) × (body got 0 (length bytes) ≡ bytes)
  found =
      let (t, l, b) =
        got-packet size_raw type (length bytes) (write src 4 bytes) dst
          (length-write src 4 bytes ∙ here) there (omega arith) (omega arith) in
      (t, l, b ∙ take-drop-write src 4 bytes (omega arith))

pub length-packet :
    (type : ℕ) (buf : Buf) (bytes : List ℕ)
    → length buf ≡ 4100
    → length bytes ≤ 4092
    → length (data_packet type buf bytes) ≡ length bytes + 4
length-packet type buf bytes here fits =
    length-sent size_raw type (length bytes) (write buf 4 bytes) buf
      (length-write buf 4 bytes ∙ here) here (omega arith) (omega arith)

pub not_empty : (n : ℕ) → 0 < n → (n == 0) ≡ false
not_empty n h = ground arith
