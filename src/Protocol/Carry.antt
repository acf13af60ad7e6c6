-- ===== src/Protocol/Carry.antt =====
-- A packet of one side in the buffer of the other.
use teavpn.Common.{
  ℕ, ◌+◌, ◌≤◌, ◌<◌, ◌≡◌, ◌∙◌, ap, arith, List, length, length-take, get_or, get_or-take, take,
  take_over, drop, drop-take, take-take, ◌-◌,
}
use teavpn.Packet.{Buf, write, pprep, pkt_type, pkt_len, body}
use teavpn.Packet.Fields.{
  pprep-header, drop-pprep, get_or-pprep, length-write, get_or-write_front, take-drop-write_front,
}
use teavpn.Packet.Sizes.{length-pprep}

-- What goes out of a prepared buffer, and the other side's buffer once at most `room` bytes came in.
abbrev pub datagram_of : ℕ × Buf → List ℕ
datagram_of (n, buf) = take n buf

abbrev pub received : ℕ → Buf → List ℕ → Buf
received room buf bytes = write buf 0 (take room bytes)

module _ (room type n : ℕ) (src dst : Buf) (here : length src ≡ 4100) (there : length dst ≡ 4100)
    (fits : n + 4 ≤ room) (small : n + 4 ≤ 4100) where
  abbrev sent : List ℕ
  sent = datagram_of (pprep src type n 0)

  abbrev got : Buf
  got = received room dst sent

  pub length-sent : length sent ≡ n + 4
  unfolding pprep
  length-sent =
      length-take (n + 4) (pprep src type n 0).1 ∙ omega (arith, length-pprep src type n 0)

  whole : take room sent ≡ sent
  whole = take_over room sent (omega (arith, length-sent))

  pub length-got : length got ≡ 4100
  length-got = length-write dst 0 (take room sent) ∙ there

  byte : (i : ℕ) → i < n + 4 → get_or got i 0 ≡ get_or (pprep src type n 0).1 i 0
  unfolding pprep
  byte i h =
      ap (λ l. get_or (write dst 0 l) i 0) whole
      ∙ (get_or-write_front dst i sent 0 (omega (arith, length-sent)) (omega arith)
          ∙ get_or-take (n + 4) i (pprep src type n 0).1 0 h)

  -- A byte of the body is the sender's.
  pub got-byte : (i : ℕ) → 4 ≤ i → i < n + 4 → get_or got i 0 ≡ get_or src i 0
  unfolding pprep
  got-byte i h g = byte i g ∙ get_or-pprep src type n 0 i h

  -- The other side finds the packet's type, its length and its body.
  pub got-packet : (pkt_type got ≡ type) × (pkt_len got ≡ n) × (body got 0 n ≡ take n (drop 4 src))
  unfolding pprep
  got-packet =
      let (k, t, p, l, b, s) = pprep-header src type n 0 (omega arith) (omega arith) in
      (
        byte 0 (omega arith) ∙ t,
        omega (arith, byte 2 (omega arith), byte 3 (omega arith), l),
        ap (λ l'. take n (drop 4 (write dst 0 l'))) whole
            ∙ (take-drop-write_front dst 4 n sent (omega (arith, length-sent))
                  (omega (arith, length-sent))
                ∙ (ap (λ l'. take n l') (drop-take 4 n (n + 4) (pprep src type n 0).1 (omega arith))
                    ∙ (ap (λ l'. take n (take n l')) b
                        ∙ take_over n _ (omega (arith, length-take n (drop 4 src)))))),
      )

  -- A part of the body is the sender's.
  pub got-body : (at m : ℕ) → at + m ≤ n → body got at m ≡ body src at m
  unfolding pprep
  got-body at m h =
      let k : ℕ = 4 + at in
      let buf = (pprep src type n 0).1 in
      ap (λ l. take m (drop k (write dst 0 l))) whole
      ∙ (take-drop-write_front dst k m sent (omega (arith, length-sent))
            (omega (arith, length-sent))
          ∙ (ap (λ l. take m l) (drop-take k (n - at) (n + 4) buf (omega arith))
              ∙ (take-take m (n - at) (drop k buf) (omega arith)
                  ∙ ap (λ l. take m l) (drop-pprep src type n 0 k (omega arith)))))
