-- ===== src/Packet/Fields.antt =====
-- What a reader finds in a prepared packet.
use teavpn.Common.{
  ℕ, zero, suc, ◌+◌, ◌/◌, ◌%◌, ◌^◌, ◌≤◌, ◌<◌, ◌≡◌, refl, ◌∙◌, ap, arith, List, [], ◌∷◌, get_or, set,
  take, drop, length, get_or-set, drop-set_before,
}
use teavpn.Packet.{Buf, write, pprep, pkt_type, pkt_len}

pub length-write : (buf : Buf) (at : ℕ) (bytes : List ℕ) → length (write buf at bytes) ≡ length buf
unfolding write
length-write [] at bytes = refl
length-write (x ∷ buf) zero [] = refl
length-write (x ∷ buf) zero (b ∷ bytes) = ap suc (length-write buf zero bytes)
length-write (x ∷ buf) (suc at) bytes = ap suc (length-write buf at bytes)

-- A write leaves what stands before it.
pub get_or-write_before :
    (buf : Buf) (at i : ℕ) (bytes : List ℕ) (d : ℕ)
    → i < at
    → get_or (write buf at bytes) i d ≡ get_or buf i d
unfolding write
get_or-write_before [] at i bytes d h = refl
get_or-write_before (x ∷ buf) zero i bytes d h = absurd (omega arith)
get_or-write_before (x ∷ buf) (suc at) zero bytes d h = refl
get_or-write_before (x ∷ buf) (suc at) (suc i) bytes d h =
    get_or-write_before buf at i bytes d (omega arith)

-- A write leaves what stands behind it.
pub drop-write_after :
    (buf : Buf) (at n : ℕ) (bytes : List ℕ)
    → at + length bytes ≤ n
    → drop n (write buf at bytes) ≡ drop n buf
unfolding write
drop-write_after [] at n bytes h = refl
drop-write_after (x ∷ buf) zero zero [] h = refl
drop-write_after (x ∷ buf) zero (suc n) [] h = refl
drop-write_after (x ∷ buf) zero zero (b ∷ bytes) h = absurd (omega arith)
drop-write_after (x ∷ buf) zero (suc n) (b ∷ bytes) h =
    drop-write_after buf zero n bytes (omega arith)
drop-write_after (x ∷ buf) (suc at) zero bytes h = absurd (omega arith)
drop-write_after (x ∷ buf) (suc at) (suc n) bytes h = drop-write_after buf at n bytes (omega arith)

-- What was written is read back.
pub take-drop-write :
    (buf : Buf) (at : ℕ) (bytes : List ℕ)
    → at + length bytes ≤ length buf
    → take (length bytes) (drop at (write buf at bytes)) ≡ bytes
unfolding write
take-drop-write [] zero [] h = refl
take-drop-write [] zero (b ∷ bytes) h = absurd (omega arith)
take-drop-write [] (suc at) bytes h = absurd (omega arith)
take-drop-write (x ∷ buf) zero [] h = refl
take-drop-write (x ∷ buf) zero (b ∷ bytes) h =
    ap (λ l. b ∷ l) (take-drop-write buf zero bytes (omega arith))
take-drop-write (x ∷ buf) (suc at) bytes h = take-drop-write buf at bytes (omega arith)

pub get_or-write_front :
    (buf : Buf) (j : ℕ) (bytes : List ℕ) (d : ℕ)
    → j < length bytes
    → j < length buf
    → get_or (write buf 0 bytes) j d ≡ get_or bytes j d
unfolding write
get_or-write_front [] j bytes d h g = absurd (omega arith)
get_or-write_front (x ∷ buf) j [] d h g = absurd (omega arith)
get_or-write_front (x ∷ buf) zero (b ∷ bytes) d h g = refl
get_or-write_front (x ∷ buf) (suc j) (b ∷ bytes) d h g =
    get_or-write_front buf j bytes d (omega arith) (omega arith)

-- A byte of what was written is read back.
pub get_or-write :
    (buf : Buf) (at j : ℕ) (bytes : List ℕ) (d : ℕ)
    → j < length bytes
    → at + j < length buf
    → get_or (write buf at bytes) (at + j) d ≡ get_or bytes j d
unfolding write
get_or-write [] at j bytes d h g = absurd (omega arith)
get_or-write (x ∷ buf) zero j bytes d h g =
    let e : zero + j ≡ j = omega arith in
    rw e (get_or-write_front (x ∷ buf) j bytes d h (omega arith))
get_or-write (x ∷ buf) (suc at) j bytes d h g =
    let e : suc at + j ≡ suc (at + j) = omega arith in
    rw e (get_or-write buf at j bytes d h (omega arith))

pub take-drop-write_front :
    (buf : Buf) (from n : ℕ) (bytes : List ℕ)
    → from + n ≤ length bytes
    → length bytes ≤ length buf
    → take n (drop from (write buf 0 bytes)) ≡ take n (drop from bytes)
unfolding write
take-drop-write_front [] from n (b ∷ bytes) h g = absurd (omega arith)
take-drop-write_front [] from n [] h g = refl
take-drop-write_front (x ∷ buf) from zero bytes h g = refl
take-drop-write_front (x ∷ buf) from (suc n) [] h g = absurd (omega arith)
take-drop-write_front (x ∷ buf) zero (suc n) (b ∷ bytes) h g =
    ap (λ l. b ∷ l) (take-drop-write_front buf zero n bytes (omega arith) (omega arith))
take-drop-write_front (x ∷ buf) (suc from) (suc n) (b ∷ bytes) h g =
    take-drop-write_front buf from (suc n) bytes (omega arith) (omega arith)

-- A part of what was written is read back.
pub take-drop-write_within :
    (buf : Buf) (at from n : ℕ) (bytes : List ℕ)
    → from + n ≤ length bytes
    → at + length bytes ≤ length buf
    → take n (drop (at + from) (write buf at bytes)) ≡ take n (drop from bytes)
unfolding write
take-drop-write_within buf zero from n bytes h g =
    let e : zero + from ≡ from = omega arith in
    rw e (take-drop-write_front buf from n bytes h (omega arith))
take-drop-write_within [] (suc at) from n bytes h g = absurd (omega arith)
take-drop-write_within (x ∷ buf) (suc at) from n bytes h g =
    let e : suc at + from ≡ suc (at + from) = omega arith in
    rw e (take-drop-write_within buf at from n bytes h (omega arith))

-- The part of a buffer before a write is as it was.
pub take-drop-write_before :
    (buf : Buf) (at from n : ℕ) (bytes : List ℕ)
    → from + n ≤ at
    → take n (drop from (write buf at bytes)) ≡ take n (drop from buf)
unfolding write
take-drop-write_before [] at from n bytes h = refl
take-drop-write_before (x ∷ buf) zero zero zero bytes h = refl
take-drop-write_before (x ∷ buf) zero zero (suc n) bytes h = absurd (omega arith)
take-drop-write_before (x ∷ buf) zero (suc from) n bytes h = absurd (omega arith)
take-drop-write_before (x ∷ buf) (suc at) zero zero bytes h = refl
take-drop-write_before (x ∷ buf) (suc at) zero (suc n) bytes h =
    ap (λ l. x ∷ l) (take-drop-write_before buf at zero n bytes (omega arith))
take-drop-write_before (x ∷ buf) (suc at) (suc from) n bytes h =
    take-drop-write_before buf at from n bytes (omega arith)

-- The header of a prepared packet carries its type, its padding and its length, whatever the buffer
-- held; the body and the buffer's size stay as they were. The length is a 16-bit number.
pub pprep-header :
    (buf : Buf) (type data_len pad_len : ℕ)
    → 4 ≤ length buf
    → data_len < 2 ^ 16
    → let (n, buf') = pprep buf type data_len pad_len in
      (n ≡ data_len + 4)
      × (pkt_type buf' ≡ type)
      × (get_or buf' 1 0 ≡ pad_len)
      × (pkt_len buf' ≡ data_len)
      × (drop 4 buf' ≡ drop 4 buf)
      × (length buf' ≡ length buf)
unfolding pprep
pprep-header [] type data_len pad_len h small = absurd (omega arith)
pprep-header (a ∷ []) type data_len pad_len h small = absurd (omega arith)
pprep-header (a ∷ b ∷ []) type data_len pad_len h small = absurd (omega arith)
pprep-header (a ∷ b ∷ c ∷ []) type data_len pad_len h small = absurd (omega arith)
pprep-header (a ∷ b ∷ c ∷ d ∷ buf) type data_len pad_len h small =
    (refl, refl, refl, omega arith, refl, refl)

pub drop-pprep :
    (buf : Buf) (type data_len pad_len k : ℕ)
    → 4 ≤ k
    → drop k (pprep buf type data_len pad_len).1 ≡ drop k buf
unfolding pprep
drop-pprep buf type data_len pad_len k h =
    drop-set_before _ 1 k pad_len (omega arith)
    ∙ (drop-set_before _ 3 k _ (omega arith)
        ∙ (drop-set_before _ 2 k _ (omega arith) ∙ drop-set_before buf 0 k type (omega arith)))

pub get_or-pprep :
    (buf : Buf) (type data_len pad_len i : ℕ)
    → 4 ≤ i
    → get_or (pprep buf type data_len pad_len).1 i 0 ≡ get_or buf i 0
unfolding pprep
get_or-pprep buf type data_len pad_len i h =
    let a = set buf 0 type in
    let b = set a 2 (data_len / 256) in
    let c = set b 3 (data_len % 256) in
    ground (
      arith,
      get_or-set c 1 i pad_len 0,
      get_or-set b 3 i (data_len % 256) 0,
      get_or-set a 2 i (data_len / 256) 0,
      get_or-set buf 0 i type 0,
    )
