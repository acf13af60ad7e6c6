-- ===== src/Client/Event/Received.antt =====
-- What receiving a packet leaves of the client.
use teavpn.Common.{
  ℕ, zero, suc, ◌≡◌, refl, List, [], ◌∷◌, Ret, ret, fail, enetdown, sym, subst, length, take,
}
use teavpn.Packet.Fields.{length-write}
use teavpn.Packet.{write, size_raw}
use teavpn.Client.{Client, Reply, failed, arrived}
use teavpn.Client.Socket.{do_recv_from}
use teavpn.Client.Event.{recv_from_server}

-- Two states of the client with the same outputs, the same `stop` and the same last sign of life.
abbrev pub Same : Client → Client → Type 0
Same st st' =
    (st'.written ≡ st.written)
    × (st'.sent ≡ st.sent)
    × (st'.stop ≡ st.stop)
    × (st'.last_t ≡ st.last_t)

abbrev pub all_same : (st : Client) → Same st st
all_same st = (refl, refl, refl, refl)

module _ (st : Client) where
  abbrev read : List ℕ → List Reply → Client
  read bytes rest = record st { replies = rest; buf = write st.buf 0 (take size_raw bytes) }

  empty :
      (bytes : List ℕ) (rest : List Reply)
      → st.replies ≡ arrived bytes ∷ rest
      → length (take size_raw bytes) ≡ 0
      → recv_from_server st ≡ (fail enetdown, read bytes rest)
  unfolding recv_from_server do_recv_from
  empty bytes rest e f = rw (e, f) refl

  filled :
      (bytes : List ℕ) (rest : List Reply)
      → st.replies ≡ arrived bytes ∷ rest
      → (n : ℕ) → length (take size_raw bytes) ≡ suc n
      → recv_from_server st ≡ (ret (suc n), record (read bytes rest) { len = suc n })
  unfolding recv_from_server do_recv_from
  filled bytes rest e n f = rw (e, f) refl

  failing :
      (e : ℕ) (rest : List Reply)
      → st.replies ≡ failed e ∷ rest
      → (recv_from_server st).1 ≡ record st { replies = rest }
  unfolding recv_from_server do_recv_from
  failing e rest h = rw (h, recv_from_server, h) refl

  silent : st.replies ≡ [] → (recv_from_server st).1 ≡ st
  unfolding recv_from_server do_recv_from
  silent h = rw (h, recv_from_server, h) refl

  pub recv_same :
      Same st (recv_from_server st).1 × (length (recv_from_server st).1.buf ≡ length st.buf)
  unfolding recv_from_server do_recv_from
  recv_same = go st.replies refl
    where
      P : Client → Type 0
      P st' = Same st st' × (length st'.buf ≡ length st.buf)

      buffer : (bytes : List ℕ) → length (write st.buf 0 (take size_raw bytes)) ≡ length st.buf
      buffer bytes = length-write st.buf 0 (take size_raw bytes)

      came :
          (bytes : List ℕ) (rest : List Reply)
          → st.replies ≡ arrived bytes ∷ rest
          → (n : ℕ) → length (take size_raw bytes) ≡ n
          → P (recv_from_server st).1
      came bytes rest e zero f =
          subst (λ (r : Ret × Client). P r.1) (sym (empty bytes rest e f))
            ((refl, refl, refl, refl), buffer bytes)
      came bytes rest e (suc n) f =
          subst (λ (r : Ret × Client). P r.1) (sym (filled bytes rest e n f))
            ((refl, refl, refl, refl), buffer bytes)

      go : (replies : List Reply) → st.replies ≡ replies → P (recv_from_server st).1
      go [] e = subst P (sym (silent e)) (all_same st, refl)
      go (failed n ∷ rest) e = subst P (sym (failing n rest e)) ((refl, refl, refl, refl), refl)
      go (arrived bytes ∷ rest) e = came bytes rest e (length (take size_raw bytes)) refl
