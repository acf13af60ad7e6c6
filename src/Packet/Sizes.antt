-- ===== src/Packet/Sizes.antt =====
-- Preparing a packet keeps the size of the buffer.
use teavpn.Common.{ℕ, ◌+◌, ◌≡◌, refl, ◌∙◌, Option, List, length, length-set}
use teavpn.Packet.{
  cli_pprep_auth, Buf, pprep, srv_pprep_handshake, srv_pprep_handshake_reject, srv_pprep_sync,
}
use teavpn.Packet.Fields.{length-write}

pub length-pprep :
    (buf : Buf) (type data_len pad_len : ℕ)
    → length (pprep buf type data_len pad_len).1 ≡ length buf
unfolding pprep
length-pprep buf type data_len pad_len =
    length-set _ 1 pad_len ∙ (length-set _ 3 _ ∙ (length-set _ 2 _ ∙ length-set buf 0 type))

pub length-srv_pprep_handshake : (buf : Buf) → length (srv_pprep_handshake buf).1 ≡ length buf
unfolding srv_pprep_handshake
length-srv_pprep_handshake buf = length-pprep _ _ _ _ ∙ length-write buf 4 _

pub length-srv_pprep_handshake_reject :
    (buf : Buf) (reason : ℕ) (msg : Option (List ℕ))
    → length (srv_pprep_handshake_reject buf reason msg).1 ≡ length buf
unfolding srv_pprep_handshake_reject
length-srv_pprep_handshake_reject buf reason msg = length-pprep _ _ _ _ ∙ length-write buf 4 _

pub length-srv_pprep_sync : (buf : Buf) → length (srv_pprep_sync buf).1 ≡ length buf
unfolding srv_pprep_sync
length-srv_pprep_sync buf = length-pprep buf _ _ _

pub length-cli_pprep_auth :
    (buf : Buf) (user pass : List ℕ) → length (cli_pprep_auth buf user pass).1 ≡ length buf
unfolding cli_pprep_auth
length-cli_pprep_auth buf user pass =
    length-pprep _ _ _ _ ∙ (length-write _ 260 _ ∙ length-write buf 4 _)

-- The length of the packet itself.
pub pprep-length :
    (buf : Buf) (type data_len pad_len : ℕ) → (pprep buf type data_len pad_len).0 ≡ data_len + 4
unfolding pprep
pprep-length buf type data_len pad_len = refl
