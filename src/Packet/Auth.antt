-- ===== src/Packet/Auth.antt =====
-- The authentication packet: what the server reads is what the client put in.
use teavpn.Common.{ℕ, ◌≤◌, ◌≡◌, ◌∙◌, sym, ap, arith, List, set, take, drop, length}
use teavpn.Packet.{
  Buf, write, cstr, strncpy2, pkt_type, pkt_len, body, tcli_auth, size_auth, cli_pprep_auth,
}
use teavpn.Packet.Fields.{
  length-write, take-drop-write, take-drop-write_before, pprep-header, drop-pprep,
}
use teavpn.Packet.Strings.{length-strncpy2, cstr-set-strncpy2}

-- A name or a password as handle_clpkt_auth() reads it: the field with its last byte set to NUL.
abbrev pub credential : Buf → ℕ → List ℕ
credential buf at = cstr (set (body buf at 256) 255 0)

module _ (buf : Buf) (user pass : List ℕ) (room : 516 ≤ length buf) where
  abbrev named : Buf
  named = write buf 4 (strncpy2 user 256)

  abbrev filled : Buf
  filled = write named 260 (strncpy2 pass 256)

  length-filled : length filled ≡ length buf
  length-filled =
      length-write named 260 (strncpy2 pass 256) ∙ length-write buf 4 (strncpy2 user 256)

  user_field : take 256 (drop 4 filled) ≡ strncpy2 user 256
  user_field =
      take-drop-write_before named 260 4 256 (strncpy2 pass 256) (omega arith)
      ∙ (ap (λ k. take k (drop 4 named)) (sym (length-strncpy2 user 256))
          ∙ take-drop-write buf 4 (strncpy2 user 256) (omega (arith, length-strncpy2 user 256)))

  pass_field : take 256 (drop 260 filled) ≡ strncpy2 pass 256
  pass_field =
      ap (λ k. take k (drop 260 filled)) (sym (length-strncpy2 pass 256))
      ∙ take-drop-write named 260 (strncpy2 pass 256)
          (omega (arith, length-strncpy2 pass 256, length-write buf 4 (strncpy2 user 256)))

  -- The packet that `cli_pprep_auth` prepares in a buffer of at least 516 bytes has the type and the
  -- length of an authentication packet, and handle_clpkt_auth() reads from it the user's name and
  -- password, each cut off at 255 bytes.
  pub cli_pprep_auth_lem :
      let (n, buf') = cli_pprep_auth buf user pass in
      (n ≡ 516)
      × (pkt_type buf' ≡ tcli_auth)
      × (pkt_len buf' ≡ size_auth)
      × (credential buf' 0 ≡ take 255 (cstr user))
      × (credential buf' 256 ≡ take 255 (cstr pass))
  unfolding cli_pprep_auth
  cli_pprep_auth_lem =
      let (n, t, p, l, b, w) =
        pprep-header filled tcli_auth size_auth 0 (omega (arith, length-filled)) (omega arith) in
      (
        n,
        t,
        l,
        ap (λ d. cstr (set (take 256 d) 255 0))
              (drop-pprep filled tcli_auth size_auth 0 4 (omega arith))
            ∙ (ap (λ f. cstr (set f 255 0)) user_field ∙ cstr-set-strncpy2 user 255),
        ap (λ d. cstr (set (take 256 d) 255 0))
              (drop-pprep filled tcli_auth size_auth 0 260 (omega arith))
            ∙ (ap (λ f. cstr (set f 255 0)) pass_field ∙ cstr-set-strncpy2 pass 255),
      )
