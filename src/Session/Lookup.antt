-- ===== src/Session/Lookup.antt =====
-- What `lookup_udp_sess` finds in a valid pool.
use mathlib.Core.Bool.{false≢true}
use teavpn.Common.{
  ◌∙◌, sym, ap, ℕ, ◌<◌, ◌≡◌, ◌↔◌, refl, arith, true, false, none, some, List, [], ◌∷◌, count, byte0,
  byte1, Option-cases, inl, inr,
}
use teavpn.Session.{UdpSess, Pool, sess_at, cells, is_from, scan, lookup_udp_sess, addr_to_bkt}
use teavpn.Session.Valid.{IsValid, serves}

scan-eq-some :
    (arr : List UdpSess) (addr port i : ℕ) (l : List ℕ)
    → scan arr addr port l ≡ some i
    → (is_from (sess_at arr i) addr port ≡ true) × (0 < count i l)
unfolding scan
scan-eq-some arr addr port i [] h = cc
scan-eq-some arr addr port i (j ∷ l) h = ground (arith, scan-eq-some arr addr port i l)

scan-eq-none :
    (arr : List UdpSess) (addr port i : ℕ) (l : List ℕ)
    → scan arr addr port l ≡ none
    → is_from (sess_at arr i) addr port ≡ true
    → count i l ≡ 0
unfolding scan
scan-eq-none arr addr port i [] h e = refl
scan-eq-none arr addr port i (j ∷ l) h e = ground (arith, scan-eq-none arr addr port i l)

pub lookup-serves :
    {n : ℕ} {st : Pool} (i addr port : ℕ)
    → IsValid n st
    → lookup_udp_sess st addr port ≡ some i
    → serves st i addr port ≡ true
unfolding lookup_udp_sess
lookup-serves {st = st} i addr port v e = ground (
  arith,
  scan-eq-some st.sess_arr addr port i (cells (addr_to_bkt st.sess_map addr)),
  v.placed i (byte0 addr) (byte1 addr),
)

pub lookup-missed :
    {n : ℕ} {st : Pool} (i addr port : ℕ)
    → IsValid n st
    → lookup_udp_sess st addr port ≡ none
    → serves st i addr port ≡ false
unfolding lookup_udp_sess
lookup-missed {st = st} i addr port v e = ground (
  arith,
  scan-eq-none st.sess_arr addr port i (cells (addr_to_bkt st.sess_map addr)),
  v.placed i (byte0 addr) (byte1 addr),
)

-- A lookup finds a session exactly if that session is in use by the client at this address and port.
pub lookup_iff :
    {n : ℕ} {st : Pool} (i addr port : ℕ)
    → IsValid n st
    → (lookup_udp_sess st addr port ≡ some i) ↔ (serves st i addr port ≡ true)
lookup_iff {st = st} i addr port v = (
  lookup-serves i addr port v,
  λ h. elim (Option-cases (lookup_udp_sess st addr port)) [
    | inl e ↦ absurd (false≢true (sym (lookup-missed i addr port v e) ∙ h))
    | inr (j, e) ↦ rw e (ap some (v.unique j i addr port (lookup-serves j addr port v e) h))
  ],
)

-- Two lookups agree if the sessions that serve the client are the same.
pub lookup_congr :
    {n m : ℕ} {st st' : Pool} (addr port addr' port' : ℕ)
    → IsValid n st
    → IsValid m st'
    → ((i : ℕ) → serves st' i addr' port' ≡ serves st i addr port)
    → lookup_udp_sess st' addr' port' ≡ lookup_udp_sess st addr port
lookup_congr {st = st} {st' = st'} addr port addr' port' v v' same =
    elim (Option-cases (lookup_udp_sess st addr port)) [
      | inr (i, e) ↦ rw e ((lookup_iff i addr' port' v').1 (same i ∙ lookup-serves i addr port v e))
      | inl e ↦ elim (Option-cases (lookup_udp_sess st' addr' port')) [
        | inl e' ↦ rw (e, e')
        | inr (j, e') ↦ absurd (
            false≢true (
              sym (lookup-missed j addr port v e)
              ∙ (sym (same j) ∙ lookup-serves j addr' port' v' e')))
      ]
    ]
