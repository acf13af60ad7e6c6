-- ===== src/Session/Create.antt =====
-- `create_udp_sess` on a valid pool.
use teavpn.Common.{
  ◌≢◌, subst, ℕ, ◌+◌, ◌<◌, ◌≡◌, ◌≢◌, refl, sym, arith, Bool, false, ◌&&◌, Option, none, some, List,
  [], ◌∷◌, ◌==◌, Option-cases, inl, inr, if◌then◌else◌, Ret, ret, fail, eagain, enomem, ◌⊎◌,
}
use teavpn.Stack.Lifo.{contents, pop-nil, pop-cons}
use teavpn.Session.{
  Pool, sess_at, lookup_udp_sess, addr_to_bkt, map_insert, create_udp_sess, addressed, connected,
}
use teavpn.Session.Valid.{IsValid, in_use}
use teavpn.Session.Lookup.{lookup-missed, lookup_congr}
use teavpn.Session.Insert.{
  renamed, given_back, given_back-serves, given_back-IsValid, opened, opened-sess_at,
  opened-IsValid, opened-lookup, idle, idx_lt,
}

-- A full pool is left as it is.
pub create_full :
    {n : ℕ} {st : Pool} (allocated : Bool) (now : Option ℕ) (addr port : ℕ)
    → IsValid n st
    → contents st.sess_stk ≡ []
    → create_udp_sess allocated now st addr port ≡ (fail eagain, st)
unfolding create_udp_sess
create_full {st = st} allocated now addr port v e =
    rw (pop-nil v.stack e, create_udp_sess, pop-nil v.stack e)

-- What a call reports and leaves, from a pool of `n` places with no session for the client.
abbrev pub Creates : ℕ → Bool → Option ℕ → Pool → ℕ → ℕ → Ret × Pool → Type 0
Creates n allocated now st addr port (r, st') = IsValid n st' × elim r [
  | ret i ↦
      (i < n)
      × (in_use st i ≡ false)
      × (sess_at st'.sess_arr i ≡ connected now (addressed addr port (sess_at st.sess_arr i)))
      × ((j : ℕ) → j ≢ i → sess_at st'.sess_arr j ≡ sess_at st.sess_arr j)
      × (st'.n_on_sess ≡ st.n_on_sess + 1)
      × ((a p : ℕ)
          → lookup_udp_sess st' a p
            ≡ (if (addr == a) && (port == p) then some i else lookup_udp_sess st a p))
  | fail e ↦
      (((e ≡ eagain) × (st.n_on_sess ≡ n)) ⊎ ((e ≡ enomem) × (allocated ≡ false)))
      × ((j : ℕ)
          → let s = sess_at st'.sess_arr j in
            s ≡ addressed s.src_addr s.src_port (sess_at st.sess_arr j))
      × (st'.n_on_sess ≡ st.n_on_sess)
      × ((a p : ℕ) → lookup_udp_sess st' a p ≡ lookup_udp_sess st a p)
]

module _ {n : ℕ} {st : Pool} (allocated : Bool) (now : Option ℕ) (addr port : ℕ)
    (v : IsValid n st) where
  create_taken :
      {idx : ℕ} {rest : List ℕ}
      → contents st.sess_stk ≡ idx ∷ rest
      → lookup_udp_sess st addr port ≡ none
      → Creates n allocated now st addr port (create_udp_sess allocated now st addr port)
  unfolding create_udp_sess map_insert
  create_taken {idx} {rest} top missed =
      elim (Option-cases (map_insert allocated (addr_to_bkt st.sess_map addr) idx)) [
        | inl e ↦
            subst (Creates n allocated now st addr port)
              {x = (fail enomem, given_back v top now addr port)}
              (rw ((pop-cons v.stack top).0, create_udp_sess, e))
              (
                given_back-IsValid v top now addr port,
                (
                  inr (refl, ground arith),
                  λ j. ground (arith, renamed v top now addr port j),
                  refl,
                  λ a p.
                      lookup_congr a p a p v (given_back-IsValid v top now addr port)
                        (λ j. given_back-serves v top now addr port j a p),
                ),
              )
        | inr (bkt, e) ↦
            let fresh = λ (j : ℕ). lookup-missed j addr port v missed in
            subst (Creates n allocated now st addr port)
              {x = (ret idx, opened v top now addr port bkt)}
              (rw ((pop-cons v.stack top).0, create_udp_sess, e))
              (
                opened-IsValid v top now addr port bkt allocated e fresh,
                (
                  idx_lt v top,
                  idle v top,
                  ground (arith, opened-sess_at v top now addr port bkt idx),
                  λ j ne. ground (arith, opened-sess_at v top now addr port bkt j),
                  ground (arith, v.counted, v.small, pop-cons v.stack top),
                  opened-lookup v top now addr port bkt allocated e fresh,
                ),
              )
      ]

  -- For a client that has no session, `create_udp_sess` keeps the pool valid. Where it returns a
  -- session, that one was free, is connected with the client's address and port and the time, counts
  -- as one more, and is found for this client; every other session and lookup is as before. Where it
  -- fails, the pool was full (EAGAIN) or there was no memory (ENOMEM), no lookup and no count changes,
  -- and sessions differ at most in the address fields.
  pub create_udp_sess_lem :
      lookup_udp_sess st addr port ≡ none
      → Creates n allocated now st addr port (create_udp_sess allocated now st addr port)
  create_udp_sess_lem missed = by_stack (contents st.sess_stk) refl
    where
      by_stack :
          (l : List ℕ)
          → contents st.sess_stk ≡ l
          → Creates n allocated now st addr port (create_udp_sess allocated now st addr port)
      by_stack [] e =
          subst (Creates n allocated now st addr port) {x = (fail eagain, st)}
            (sym (create_full allocated now addr port v e))
            (v, (inl (refl, ground (arith, v.counted)), λ j. refl, refl, λ a p. refl))
      by_stack (i ∷ rest) e = create_taken e missed
