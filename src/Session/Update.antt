-- ===== src/Session/Update.antt =====
-- A change of a session that keeps its client, its index and its connection keeps the pool valid.
use teavpn.Common.{ℕ, ◌≡◌, ◌∙◌, sym, arith, set, length-set, get_or-set, get_or-out}
use teavpn.Session.{UdpSess, Pool, sess_at, reset_udp_session, lookup_udp_sess}
use teavpn.Session.Valid.{IsValid, serves}
use teavpn.Session.Lookup.{lookup_congr}

-- The part of a session that the invariant of the pool reads.
pub record SameClient (s s' : UdpSess) : Type 0 where
  pub idx : s'.idx ≡ s.idx
  pub src_addr : s'.src_addr ≡ s.src_addr
  pub src_port : s'.src_port ≡ s.src_port
  pub is_connected : s'.is_connected ≡ s.is_connected

abbrev pub changed : Pool → ℕ → UdpSess → Pool
changed st i s = record st { sess_arr = set st.sess_arr i s }

module _ {n : ℕ} {st : Pool} (v : IsValid n st) (i : ℕ) (s : UdpSess)
    (same : SameClient (sess_at st.sess_arr i) s) where
  agrees : (j : ℕ) → SameClient (sess_at st.sess_arr j) (sess_at (changed st i s).sess_arr j)
  agrees j = ground (
    arith,
    get_or-set st.sess_arr i j s (reset_udp_session 0),
    get_or-out st.sess_arr i (reset_udp_session 0),
  )

  agrees-serves : (j a p : ℕ) → serves (changed st i s) j a p ≡ serves st j a p
  agrees-serves j a p = ground (arith, agrees j)

  pub changed-IsValid : IsValid n (changed st i s)
  changed-IsValid = record {
    small = v.small;
    size = length-set st.sess_arr i s ∙ v.size;
    stack = v.stack;
    capacity = v.capacity;
    counted = v.counted;
    indexed = λ j h. (agrees j).idx ∙ v.indexed j h;
    free = λ j h. rw ((agrees j).is_connected) (v.free j h);
    no_more = v.no_more;
    placed = λ j a b. ground (arith, agrees j, v.placed j a b);
    heads = v.heads;
    unique = λ j k a p hj hk.
        v.unique j k a p (sym (agrees-serves j a p) ∙ hj) (sym (agrees-serves k a p) ∙ hk);
  }

  pub changed-lookup : (a p : ℕ) → lookup_udp_sess (changed st i s) a p ≡ lookup_udp_sess st a p
  changed-lookup a p = lookup_congr a p a p v changed-IsValid (λ j. agrees-serves j a p)
