-- ===== src/Session/Valid.antt =====
-- The invariant of the session pool.
use teavpn.Common.{
  ℕ, ◌+◌, ◌≤◌, ◌<◌, ◌^◌, ◌≡◌, Bool, true, ◌&&◌, none, [], ◌==◌, to_nat, length, count, byte0, byte1,
}
use teavpn.Stack.Lifo as StackValid
use teavpn.Stack.Lifo.{contents}
use teavpn.Session.{Pool, sess_at, cells, is_from}

-- Session `i` is in use.
abbrev pub in_use : Pool → ℕ → Bool
in_use st i = (sess_at st.sess_arr i).is_connected

-- Session `i` is in use by the client at `addr` and `port`.
abbrev pub serves : Pool → ℕ → ℕ → ℕ → Bool
serves st i addr port = in_use st i && is_from (sess_at st.sess_arr i) addr port

-- Session `i` is in use, and its address belongs to the bucket at `a` and `b`.
abbrev pub lives_at : Pool → ℕ → ℕ → ℕ → Bool
lives_at st i a b =
    let s = sess_at st.sess_arr i in
    in_use st i && ((byte0 s.src_addr == a) && (byte1 s.src_addr == b))

-- A pool of `n` sessions in a consistent state: each index is either on the stack of free indices or
-- in use, each session in use stands exactly once on the map and in the bucket of its address, and no
-- two sessions in use serve one client.
pub record IsValid (n : ℕ) (st : Pool) : Type 0 where
  pub small : n < 2 ^ 16
  pub size : length st.sess_arr ≡ n
  pub stack : StackValid.IsValid st.sess_stk
  pub capacity : st.sess_stk.max_sp ≡ n
  pub counted : st.n_on_sess + length (contents st.sess_stk) ≡ n
  pub indexed : (i : ℕ) → i < n → (sess_at st.sess_arr i).idx ≡ i
  pub free : (i : ℕ) → i < n → count i (contents st.sess_stk) + to_nat (in_use st i) ≡ 1
  pub no_more : (i : ℕ) → n ≤ i → count i (contents st.sess_stk) ≡ 0
  pub placed : (i a b : ℕ) → count i (cells (st.sess_map a b)) ≡ to_nat (lives_at st i a b)
  pub heads : (a b : ℕ) → (st.sess_map a b).sess ≡ none → (st.sess_map a b).next ≡ []
  pub unique :
      (i j addr port : ℕ) → serves st i addr port ≡ true → serves st j addr port ≡ true → i ≡ j
