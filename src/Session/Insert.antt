-- ===== src/Session/Insert.antt =====
-- The pools that `create_udp_sess` leaves after it has taken an index off the stack.
use teavpn.Common.{
  grid_set, ◌%◌, ◌^◌, ℕ, ◌+◌, ◌<◌, ◌≡◌, ◌≢◌, ◌∙◌, sym, arith, Bool, false, ◌&&◌, Option, none, some,
  List, [], ◌∷◌, ◌==◌, to_nat, length, count, count-append, byte0, byte1, Bool-cases, inl, inr,
  if◌then◌else◌, set, get_or-set, length-set,
}
use teavpn.Stack
use teavpn.Stack.Lifo.{contents, pop-IsValid, push-IsValid, pop-cons, push-room}
use teavpn.Session.{
  UdpSess, Bucket, Pool, sess_at, cells, lookup_udp_sess, addr_to_bkt, map_insert,
  reset_udp_session, addressed, connected,
}
use teavpn.Session.Valid.{IsValid, in_use, serves, lives_at}
use teavpn.Session.Lookup.{lookup_iff, lookup_congr}

-- An insertion puts the session behind those of the bucket.
map_insert-eq-some :
    (allocated : Bool) (b b' : Bucket) (i : ℕ)
    → (b.sess ≡ none → b.next ≡ [])
    → map_insert allocated b i ≡ some b'
    → ((j : ℕ) → count j (cells b') ≡ count j (cells b) + to_nat (j == i)) × (b'.sess ≢ none)
unfolding map_insert
map_insert-eq-some allocated b b' i heads e =
    (λ j. ground (arith, count-append j b.next (i ∷ [])), ground arith)

pub sess_at-set :
    (arr : List UdpSess) (i j : ℕ) (s : UdpSess)
    → i < length arr
    → sess_at (set arr i s) j ≡ (if i == j then s else sess_at arr j)
sess_at-set arr i j s h = ground (arith, get_or-set arr i j s (reset_udp_session 0))

module _ {n : ℕ} {st : Pool} (v : IsValid n st) {idx : ℕ} {rest : List ℕ}
    (top : contents st.sess_stk ≡ idx ∷ rest) where
  pub idx_lt : idx < n
  idx_lt = ground (arith, v.no_more idx)

  pub idle : in_use st idx ≡ false
  idle = ground (arith, v.free idx idx_lt)

module _ {n : ℕ} {st : Pool} (v : IsValid n st) {idx : ℕ} {rest : List ℕ}
    (top : contents st.sess_stk ≡ idx ∷ rest) (now : Option ℕ) (addr port : ℕ) where
  abbrev pub popped : Stack.BtStack
  popped = (Stack.pop st.sess_stk).1

  -- the pool after a failed allocation
  abbrev pub given_back : Pool
  given_back = record st {
    sess_stk = (Stack.push popped idx).1;
    sess_arr = set st.sess_arr idx (addressed addr port (sess_at st.sess_arr idx));
  }

  pushed_back : contents (Stack.push popped idx).1 ≡ contents st.sess_stk
  pushed_back = ground (
    arith,
    push-room idx (pop-IsValid v.stack).0,
    pop-cons v.stack top,
    pop-IsValid v.stack,
    v.counted,
    v.capacity,
  )

  pub renamed :
      (j : ℕ)
      → sess_at given_back.sess_arr j ≡ (
          if idx == j then addressed addr port (sess_at st.sess_arr idx) else sess_at st.sess_arr j)
  renamed j =
      sess_at-set st.sess_arr idx j (addressed addr port (sess_at st.sess_arr idx))
        (omega (arith, idx_lt v top, v.size))

  pub given_back-serves : (j a p : ℕ) → serves given_back j a p ≡ serves st j a p
  given_back-serves j a p = ground (arith, renamed j, idle v top)

  pub given_back-IsValid : IsValid n given_back
  given_back-IsValid = record {
    small = v.small;
    size = length-set st.sess_arr idx _ ∙ v.size;
    stack = (push-IsValid idx (pop-IsValid v.stack).0).0;
    capacity =
        (push-IsValid idx (pop-IsValid v.stack).0).1 ∙ ((pop-IsValid v.stack).1 ∙ v.capacity);
    counted = rw pushed_back v.counted;
    indexed = λ i h. ground (arith, renamed i, v.indexed i h);
    free = λ i h. rw pushed_back (ground (arith, renamed i, v.free i h));
    no_more = rw pushed_back v.no_more;
    placed = λ i a b. ground (arith, renamed i, v.placed i a b, idle v top);
    heads = v.heads;
    unique = λ i j a p hi hj.
        v.unique i j a p (sym (given_back-serves i a p) ∙ hi) (sym (given_back-serves j a p) ∙ hj);
  }

  -- the pool after the session is put on the map
  module _ (bkt : Bucket) where
    abbrev pub opened : Pool
    opened = record {
      sess_stk = popped;
      sess_map = grid_set st.sess_map (byte0 addr) (byte1 addr) bkt;
      sess_arr =
          set st.sess_arr idx (connected now (addressed addr port (sess_at st.sess_arr idx)));
      n_on_sess = (st.n_on_sess + 1) % 2 ^ 16;
    }

    pub opened-sess_at :
        (j : ℕ)
        → sess_at opened.sess_arr j ≡ (
            if idx == j
            then connected now (addressed addr port (sess_at st.sess_arr idx))
            else sess_at st.sess_arr j)
    opened-sess_at j =
        sess_at-set st.sess_arr idx j
          (connected now (addressed addr port (sess_at st.sess_arr idx)))
          (omega (arith, idx_lt v top, v.size))

    pub opened-serves :
        (j a p : ℕ)
        → serves opened j a p ≡ (if idx == j then (addr == a) && (port == p) else serves st j a p)
    opened-serves j a p = ground (arith, opened-sess_at j)

    module _ (allocated : Bool)
        (inserted : map_insert allocated (addr_to_bkt st.sess_map addr) idx ≡ some bkt)
        (fresh : (j : ℕ) → serves st j addr port ≡ false) where
      opened-placed :
          (i a b : ℕ) → count i (cells (opened.sess_map a b)) ≡ to_nat (lives_at opened i a b)
      unfolding grid_set
      opened-placed i a b = ground (
        arith,
        opened-sess_at i,
        v.placed i a b,
        idle v top,
        (map_insert-eq-some allocated (addr_to_bkt st.sess_map addr) bkt idx
              (v.heads (byte0 addr) (byte1 addr)) inserted).0
            i,
      )

      opened-heads : (a b : ℕ) → (opened.sess_map a b).sess ≡ none → (opened.sess_map a b).next ≡ []
      unfolding grid_set
      opened-heads a b e = ground (
        arith,
        v.heads a b,
        (map_insert-eq-some allocated (addr_to_bkt st.sess_map addr) bkt idx
            (v.heads (byte0 addr) (byte1 addr)) inserted).1,
      )

      pub opened-IsValid : IsValid n opened
      opened-IsValid = record {
        small = v.small;
        size = length-set st.sess_arr idx _ ∙ v.size;
        stack = (pop-IsValid v.stack).0;
        capacity = (pop-IsValid v.stack).1 ∙ v.capacity;
        counted = ground (arith, pop-cons v.stack top, v.counted, v.small);
        indexed = λ i h. ground (arith, opened-sess_at i, v.indexed i h);
        free = λ i h. rw (pop-cons v.stack top).1 (ground (arith, opened-sess_at i, v.free i h));
        no_more = λ i h. rw (pop-cons v.stack top).1 (ground (arith, v.no_more i h));
        placed = opened-placed;
        heads = opened-heads;
        unique = λ i j a p hi hj.
            ground
              (arith, opened-serves i a p, opened-serves j a p, v.unique i j a p, fresh i, fresh j);
      }

      pub opened-lookup :
          (a p : ℕ)
          → lookup_udp_sess opened a p
            ≡ (if (addr == a) && (port == p) then some idx else lookup_udp_sess st a p)
      opened-lookup a p = elim (Bool-cases ((addr == a) && (port == p))) [
        | inl e ↦
            rw e ((lookup_iff idx a p opened-IsValid).1 (ground (arith, opened-serves idx a p)))
        | inr e ↦ rw e (
            lookup_congr a p a p v opened-IsValid
              λ j. ground (arith, opened-serves j a p, idle v top))
      ]
