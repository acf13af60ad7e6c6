-- ===== src/Session/Delete.antt =====
-- `delete_udp_session` on a valid pool.
use native.Mathlib.Decide.{dec_lt}
use mathlib.Core.Bool.{false≢true}
use teavpn.Common.{
  get_or-out, length-lt_of_missing, ℕ, ◌+◌, ◌-◌, ◌%◌, ◌^◌, ◌<◌, ◌≡◌, ◌≢◌, refl, ap, ◌∙◌, sym, subst,
  arith, true, false, none, some, List, [], ◌∷◌, ◌==◌, to_nat, length, count, byte0, byte1,
  Option-cases, Bool-cases, inl, inr, if◌then◌else◌, Ret, ret, set, length-set, grid_set,
}
use teavpn.Stack
use teavpn.Stack.Lifo.{contents, push-IsValid, push-room}
use teavpn.Session.{
  UdpSess, Bucket, Pool, sess_at, cells, is_from, lookup_udp_sess, addr_to_bkt, unlink, unlinked,
  refill, remove_sess_from_bkt, delete_udp_session, reset_udp_session,
}
use teavpn.Session.Valid.{IsValid, in_use, serves, lives_at}
use teavpn.Session.Lookup.{lookup-serves, lookup_congr}
use teavpn.Session.Insert.{sess_at-set}

unlink-eq-some :
    (l : List ℕ) (i : ℕ) {l' : List ℕ} (j : ℕ)
    → unlink l i ≡ some l'
    → count j l' + to_nat (j == i) ≡ count j l
unfolding unlink
unlink-eq-some [] i j e = cc
unlink-eq-some (k ∷ l) i {l'} j e = elim (Option-cases (unlink l i)) [
  | inl f ↦ ground arith
  | inr (m, f) ↦ ground (arith, unlink-eq-some l i j f)
]

unlink-eq-none : (l : List ℕ) (i : ℕ) → unlink l i ≡ none → count i l ≡ 0
unfolding unlink
unlink-eq-none [] i e = refl
unlink-eq-none (k ∷ l) i e = ground (arith, unlink-eq-none l i)

unlink-nil : (i : ℕ) → unlink [] i ≡ none
unfolding unlink
unlink-nil i = refl

refill-counts : (l : List ℕ) (j : ℕ) → count j (cells (refill l)) ≡ count j l
unfolding refill
refill-counts [] j = refl
refill-counts (k ∷ l) j = refl

refill-heads : (l : List ℕ) → (refill l).sess ≡ none → (refill l).next ≡ []
unfolding refill
refill-heads [] e = refl
refill-heads (k ∷ l) e = cc

record Removed (bkt : Bucket) (i : ℕ) (b' : Bucket) : Type 0 where
  counts : (j : ℕ) → count j (cells b') + to_nat (j == i) ≡ count j (cells bkt)
  heads : b'.sess ≡ none → b'.next ≡ []

remove-eq-some :
    (bkt : Bucket) (i : ℕ) {b' : Bucket}
    → (bkt.sess ≡ none → bkt.next ≡ [])
    → remove_sess_from_bkt bkt i ≡ some b'
    → Removed bkt i b'
unfolding remove_sess_from_bkt unlinked
remove-eq-some bkt i {b'} heads e = elim (Option-cases (unlink bkt.next i)) [
  | inl f ↦ record {
    counts = λ j. ground (arith, refill-counts bkt.next j, heads);
    heads = ground (arith, refill-heads bkt.next, heads, unlink-nil i);
  }
  | inr (m, f) ↦ record {
    counts = λ j. ground (arith, refill-counts bkt.next j, unlink-eq-some bkt.next i j f, heads);
    heads = ground (arith, refill-heads bkt.next, heads, unlink-nil i);
  }
]

remove-eq-none :
    (bkt : Bucket) (i : ℕ) → remove_sess_from_bkt bkt i ≡ none → count i (cells bkt) ≡ 0
unfolding remove_sess_from_bkt unlinked
remove-eq-none bkt i e = ground (arith, unlink-eq-none bkt.next i)

module _ {n : ℕ} {st : Pool} (v : IsValid n st) (i : ℕ) (used : in_use st i ≡ true) where
  pub used_lt : i < n
  used_lt = elim (dec_lt i n) [
    | yes h ↦ h
    | no h ↦ absurd (
        false≢true (
          ap UdpSess.is_connected
            (sym (get_or-out st.sess_arr i (reset_udp_session 0) (omega (arith, v.size))))
          ∙ used))
  ]

  pub free_room : length (contents st.sess_stk) < n
  free_room =
      length-lt_of_missing n (contents st.sess_stk) i v.no_more (λ j h. omega (arith, v.free j h))
        used_lt (ground (arith, v.free i used_lt))

  -- the pool after the removal, `bkt` being what is left of the bucket
  module _ (bkt : Bucket) where
    abbrev pub closed : Pool
    closed = record {
      sess_stk = (Stack.push st.sess_stk i).1;
      sess_map =
          grid_set st.sess_map (byte0 (sess_at st.sess_arr i).src_addr)
            (byte1 (sess_at st.sess_arr i).src_addr) bkt;
      sess_arr = set st.sess_arr i (reset_udp_session i);
      n_on_sess = (st.n_on_sess + (2 ^ 16 - 1)) % 2 ^ 16;
    }

    closed-sess_at :
        (j : ℕ)
        → sess_at closed.sess_arr j
          ≡ (if i == j then reset_udp_session i else sess_at st.sess_arr j)
    closed-sess_at j =
        sess_at-set st.sess_arr i j (reset_udp_session i) (omega (arith, used_lt, v.size))

    closed-serves : (j a p : ℕ) → serves closed j a p ≡ (if i == j then false else serves st j a p)
    closed-serves j a p = ground (arith, closed-sess_at j)

    pushed : contents (Stack.push st.sess_stk i).1 ≡ i ∷ contents st.sess_stk
    pushed = (push-room i v.stack (omega (arith, free_room, v.capacity))).1

    module _ (cut : Removed (addr_to_bkt st.sess_map (sess_at st.sess_arr i).src_addr) i bkt) where
      closed-placed :
          (j a b : ℕ) → count j (cells (closed.sess_map a b)) ≡ to_nat (lives_at closed j a b)
      unfolding grid_set
      closed-placed j a b = ground (arith, closed-sess_at j, v.placed j a b, cut.counts j)

      closed-heads : (a b : ℕ) → (closed.sess_map a b).sess ≡ none → (closed.sess_map a b).next ≡ []
      unfolding grid_set
      closed-heads a b e = ground (arith, v.heads a b, cut.heads)

      closed-IsValid : IsValid n closed
      closed-IsValid = record {
        small = v.small;
        size = length-set st.sess_arr i _ ∙ v.size;
        stack = (push-IsValid i v.stack).0;
        capacity = (push-IsValid i v.stack).1 ∙ v.capacity;
        counted = rw pushed (omega (arith, free_room, v.counted, v.small));
        indexed = λ j h. ground (arith, closed-sess_at j, v.indexed j h);
        free = λ j h. rw pushed (ground (arith, closed-sess_at j, v.free j h));
        no_more = λ j h. rw pushed (ground (arith, v.no_more j h, used_lt));
        placed = closed-placed;
        heads = closed-heads;
        unique = λ j k a p hj hk.
            ground (arith, closed-serves j a p, closed-serves k a p, v.unique j k a p);
      }

  closed-lookup :
      (bkt : Bucket)
      → IsValid n (closed bkt)
      → (a p : ℕ)
      → lookup_udp_sess (closed bkt) a p
        ≡ (if is_from (sess_at st.sess_arr i) a p then none else lookup_udp_sess st a p)
  closed-lookup bkt v' a p = elim (Bool-cases (is_from (sess_at st.sess_arr i) a p)) [
    | inl e ↦ rw e (elim (Option-cases (lookup_udp_sess (closed bkt) a p)) [
      | inl f ↦ f
      | inr (j, f) ↦
          absurd
            (ground (arith, lookup-serves j a p v' f, closed-serves bkt j a p, v.unique i j a p))
    ])
    | inr e ↦ rw e (lookup_congr a p a p v v' (λ j. ground (arith, closed-serves bkt j a p)))
  ]

  found_in_bucket :
      remove_sess_from_bkt (addr_to_bkt st.sess_map (sess_at st.sess_arr i).src_addr) i ≢ none
  found_in_bucket e =
      let s = sess_at st.sess_arr i in
      ground (
        arith,
        remove-eq-none (addr_to_bkt st.sess_map s.src_addr) i e,
        v.placed i (byte0 s.src_addr) (byte1 s.src_addr),
      )

-- What a call that ends session `i` leaves.
abbrev pub Deletes : ℕ → Pool → ℕ → Ret × Pool → Type 0
Deletes n st i (r, st') =
    (r ≡ ret 0)
    × IsValid n st'
    × (sess_at st'.sess_arr i ≡ reset_udp_session i)
    × ((j : ℕ) → j ≢ i → sess_at st'.sess_arr j ≡ sess_at st.sess_arr j)
    × (st'.n_on_sess + 1 ≡ st.n_on_sess)
    × ((a p : ℕ)
        → lookup_udp_sess st' a p
          ≡ (if is_from (sess_at st.sess_arr i) a p then none else lookup_udp_sess st a p))

-- Of a session in use, `delete_udp_session` returns 0, keeps the pool valid, resets the session, and
-- counts one less. Its client is not found afterwards; every other session and every other lookup is
-- as before.
pub delete_udp_session_lem :
    {n : ℕ} {st : Pool} (i : ℕ)
    → IsValid n st
    → in_use st i ≡ true
    → Deletes n st i (delete_udp_session st i)
unfolding delete_udp_session
delete_udp_session_lem {n} {st} i v used =
    let s = sess_at st.sess_arr i in
    let old = addr_to_bkt st.sess_map s.src_addr in
    elim (Option-cases (remove_sess_from_bkt old i)) [
      | inl e ↦ absurd (found_in_bucket v i used e)
      | inr (bkt, e) ↦
          let cut = remove-eq-some old i (v.heads (byte0 s.src_addr) (byte1 s.src_addr)) e in
          let v' = closed-IsValid v i used bkt cut in
          subst (Deletes n st i) {x = (ret 0, closed v i used bkt)}
            (rw (e, delete_udp_session, v.indexed i (used_lt v i used)))
            (
              refl,
              v',
              ground (arith, closed-sess_at v i used bkt i),
              λ j ne. ground (arith, closed-sess_at v i used bkt j),
              omega (arith, free_room v i used, v.counted, v.small),
              closed-lookup v i used bkt v',
            )
    ]
