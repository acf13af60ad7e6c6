-- ===== src/TunFds/Held.antt =====
-- The descriptors in the slots.
use teavpn.Common.{
  ℕ, zero, suc, ◌+◌, ◌≤◌, ◌<◌, ◌≡◌, ◌≢◌, ltb, refl, ◌∙◌, arith, Bool, true, false, Bool-cases, inl,
  inr, Option, none, some, List, [], ◌∷◌, ◌==◌, if◌then◌else◌, get_or, set, length, length-set,
  get_or-set,
}
use teavpn.Epoll.Adds.{times}
use teavpn.TunFds.{TunFds, close_fd, close_down}

-- How often a descriptor is held.
abbrev pub one : ℕ → Option ℕ → ℕ
one fd none = 0
one fd (some x) = if x == fd then 1 else 0

abbrev pub held : ℕ → List (Option ℕ) → ℕ
held fd [] = 0
held fd (x ∷ xs) = one fd x + held fd xs

pub held-set :
    (fd : ℕ) (xs : List (Option ℕ)) (i : ℕ) (v : Option ℕ)
    → i < length xs
    → held fd (set xs i v) + one fd (get_or xs i none) ≡ held fd xs + one fd v
held-set fd [] i v h = absurd (omega arith)
held-set fd (x ∷ xs) zero v h = omega arith
held-set fd (x ∷ xs) (suc i) v h = omega (arith, held-set fd xs i v (omega arith))

-- The slots from `i` on are free.
abbrev pub FreeFrom : ℕ → List (Option ℕ) → Type 0
FreeFrom i xs = (j : ℕ) → i ≤ j → get_or xs j none ≡ none

pub held-free : (fd : ℕ) (xs : List (Option ℕ)) → FreeFrom 0 xs → held fd xs ≡ 0
held-free fd [] h = refl
held-free fd (x ∷ xs) h =
    let first : x ≡ none = h 0 (omega arith) in
    let rest = held-free fd xs (λ j g. h (suc j) (omega arith)) in rw first (omega (arith, rest))

pub times-close_fd :
    (fd : ℕ) (o : Option ℕ) (closed : List ℕ)
    → times fd (close_fd o closed) ≡ one fd o + times fd closed
times-close_fd fd none closed = omega arith
times-close_fd fd (some x) closed = elim (Bool-cases (x == fd)) [
  | inl e ↦ rw e (omega arith)
  | inr e ↦ rw e (omega arith)
]

-- Opened, held and closed descriptors before and after.
pub close_down-held :
    (fd i : ℕ) (st : TunFds)
    → i ≤ length st.tun_fds
    → let st' = close_down i st in
      (held fd st'.tun_fds + times fd st'.closed ≡ held fd st.tun_fds + times fd st.closed)
      × (st'.opened ≡ st.opened)
unfolding close_down
close_down-held fd zero st h = (refl, refl)
close_down-held fd (suc i) st h =
    let o = get_or st.tun_fds i none in
    let next = record st { tun_fds = set st.tun_fds i none; closed = close_fd o st.closed } in
    let (rest, same) = close_down-held fd i next (omega (arith, length-set st.tun_fds i none)) in
    (
      omega
          (arith, rest, held-set fd st.tun_fds i none (omega arith), times-close_fd fd o st.closed),
      same,
    )

either_way : (b : Bool) (o : Option ℕ) → (if b then o else o) ≡ o
either_way true o = refl
either_way false o = refl

differ : (i j : ℕ) → (i == j) ≡ false → i ≢ j
differ i j h = ground arith

pub close_down-free :
    (i : ℕ) (st : TunFds) → FreeFrom i st.tun_fds → FreeFrom 0 (close_down i st).tun_fds
unfolding close_down
close_down-free zero st h = h
close_down-free (suc i) st h =
    close_down-free i
      (record st {
        tun_fds = set st.tun_fds i none;
        closed = close_fd (get_or st.tun_fds i none) st.closed;
      })
      (λ j g. freed j (get_or-set st.tun_fds i j none none) g)
  where
    freed :
        (j : ℕ)
        → get_or (set st.tun_fds i none) j none ≡ (
            if i == j
            then if ltb i (length st.tun_fds) then none else none
            else get_or st.tun_fds j none)
        → i ≤ j
        → get_or (set st.tun_fds i none) j none ≡ none
    freed j e g = elim (Bool-cases (i == j)) [
      | inl k ↦ e ∙ rw k (either_way (ltb i (length st.tun_fds)) none)
      | inr k ↦ e ∙ rw k (h j (omega (arith, differ i j k)))
    ]
