-- ===== src/TunFds/Opens.antt =====
-- What one round opens and closes.
use teavpn.Common.{
  ℕ, ◌+◌, ◌≡◌, refl, sym, ◌∙◌, ap, subst, arith, Bool, true, false, some, List, [], ◌∷◌,
  if◌then◌else◌, Ret, ret, fail, enetdown,
}
use teavpn.Epoll.Adds.{times}
use teavpn.TunFds.{TunFds, alloc_fd, set_nonblock, open_fd}
use teavpn.TunFds.Held.{one, times-close_fd}

-- What one round has opened and closed, and its slots.
abbrev pub Opens : TunFds → Ret × TunFds → Type 0
Opens st (r, st') =
    (st'.tun_fds ≡ st.tun_fds)
    × ((fd : ℕ)
        → times fd st'.opened + times fd st.closed
          ≡ got fd r + (times fd st.opened + times fd st'.closed))
  where
    got : ℕ → Ret → ℕ
    got fd (ret x) = one fd (some x)
    got fd (fail e) = 0

module _ (st : TunFds) where
  alloc_none : st.allocs ≡ [] → alloc_fd st ≡ (fail enetdown, record st { allocs = [] })
  unfolding alloc_fd
  alloc_none e = rw (alloc_fd, e) (ap (λ l. (fail enetdown, record st { allocs = l })) e)

  alloc_fail :
      (n : ℕ) (rest : List Ret)
      → st.allocs ≡ fail n ∷ rest
      → alloc_fd st ≡ (fail n, record st { allocs = rest })
  unfolding alloc_fd
  alloc_fail n rest e = rw (alloc_fd, e) refl

  alloc_ret :
      (x : ℕ) (rest : List Ret)
      → st.allocs ≡ ret x ∷ rest
      → alloc_fd st ≡ (ret x, record st { allocs = rest; opened = x ∷ st.opened })
  unfolding alloc_fd
  alloc_ret x rest e = rw (alloc_fd, e) refl

  alloc_fd-Opens : Opens st (alloc_fd st)
  alloc_fd-Opens = go st.allocs refl
    where
      go : (answers : List Ret) → st.allocs ≡ answers → Opens st (alloc_fd st)
      go [] e = subst (Opens st) (sym (alloc_none e)) (refl, λ fd. omega arith)
      go (fail n ∷ rest) e = subst (Opens st) (sym (alloc_fail n rest e)) (refl, λ fd. omega arith)
      go (ret x ∷ rest) e =
          subst (Opens st) (sym (alloc_ret x rest e))
            (refl, λ fd. omega (arith, times-close_fd fd (some x) st.opened))

  -- Making it non-blocking opens nothing, and closes it if that fails.
  abbrev Keeps : ℕ → Ret × TunFds → Type 0
  Keeps x (r, st') = (st'.tun_fds ≡ st.tun_fds) × (st'.opened ≡ st.opened) × (elim r [
    | ret y ↦ (y ≡ x) × (st'.closed ≡ st.closed)
    | fail e ↦ st'.closed ≡ x ∷ st.closed
  ])

  nonblock_none :
      (x : ℕ)
      → st.nonblocks ≡ []
      → set_nonblock x st ≡ (fail enetdown, record st { nonblocks = []; closed = x ∷ st.closed })
  unfolding set_nonblock
  nonblock_none x e =
      rw (set_nonblock, e)
        (ap (λ l. (fail enetdown, record st { nonblocks = l; closed = x ∷ st.closed })) e)

  nonblock_fail :
      (x n : ℕ) (rest : List Ret)
      → st.nonblocks ≡ fail n ∷ rest
      → set_nonblock x st ≡ (fail n, record st { nonblocks = rest; closed = x ∷ st.closed })
  unfolding set_nonblock
  nonblock_fail x n rest e = rw (set_nonblock, e) refl

  nonblock_ret :
      (x n : ℕ) (rest : List Ret)
      → st.nonblocks ≡ ret n ∷ rest
      → set_nonblock x st ≡ (ret x, record st { nonblocks = rest; last = n })
  unfolding set_nonblock
  nonblock_ret x n rest e = rw (set_nonblock, e) refl

  set_nonblock-Keeps : (x : ℕ) → Keeps x (set_nonblock x st)
  set_nonblock-Keeps x = go st.nonblocks refl
    where
      go : (answers : List Ret) → st.nonblocks ≡ answers → Keeps x (set_nonblock x st)
      go [] e = subst (Keeps x) (sym (nonblock_none x e)) (refl, refl, refl)
      go (fail n ∷ rest) e = subst (Keeps x) (sym (nonblock_fail x n rest e)) (refl, refl, refl)
      go (ret n ∷ rest) e =
          subst (Keeps x) (sym (nonblock_ret x n rest e)) (refl, refl, (refl, refl))

Keeps-Opens :
    (st st' : TunFds) (x : ℕ) (q : Ret × TunFds)
    → Opens st (ret x, st')
    → Keeps st' x q
    → Opens st q
Keeps-Opens st st' x (ret y, last) (slots, sum) (slots', opened, (same, closed)) = (
  slots' ∙ slots,
  λ fd.
      omega
        (arith, sum fd, ap (times fd) opened, ap (times fd) closed, ap (λ z. one fd (some z)) same),
)
Keeps-Opens st st' x (fail e, last) (slots, sum) (slots', opened, closed) = (
  slots' ∙ slots,
  λ fd. omega (
    arith,
    sum fd,
    ap (times fd) opened,
    ap (times fd) closed,
    times-close_fd fd (some x) st'.closed,
  ),
)

module _ (io_uring : Bool) (st : TunFds) where
  pub open_fd-Opens : Opens st (open_fd io_uring st)
  unfolding open_fd
  open_fd-Opens = go (alloc_fd st) io_uring (alloc_fd-Opens st)
    where
      go :
          (r : Ret × TunFds) (b : Bool)
          → Opens st r
          → Opens st (elim r.0 as (λ x. Ret × TunFds) [
            | fail e ↦ (fail e, r.1)
            | ret fd ↦ if b then (ret fd, r.1) else set_nonblock fd r.1
          ])
      go (fail e, st') b o = o
      go (ret x, st') true o = o
      go (ret x, st') false o =
          Keeps-Opens st st' x (set_nonblock x st') o (set_nonblock-Keeps st' x)
