-- ===== src/Epoll/Adds.antt =====
-- What each part of the set-up registers.
use teavpn.Common.{
  ℕ, zero, suc, ◌+◌, ◌≡◌, refl, arith, false, Bool-cases, inl, inr, Option, List, [], ◌∷◌, ◌==◌,
  if◌then◌else◌, get_or, Ret, ret, fail,
}
use teavpn.Epoll.{
  Fds, Watch, Registry, asked, unless_failed, epoll_add, init_epoll_fd_add, init_epoll_thread,
  alloc_pkt, one_thread, threads_from,
}

-- How often a descriptor is registered, and how often it stands in a list.
abbrev pub watched : ℕ → List Watch → ℕ
watched fd [] = 0
watched fd (w ∷ ws) = if w.fd == fd then suc (watched fd ws) else watched fd ws

abbrev pub times : ℕ → List ℕ → ℕ
times fd [] = 0
times fd (x ∷ xs) = if x == fd then suc (times fd xs) else times fd xs

-- What a thread is to register.
abbrev pub share : Fds → ℕ → List ℕ
share fds zero = if fds.nn == 1 then fds.udp_fd ∷ get_or fds.tun_fds 0 0 ∷ [] else fds.udp_fd ∷ []
share fds (suc zero) = get_or fds.tun_fds 1 0 ∷ get_or fds.tun_fds 0 0 ∷ []
share fds (suc (suc i)) = get_or fds.tun_fds (suc (suc i)) 0 ∷ []

-- A call that succeeds registered these, and nothing else.
abbrev Adds : List ℕ → Registry → Ret × Registry → Type 0
Adds xs st (r, st') =
    (n : ℕ) → r ≡ ret n → (fd : ℕ) → watched fd st'.added ≡ times fd xs + watched fd st.added

no_ret : {A : Type 0} {e n : ℕ} → fail e ≡ ret n → A
no_ret h = absurd (ground (arith, h))

-- One call after another.
unless_failed-Adds :
    (xs ys zs : List ℕ) (st : Registry) (r : Ret × Registry) (next : Registry → Ret × Registry)
    → ((fd : ℕ) → times fd zs ≡ times fd ys + times fd xs)
    → Adds xs st r
    → ((st' : Registry) → Adds ys st' (next st'))
    → Adds zs st (unless_failed r next)
unless_failed-Adds xs ys zs st (ret m, st') next sum one two n h fd =
    omega (arith, sum fd, one m refl fd, two st' n h fd)
unless_failed-Adds xs ys zs st (fail e, st') next sum one two n h fd = no_ret h

asked-Adds : (st : Registry) → Adds [] st (asked st)
unfolding asked
asked-Adds st n h fd = go st.answers refl
  where
    go :
        (answers : List Ret)
        → st.answers ≡ answers
        → watched fd (asked st).1.added ≡ 0 + watched fd st.added
    go [] e = rw (asked, e) (omega arith)
    go (a ∷ rest) e = rw (asked, e) (omega arith)

one_more :
    (fd x : ℕ) (ws : List Watch)
    → (if x == fd then suc (watched fd ws) else watched fd ws)
      ≡ (if x == fd then 1 else 0) + watched fd ws
one_more fd x ws = elim (Bool-cases (x == fd)) [
  | inl e ↦ rw e (omega arith)
  | inr e ↦ rw e (omega arith)
]

epoll_add-Adds : (idx fd : ℕ) (st : Registry) → Adds (fd ∷ []) st (epoll_add idx fd st)
unfolding epoll_add
epoll_add-Adds idx x st =
    unless_failed-Adds [] (x ∷ []) (x ∷ []) st (asked st) _ (λ fd. omega arith) (asked-Adds st)
      (λ st' n h fd. one_more fd x st'.added)

pub two_times : (fd x y : ℕ) → times fd (x ∷ y ∷ []) ≡ times fd (y ∷ []) + times fd (x ∷ [])
two_times fd x y = elim (Bool-cases (x == fd)) [
  | inl e ↦ rw e (omega arith)
  | inr e ↦ rw e (omega arith)
]

nothing-Adds : (st : Registry) → Adds [] st (ret 0, st)
nothing-Adds st n h fd = omega arith

pub later_thread : (i : ℕ) → ((suc (suc i) == 0) ≡ false) × ((suc (suc i) == 1) ≡ false)
later_thread i = (ground arith, ground arith)

-- A thread registers its share.
init_epoll_fd_add-Adds :
    (fds : Fds) (idx : ℕ) (st : Registry) → Adds (share fds idx) st (init_epoll_fd_add fds idx st)
unfolding init_epoll_fd_add
init_epoll_fd_add-Adds fds zero st = elim (Bool-cases (fds.nn == 1)) [
  | inl e ↦
      rw (e, init_epoll_fd_add)
        (unless_failed-Adds (fds.udp_fd ∷ []) (get_or fds.tun_fds 0 0 ∷ [])
          (fds.udp_fd ∷ get_or fds.tun_fds 0 0 ∷ []) st (epoll_add 0 fds.udp_fd st) _
          (λ fd. two_times fd fds.udp_fd (get_or fds.tun_fds 0 0)) (epoll_add-Adds 0 fds.udp_fd st)
          (λ st'. epoll_add-Adds 0 (get_or fds.tun_fds 0 0) st'))
  | inr e ↦
      rw (e, init_epoll_fd_add)
        (unless_failed-Adds (fds.udp_fd ∷ []) [] (fds.udp_fd ∷ []) st (epoll_add 0 fds.udp_fd st) _
          (λ fd. omega arith) (epoll_add-Adds 0 fds.udp_fd st) nothing-Adds)
]
init_epoll_fd_add-Adds fds (suc zero) st =
    unless_failed-Adds (get_or fds.tun_fds 1 0 ∷ []) (get_or fds.tun_fds 0 0 ∷ []) (share fds 1) st
      (epoll_add 1 (get_or fds.tun_fds 1 0) st) _
      (λ fd. two_times fd (get_or fds.tun_fds 1 0) (get_or fds.tun_fds 0 0))
      (epoll_add-Adds 1 (get_or fds.tun_fds 1 0) st)
      (λ st'. epoll_add-Adds 1 (get_or fds.tun_fds 0 0) st')
init_epoll_fd_add-Adds fds (suc (suc i)) st =
    let x : ℕ = get_or fds.tun_fds (suc (suc i)) 0 in
    let (a, b) = later_thread i in
    rw (a, b, init_epoll_fd_add)
      (unless_failed-Adds (x ∷ []) [] (x ∷ []) st (epoll_add (suc (suc i)) x st) _
        (λ fd. omega arith) (epoll_add-Adds (suc (suc i)) x st) nothing-Adds)

alloc_pkt-Adds : (st : Registry) → Adds [] st (alloc_pkt st)
unfolding alloc_pkt
alloc_pkt-Adds st n h fd = go st.memory refl
  where
    go :
        (memory : List (Option ℕ))
        → st.memory ≡ memory
        → watched fd (alloc_pkt st).1.added ≡ 0 + watched fd st.added
    go [] e = rw (alloc_pkt, e) (omega arith)
    go (m ∷ rest) e = rw (alloc_pkt, e) (omega arith)

one_thread-Adds : (fds : Fds) (i : ℕ) (st : Registry) → Adds (share fds i) st (one_thread fds i st)
unfolding init_epoll_thread
one_thread-Adds fds i st =
    unless_failed-Adds (share fds i) [] (share fds i) st (init_epoll_thread fds i st) _
      (λ fd. omega arith)
      (unless_failed-Adds [] (share fds i) (share fds i) st (asked st) _ (λ fd. omega arith)
        (asked-Adds st) (init_epoll_fd_add-Adds fds i))
      alloc_pkt-Adds

-- What the threads from `i` on register.
abbrev pub shares : Fds → ℕ → ℕ → ℕ → ℕ
shares fds fd zero i = 0
shares fds fd (suc rounds) i = times fd (share fds i) + shares fds fd rounds (i + 1)

pub threads_from-Adds :
    (fds : Fds) (rounds i : ℕ) (st : Registry) (n : ℕ)
    → (threads_from fds rounds i st).0 ≡ ret n
    → (fd : ℕ)
    → watched fd (threads_from fds rounds i st).1.added
      ≡ shares fds fd rounds i + watched fd st.added
unfolding threads_from
threads_from-Adds fds zero i st n h fd = omega arith
threads_from-Adds fds (suc rounds) i st n h fd =
    go (one_thread fds i st) (one_thread-Adds fds i st)
      (λ st' k. threads_from-Adds fds rounds (i + 1) st' n k fd) h
  where
    later : Registry → Ret × Registry
    later st' = threads_from fds rounds (i + 1) st'

    go :
        (r : Ret × Registry)
        → Adds (share fds i) st r
        → ((st' : Registry)
            → (later st').0 ≡ ret n
            → watched fd (later st').1.added ≡ shares fds fd rounds (i + 1) + watched fd st'.added)
        → (unless_failed r later).0 ≡ ret n
        → watched fd (unless_failed r later).1.added
          ≡ times fd (share fds i) + shares fds fd rounds (i + 1) + watched fd st.added
    go (ret m, st') one two k = omega (arith, one m refl fd, two st' k)
    go (fail e, st') one two k = no_ret k
