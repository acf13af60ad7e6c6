-- ===== src/Epoll/Once.antt =====
-- How often each descriptor is registered.
use teavpn.Common.{
  ℕ, zero, suc, ◌+◌, ◌<◌, ◌≡◌, refl, sym, ◌∙◌, ap, arith, Bool-cases, inl, inr, List, [], ◌∷◌, ◌==◌,
  get_or, length, drop, drop-eq-cons, drop_all, ret,
}
use teavpn.Epoll.{Fds, Registry, init_epoll_thread_array}
use teavpn.Epoll.Adds.{watched, times, shares, two_times, later_thread, threads_from-Adds}

times_cons : (fd x : ℕ) (xs : List ℕ) → times fd (x ∷ xs) ≡ times fd (x ∷ []) + times fd xs
times_cons fd x xs = elim (Bool-cases (x == fd)) [
  | inl e ↦ rw e (omega arith)
  | inr e ↦ rw e (omega arith)
]

-- From the third thread on, each has its own descriptor.
later_shares :
    (fds : Fds) (fd rounds i : ℕ)
    → suc (suc i) + rounds ≡ length fds.tun_fds
    → shares fds fd rounds (suc (suc i)) ≡ times fd (drop (suc (suc i)) fds.tun_fds)
later_shares fds fd zero i h = rw (drop_all fds.tun_fds (suc (suc i)) (omega arith)) refl
later_shares fds fd (suc rounds) i h =
    let k : ℕ = suc (suc i) in
    let up : k + 1 ≡ suc (suc (suc i)) = omega arith in
    let x = get_or fds.tun_fds k 0 in
    ap (λ j. times fd (x ∷ []) + shares fds fd rounds j) up
    ∙ (ap (λ m. times fd (x ∷ []) + m) (later_shares fds fd rounds (suc i) (omega arith))
        ∙ (sym (times_cons fd x (drop (suc k) fds.tun_fds))
            ∙ ap (times fd) (sym (drop-eq-cons fds.tun_fds k 0 (omega arith)))))

abbrev made : ℕ → ℕ → List ℕ → Fds
made nn udp tun = record { nn = nn; udp_fd = udp; tun_fds = tun }

all_shares :
    (nn udp : ℕ) (tun : List ℕ) (fd : ℕ)
    → 0 < nn
    → length tun ≡ nn
    → shares (made nn udp tun) fd nn 0 ≡ times fd (udp ∷ tun)
all_shares zero udp tun fd h e = absurd (omega arith)
all_shares (suc zero) udp [] fd h e = absurd (omega arith)
all_shares (suc zero) udp (a ∷ []) fd h e = omega arith
all_shares (suc zero) udp (a ∷ b ∷ tun) fd h e = absurd (omega arith)
all_shares (suc (suc nn)) udp [] fd h e = absurd (omega arith)
all_shares (suc (suc nn)) udp (a ∷ []) fd h e = absurd (omega arith)
all_shares (suc (suc nn)) udp (a ∷ b ∷ tun) fd h e =
    let fds = made (suc (suc nn)) udp (a ∷ b ∷ tun) in
    let many = (later_thread nn).1 in
    rw many (
      omega (
        arith,
        later_shares fds fd nn 0 (omega arith),
        times_cons fd udp (a ∷ b ∷ tun),
        times_cons fd a (b ∷ tun),
        times_cons fd b tun,
        two_times fd b a,
      ))

-- For 1 thread and more, each with a TUN descriptor, each descriptor is waited for exactly once over all
-- threads if the set-up returns a value that is not an error: whatever was registered before, every
-- number is registered as often more as it stands among the UDP descriptor and the TUN descriptors.
pub init_epoll_thread_array_lem :
    (fds : Fds) (st : Registry) (n : ℕ)
    → 0 < fds.nn
    → length fds.tun_fds ≡ fds.nn
    → (init_epoll_thread_array fds st).0 ≡ ret n
    → (fd : ℕ)
    → watched fd (init_epoll_thread_array fds st).1.added
      ≡ times fd (fds.udp_fd ∷ fds.tun_fds) + watched fd st.added
unfolding init_epoll_thread_array
init_epoll_thread_array_lem fds st n h e done fd =
    threads_from-Adds fds fds.nn 0 st n done fd
    ∙ ap (λ k. k + watched fd st.added) (all_shares fds.nn fds.udp_fd fds.tun_fds fd h e)
