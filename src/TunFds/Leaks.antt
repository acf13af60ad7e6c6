-- ===== src/TunFds/Leaks.antt =====
-- What becomes of the TUN descriptors that are opened.
use teavpn.Common.{
  ℕ, zero, suc, ◌+◌, ◌≤◌, ◌≡◌, refl, sym, ◌∙◌, ap, subst, arith, Bool, false, Option, none, some,
  List, ◌==◌, get_or, set, length, length-set, replicate, length-replicate, get_or-set, Ret, ret,
  fail,
}
use teavpn.Epoll.Adds.{times}
use teavpn.TunFds.{TunFds, open_fd, close_down, stored, open_from, fresh, open_tun_fds}
use teavpn.TunFds.Held.{one, held, held-set, FreeFrom, held-free, close_down-held, close_down-free}
use teavpn.TunFds.Opens.{Opens, open_fd-Opens}

-- Each descriptor that was opened is held or closed.
abbrev pub Accounted : TunFds → Type 0
Accounted st = (fd : ℕ) → times fd st.opened ≡ held fd st.tun_fds + times fd st.closed

-- After the loop: that, and nothing is held any more after an error.
abbrev pub NoLeak : Ret × TunFds → Type 0
NoLeak (ret n, st) = Accounted st
NoLeak (fail e, st) = ((fd : ℕ) → times fd st.opened ≡ times fd st.closed) × FreeFrom 0 st.tun_fds

before : (i j : ℕ) → i + 1 ≤ j → (i == j) ≡ false
before i j h = ground arith

free-stored :
    (i x : ℕ) (xs : List (Option ℕ)) → FreeFrom i xs → FreeFrom (i + 1) (set xs i (some x))
free-stored i x xs h j g = get_or-set xs i j (some x) none ∙ rw (before i j g) (h j (omega arith))

open_from-NoLeak :
    (io_uring : Bool) (rounds i : ℕ) (st : TunFds)
    → i + rounds ≤ length st.tun_fds
    → FreeFrom i st.tun_fds
    → Accounted st
    → NoLeak (open_from io_uring rounds i st)
unfolding open_from
open_from-NoLeak io_uring zero i st room free sum = sum
open_from-NoLeak io_uring (suc rounds) i st room free sum =
    go (open_fd io_uring st) (open_fd-Opens io_uring st)
      (λ st'' a b c. open_from-NoLeak io_uring rounds (i + 1) st'' a b c)
  where
    go :
        (r : Ret × TunFds)
        → Opens st r
        → ((st'' : TunFds)
            → (i + 1) + rounds ≤ length st''.tun_fds
            → FreeFrom (i + 1) st''.tun_fds
            → Accounted st''
            → NoLeak (open_from io_uring rounds (i + 1) st''))
        → NoLeak (elim r.0 as (λ x. Ret × TunFds) [
          | fail e ↦ (fail e, close_down i r.1)
          | ret fd ↦ open_from io_uring rounds (i + 1) (stored i fd r.1)
        ])
    go (fail e, st') (slots, opens) rest =
        let free' : FreeFrom i st'.tun_fds = subst (FreeFrom i) (sym slots) free in
        let empty = close_down-free i st' free' in
        (
          λ fd.
              let (kept, same) = close_down-held fd i st' (omega (arith, ap length slots)) in
              omega (
                arith,
                kept,
                ap (times fd) same,
                opens fd,
                sum fd,
                ap (held fd) slots,
                held-free fd (close_down i st').tun_fds empty,
              ),
          empty,
        )
    go (ret x, st') (slots, opens) rest =
        rest (stored i x st') (omega (arith, length-set st'.tun_fds i (some x), ap length slots))
          (free-stored i x st'.tun_fds (subst (FreeFrom i) (sym slots) free))
          (λ fd. omega (
            arith,
            opens fd,
            sum fd,
            ap (held fd) slots,
            held-set fd st'.tun_fds i (some x) (omega (arith, ap length slots)),
            ap (one fd) (subst (FreeFrom i) (sym slots) free i (omega arith)),
          ))

replicate-free : (nn j : ℕ) → ◌≡◌ {A = Option ℕ} (get_or (replicate nn none) j none) none
replicate-free zero j = refl
replicate-free (suc nn) zero = refl
replicate-free (suc nn) (suc j) = replicate-free nn j

held-fresh : (nn fd : ℕ) → held fd (replicate nn none) ≡ 0
held-fresh zero fd = refl
held-fresh (suc nn) fd = omega (arith, held-fresh nn fd)

-- No TUN descriptor leaks, whatever the calls of the kernel return: if the set-up returns an error, each
-- descriptor that was opened has been closed as often, and no slot has one; if not, each that was opened
-- stands in a slot or has been closed, as often.
pub open_tun_fds_lem :
    (io_uring : Bool) (nn : ℕ) (allocs nonblocks : List Ret)
    → NoLeak (open_tun_fds io_uring nn allocs nonblocks)
unfolding open_tun_fds
open_tun_fds_lem io_uring nn allocs nonblocks =
    open_from-NoLeak io_uring nn 0 (fresh nn allocs nonblocks)
      (omega (arith, length-replicate {A = Option ℕ} nn none)) (λ j h. replicate-free nn j)
      (λ fd. omega (arith, held-fresh nn fd))
