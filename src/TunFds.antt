-- ===== src/TunFds.antt =====
-- The TUN descriptors, one for each thread: the loop of init_iface() and its clean-up in
-- src/teavpn2/server/linux/udp.c. The client has the same in src/teavpn2/client/linux/udp.c.
pub mod Held
pub mod Opens
pub mod Leaks
use teavpn.Common.{
  ℕ, zero, suc, ◌+◌, Bool, Option, none, some, List, [], ◌∷◌, if◌then◌else◌, get_or, set, replicate,
  Ret, ret, fail, enetdown,
}

-- `tun_fds` has `none` for -1. `allocs` is what tun_alloc() returns for the calls to come and `nonblocks`
-- what fd_set_nonblock() returns; when they are used up the calls fail. `opened` and `closed` are the
-- descriptors that were opened and closed, the last first; `last` is `ret`, what fd_set_nonblock() returned
-- last, or 0.
pub record TunFds : Type 0 where
  pub tun_fds : List (Option ℕ)
  pub allocs : List Ret
  pub nonblocks : List Ret
  pub opened : List ℕ
  pub closed : List ℕ
  pub last : ℕ

-- the next call of tun_alloc()
unfoldable pub alloc_fd : TunFds → Ret × TunFds
alloc_fd st = elim st.allocs [
  | [] ↦ (fail enetdown, st)
  | a ∷ rest ↦
      (let asked = record st { allocs = rest } in
        elim a [
          | fail e ↦ (fail e, asked)
          | ret fd ↦ (ret fd, record asked { opened = fd ∷ st.opened })
        ])
]

-- fd_set_nonblock(), and close() where it fails
unfoldable pub set_nonblock : ℕ → TunFds → Ret × TunFds
set_nonblock fd st = elim st.nonblocks [
  | [] ↦ (fail enetdown, record st { closed = fd ∷ st.closed })
  | a ∷ rest ↦
      (let asked = record st { nonblocks = rest } in
        elim a [
          | fail e ↦ (fail e, record asked { closed = fd ∷ st.closed })
          | ret n ↦ (ret fd, record asked { last = n })
        ])
]

-- One round of the loop up to the store into `tun_fds`; `io_uring` says that this is the event loop.
unfoldable pub open_fd : Bool → TunFds → Ret × TunFds
open_fd io_uring st =
    let (r, st') = alloc_fd st in
    elim r [
      | fail e ↦ (fail e, st')
      | ret fd ↦ if io_uring then (ret fd, st') else set_nonblock fd st'
    ]

abbrev pub close_fd : Option ℕ → List ℕ → List ℕ
close_fd none closed = closed
close_fd (some fd) closed = fd ∷ closed

-- `while (i--) { close(tun_fds[i]); tun_fds[i] = -1; }`
unfoldable pub close_down : ℕ → TunFds → TunFds
close_down zero st = st
close_down (suc i) st = close_down i (record st {
  tun_fds = set st.tun_fds i none;
  closed = close_fd (get_or st.tun_fds i none) st.closed;
})

abbrev pub stored : ℕ → ℕ → TunFds → TunFds
stored i fd st = record st { tun_fds = set st.tun_fds i (some fd) }

-- The loop from thread `i` on, `rounds` times.
unfoldable pub open_from : Bool → ℕ → ℕ → TunFds → Ret × TunFds
open_from io_uring zero i st = (ret st.last, st)
open_from io_uring (suc rounds) i st =
    let (r, st') = open_fd io_uring st in
    elim r [
      | fail e ↦ (fail e, close_down i st')
      | ret fd ↦ open_from io_uring rounds (i + 1) (stored i fd st')
    ]

-- `alloc_tun_fds_array`: no descriptor yet.
abbrev pub fresh : ℕ → List Ret → List Ret → TunFds
fresh nn allocs nonblocks = record {
  tun_fds = replicate nn none;
  allocs = allocs;
  nonblocks = nonblocks;
  opened = [];
  closed = [];
  last = 0;
}

-- The loop of `init_iface` for `nn` threads.
unfoldable pub open_tun_fds : Bool → ℕ → List Ret → List Ret → Ret × TunFds
open_tun_fds io_uring nn allocs nonblocks = open_from io_uring nn 0 (fresh nn allocs nonblocks)
