-- ===== src/Epoll.antt =====
-- Which thread waits for which descriptor: create_epoll_fd(), epoll_add(), init_epoll_fd_add(),
-- init_epoll_thread() and init_epoll_thread_array() of src/teavpn2/server/linux/udp_epoll.c. The client
-- has the same in src/teavpn2/client/linux/udp_epoll.c.
pub mod Adds
pub mod Once
use teavpn.Common.{
  ℕ, zero, suc, ◌+◌, Option, none, some, List, [], ◌∷◌, ◌==◌, if◌then◌else◌, get_or, Ret, ret, fail,
  enetdown, enomem,
}

-- The descriptors, and `cfg->sys.thread_num`.
pub record Fds : Type 0 where
  pub nn : ℕ
  pub udp_fd : ℕ
  pub tun_fds : List ℕ

-- A descriptor that the thread of this index waits for.
pub record Watch : Type 0 where
  pub idx : ℕ
  pub fd : ℕ

-- What epoll_create() and epoll_ctl() return for the calls to come, and the memory: `none` for a packet
-- that could be allocated, or the errno. `added` is what was registered, the last first. When the
-- answers are used up the calls fail.
pub record Registry : Type 0 where
  pub answers : List Ret
  pub memory : List (Option ℕ)
  pub added : List Watch

-- the next answer of the kernel
unfoldable pub asked : Registry → Ret × Registry
asked st = elim st.answers [
  | [] ↦ (fail enetdown, st)
  | a ∷ rest ↦ (a, record st { answers = rest })
]

-- A call goes on after 0 and more, and ends with an error.
abbrev pub unless_failed : Ret × Registry → (Registry → Ret × Registry) → Ret × Registry
unless_failed (ret n, st) next = next st
unless_failed (fail e, st) next = (fail e, st)

unfoldable pub epoll_add : ℕ → ℕ → Registry → Ret × Registry
epoll_add idx fd st =
    unless_failed (asked st)
      (λ st'. (ret 0, record st' { added = record { idx = idx; fd = fd } ∷ st'.added }))

unfoldable pub init_epoll_fd_add : Fds → ℕ → Registry → Ret × Registry
init_epoll_fd_add fds idx st =
    if idx == 0
    then unless_failed (epoll_add idx fds.udp_fd st)
        (λ st'. if fds.nn == 1 then epoll_add idx (get_or fds.tun_fds 0 0) st' else (ret 0, st'))
    else unless_failed (epoll_add idx (get_or fds.tun_fds idx 0) st)
        (λ st'. if idx == 1 then epoll_add idx (get_or fds.tun_fds 0 0) st' else (ret 0, st'))

unfoldable pub init_epoll_thread : Fds → ℕ → Registry → Ret × Registry
init_epoll_thread fds idx st = unless_failed (asked st) (λ st'. init_epoll_fd_add fds idx st')

-- The packet of a thread.
unfoldable pub alloc_pkt : Registry → Ret × Registry
alloc_pkt st = elim st.memory [
  | [] ↦ (fail enomem, st)
  | m ∷ rest ↦ (elim m [ none ↦ ret 0 | some e ↦ fail e ], record st { memory = rest })
]

abbrev pub one_thread : Fds → ℕ → Registry → Ret × Registry
one_thread fds i st = unless_failed (init_epoll_thread fds i st) (λ st'. alloc_pkt st')

-- The second loop of `init_epoll_thread_array` from thread `i` on, `rounds` times.
unfoldable pub threads_from : Fds → ℕ → ℕ → Registry → Ret × Registry
threads_from fds zero i st = (ret 0, st)
threads_from fds (suc rounds) i st =
    unless_failed (one_thread fds i st) (λ st'. threads_from fds rounds (i + 1) st')

-- `init_epoll_thread_array` for at least one thread, once the array is there.
unfoldable pub init_epoll_thread_array : Fds → Registry → Ret × Registry
init_epoll_thread_array fds st = threads_from fds fds.nn 0 st
