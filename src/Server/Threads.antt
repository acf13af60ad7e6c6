-- ===== src/Server/Threads.antt =====
-- The worker threads of the server: thread_wait() and the start and end of
-- server_udp_epoll_run_event_loop() of src/teavpn2/server/linux/udp_epoll.c, one access to shared
-- memory at a time, in any order. The rounds of a thread's event loop are left open.
pub mod Family
pub mod Barrier
use teavpn.Common.{ℕ, ◌+◌, ◌-◌, ◌%◌, ◌^◌, ◌<◌, ◌≡◌, ◌≢◌, Bool, true, false}
use teavpn.Server.Threads.Family.{update}

-- Where a thread stands.
pub data Pc : Type 0 where
  fresh : Pc  -- not yet running
  online : Pc  -- `is_online` is set, and `n_on_threads` not yet raised
  waiting : Pc  -- in the loop of `thread_wait`
  ready : Pc  -- the main thread, before it sets `release_sub_thread`
  looping : Pc  -- `thread_wait` has returned
  offline : Pc  -- `is_online` is cleared, and `n_on_threads` not yet lowered
  gone : Pc

-- What the threads share, and where each stands. An index from `nn` on names no thread.
pub record System : Type 0 where
  pub n_on_threads : ℕ  -- uint16_t
  pub release_sub_thread : Bool
  pub stop : Bool
  pub pc : ℕ → Pc

abbrev pub move : System → ℕ → Pc → System
move s i p = record s { pc = update s.pc i p }

-- One access by thread `i`. Rounds of waiting that change nothing are left out; a thread that waits may
-- see `stop` in any round.
pub data Access (nn i : ℕ) (s : System) : System → Type 0 where
  set_online : s.pc i ≡ fresh → Access nn i s (move s i online)
  count_in :
      s.pc i ≡ online
      → Access nn i s (record (move s i waiting) { n_on_threads = (s.n_on_threads + 1) % 2 ^ 16 })
  see_all : i ≡ 0 → s.pc i ≡ waiting → s.n_on_threads ≡ nn → Access nn i s (move s i ready)
  set_release :
      s.pc i ≡ ready → Access nn i s (record (move s i looping) { release_sub_thread = true })
  see_release :
      i ≢ 0 → s.pc i ≡ waiting → s.release_sub_thread ≡ true → Access nn i s (move s i looping)
  see_stop : s.pc i ≡ waiting → s.stop ≡ true → Access nn i s (move s i looping)
  set_offline : s.pc i ≡ looping → Access nn i s (move s i offline)
  count_out :
      s.pc i ≡ offline
      → Access nn i s
          (record (move s i gone) { n_on_threads = (s.n_on_threads + 2 ^ 16 - 1) % 2 ^ 16 })

-- A step: a thread's access, or a signal or an error that stops the server.
pub data Step (nn : ℕ) (s : System) : System → Type 0 where
  access : (i : ℕ) {t : System} → i < nn → Access nn i s t → Step nn s t
  set_stop : Step nn s (record s { stop = true })

-- `run_event_loop` before it starts the first thread.
abbrev pub initial : System
initial = record { n_on_threads = 0; release_sub_thread = false; stop = false; pc = λ i. fresh }

pub data Reach (nn : ℕ) : System → Type 0 where
  begin : Reach nn initial
  next : {s t : System} → Reach nn s → Step nn s t → Reach nn t
