-- ===== src/Server/Shutdown/Release.antt =====
-- What the end of the server gives back, and when it may.
use teavpn.Common.{
  ℕ, ◌+◌, ◌<◌, ◌≡◌, refl, sym, ◌∙◌, ap, subst, arith, Bool, Bool-cases, true, false, ◌&&◌, ◌⊎◌, inl,
  inr, Option, none, some, List, [], ◌∷◌, ◌++◌,
}
use mathlib.Core.List.{append_assoc, append-nil}
use mathlib.Core.Bool.{false≢true}
use teavpn.Server.{Server, session}
use teavpn.Server.Valid.{IsValid}
use teavpn.Server.Shutdown.{
  wait_for_exit, wait_rounds, wait_for_threads_to_exit, close_client_sess, Resource, fd, pkt,
  epl_threads, sess_stk, sess_arr, sess_map, ipv4_map, tun_fd_arr, state, Resources, closed_fds,
  freed_pkts, destroy_epoll, destroy_state,
}
use teavpn.Server.Shutdown.Sessions.{close_client_sess_lem}
use teavpn.Server.Shutdown.Wait.{wait_for_exit_iff}

-- The descriptors among what was given back.
unfoldable pub fds_of : List Resource → List ℕ
fds_of [] = []
fds_of (fd n ∷ l) = n ∷ fds_of l
fds_of (pkt n ∷ l) = fds_of l
fds_of (epl_threads ∷ l) = fds_of l
fds_of (sess_stk ∷ l) = fds_of l
fds_of (sess_arr ∷ l) = fds_of l
fds_of (sess_map ∷ l) = fds_of l
fds_of (ipv4_map ∷ l) = fds_of l
fds_of (tun_fd_arr ∷ l) = fds_of l
fds_of (state ∷ l) = fds_of l

-- The values of a list of options.
unfoldable pub opens : List (Option ℕ) → List ℕ
opens [] = []
opens (none ∷ l) = opens l
opens (some n ∷ l) = n ∷ opens l

fds_of-append : (a b : List Resource) → fds_of (a ++ b) ≡ fds_of a ++ fds_of b
unfolding fds_of
fds_of-append [] b = refl
fds_of-append (fd n ∷ a) b = ap (λ l. n ∷ l) (fds_of-append a b)
fds_of-append (pkt n ∷ a) b = fds_of-append a b
fds_of-append (epl_threads ∷ a) b = fds_of-append a b
fds_of-append (sess_stk ∷ a) b = fds_of-append a b
fds_of-append (sess_arr ∷ a) b = fds_of-append a b
fds_of-append (sess_map ∷ a) b = fds_of-append a b
fds_of-append (ipv4_map ∷ a) b = fds_of-append a b
fds_of-append (tun_fd_arr ∷ a) b = fds_of-append a b
fds_of-append (state ∷ a) b = fds_of-append a b

fds_of-closed : (l : List (Option ℕ)) → fds_of (closed_fds l) ≡ opens l
unfolding fds_of closed_fds opens
fds_of-closed [] = refl
fds_of-closed (none ∷ l) = fds_of-closed l
fds_of-closed (some n ∷ l) = ap (λ k. n ∷ k) (fds_of-closed l)

fds_of-pkts : (i : ℕ) (l : List (Option ℕ)) → fds_of (freed_pkts i l) ≡ []
unfolding fds_of freed_pkts
fds_of-pkts i [] = refl
fds_of-pkts i (t ∷ l) = fds_of-pkts (i + 1) l

-- Some load of a wait saw no thread.
abbrev pub SeenGone : (ℕ → ℕ) → Type 0
SeenGone seen = (k : ℕ) × (k < 1003) × (seen k ≡ 0)

abbrev pub shut_down : (ℕ → ℕ) → (ℕ → ℕ) → Resources → Resources
shut_down zr tun r = destroy_state (destroy_epoll zr tun r)

-- What the end of the server does when all threads have gone, and when one has not.
abbrev pub Ends : (ℕ → ℕ) → (ℕ → ℕ) → Resources → Resources → Type 0
Ends zr tun r r' =
    (SeenGone zr
      × SeenGone tun
      × ((j : ℕ) → (session r'.server j).is_connected ≡ false)
      × (fds_of r'.released
          ≡ fds_of r.released ++ (opens r.epoll_fds ++ opens (r.udp_fd ∷ r.tun_fds))))
    ⊎ ((SeenGone zr → SeenGone tun → ⊥) × (r'.server ≡ r.server) × (r'.released ≡ r.released))

-- The list of what is given back, in its order.
released_fds :
    (before epoll pkts rest tail : List Resource)
    → fds_of pkts ≡ []
    → fds_of tail ≡ []
    → fds_of ((((before ++ epoll) ++ pkts) ++ (epl_threads ∷ [])) ++ rest ++ tail)
      ≡ fds_of before ++ (fds_of epoll ++ fds_of rest)
unfolding fds_of
released_fds before epoll pkts rest tail no_pkts no_tail =
    simp (fds_of-append, append_assoc, append-nil, no_pkts, no_tail) refl

-- The memory that `destroy_state` frees last.
abbrev memory : List Resource
memory = sess_stk ∷ sess_arr ∷ sess_map ∷ ipv4_map ∷ tun_fd_arr ∷ state ∷ []

gone_released :
    (zr tun : ℕ → ℕ) (r : Resources)
    → r.threads_wont_exit ≡ false
    → wait_for_threads_to_exit zr tun ≡ true
    → ((shut_down zr tun r).server ≡ close_client_sess r.server)
      × ((shut_down zr tun r).released
          ≡ (((r.released ++ closed_fds r.epoll_fds) ++ freed_pkts 0 r.epoll_fds)
              ++ (epl_threads ∷ []))
            ++ closed_fds (r.udp_fd ∷ r.tun_fds)
            ++ memory)
unfolding destroy_epoll destroy_state
gone_released zr tun r on gone = rw (gone, on) (refl, refl)

stuck_released :
    (zr tun : ℕ → ℕ) (r : Resources)
    → wait_for_threads_to_exit zr tun ≡ false
    → ((shut_down zr tun r).server ≡ r.server) × ((shut_down zr tun r).released ≡ r.released)
unfolding destroy_epoll destroy_state
stuck_released zr tun r stuck = rw stuck (refl, refl)

both : (a b : Bool) → (a && b) ≡ true → (a ≡ true) × (b ≡ true)
both a b h = ground arith

pub shut_down-IsValid :
    (zr tun : ℕ → ℕ) (r : Resources)
    → IsValid r.server
    → r.threads_wont_exit ≡ false
    → IsValid (shut_down zr tun r).server
shut_down-IsValid zr tun r v on = elim (Bool-cases (wait_for_threads_to_exit zr tun)) [
  | inl gone ↦ subst IsValid (sym (gone_released zr tun r on gone).0) (close_client_sess_lem v).0
  | inr stuck ↦ subst IsValid (sym (stuck_released zr tun r stuck).0) v
]

-- At the end of a server with a valid state whose set-up was completed, either each of the two waits
-- saw all its threads gone at one of at most 1003 loads; then no session is in use any more, and each
-- descriptor that was open is closed once, those of epoll first. Or one wait did not; then the
-- sessions are as they were, and nothing is closed or freed.
pub shut_down_lem :
    (zr tun : ℕ → ℕ) (r : Resources)
    → IsValid r.server
    → r.threads_wont_exit ≡ false
    → Ends zr tun r (shut_down zr tun r)
shut_down_lem zr tun r v on = elim (Bool-cases (wait_for_threads_to_exit zr tun)) [
  | inl gone ↦
      let (zr_gone, tun_gone) =
        both (wait_for_exit wait_rounds zr) (wait_for_exit wait_rounds tun) gone in
      let (server, released) = gone_released zr tun r on gone in
      inl (
        (wait_for_exit_iff 0 zr).0 zr_gone,
        (wait_for_exit_iff 0 tun).0 tun_gone,
        λ j. ap (λ (s : Server). (session s j).is_connected) server ∙ (close_client_sess_lem v).1 j,
        ap fds_of released
            ∙ (released_fds r.released _ (freed_pkts 0 r.epoll_fds) _ memory
                  (fds_of-pkts 0 r.epoll_fds) (unfold fds_of in refl)
                ∙ cc (fds_of-closed r.epoll_fds, fds_of-closed (r.udp_fd ∷ r.tun_fds))),
      )
  | inr stuck ↦
      let (server, released) = stuck_released zr tun r stuck in
      inr (
        λ zr_gone tun_gone. false≢true (
            sym stuck
            ∙ cc ((wait_for_exit_iff 0 zr).1 zr_gone, (wait_for_exit_iff 0 tun).1 tun_gone)),
        server,
        released,
      )
]
