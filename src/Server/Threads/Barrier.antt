-- ===== src/Server/Threads/Barrier.antt =====
-- The common start of the threads.
use teavpn.Common.{
  ℕ, zero, suc, ◌+◌, ◌^◌, ◌≤◌, ◌<◌, ◌≡◌, ◌≢◌, refl, sym, ◌∙◌, ap, subst, arith, Bool, true, false,
  ◌⊎◌, inl, inr,
}
use mathlib.Core.Bool.{false≢true}
use native.Mathlib.Decide.{ℕ_discrete}
use teavpn.Server.Threads.Family.{
  update, update-here, update-there, total, total-update, total-le, total-full, total-all,
}
use teavpn.Server.Threads.{
  Pc, fresh, online, waiting, ready, looping, offline, gone, System, move, Access, set_online,
  count_in, see_all, set_release, see_release, see_stop, set_offline, count_out, Step, access,
  set_stop, Reach, begin, next,
}

-- The threads that `n_on_threads` counts.
abbrev counted : Pc → ℕ
counted fresh = 0
counted online = 0
counted waiting = 1
counted ready = 1
counted looping = 1
counted offline = 1
counted gone = 0

-- A thread that has raised `n_on_threads`, if only once.
abbrev pub Arrived : Pc → Type 0
Arrived fresh = ⊥
Arrived online = ⊥
Arrived p = Unit {0}

counted_small : (p : Pc) → counted p ≤ 1
counted_small fresh = omega arith
counted_small online = omega arith
counted_small waiting = omega arith
counted_small ready = omega arith
counted_small looping = omega arith
counted_small offline = omega arith
counted_small gone = omega arith

counted-Arrived : (p : Pc) → counted p ≡ 1 → Arrived p
counted-Arrived fresh h = ground arith
counted-Arrived online h = ground arith
counted-Arrived waiting h = tt
counted-Arrived ready h = tt
counted-Arrived looping h = tt
counted-Arrived offline h = tt
counted-Arrived gone h = tt

abbrev pub AllArrived : ℕ → System → Type 0
AllArrived nn s = (j : ℕ) → j < nn → Arrived (s.pc j)

-- What holds between two steps.
record Inv (nn : ℕ) (s : System) : Type 0 where
  counts : s.n_on_threads ≡ total counted nn s.pc
  all_ready : (i : ℕ) → i < nn → s.pc i ≡ ready → AllArrived nn s
  all_released : s.release_sub_thread ≡ true → AllArrived nn s
  let_go : (i : ℕ) → i < nn → s.pc i ≡ looping → (s.release_sub_thread ≡ true) ⊎ (s.stop ≡ true)

module _ (nn : ℕ) (few : nn < 2 ^ 8) {s : System} (v : Inv nn s) (i : ℕ) (lt : i < nn) where
  -- A thread moves, and the shared numbers change with it.
  moved :
      (p : Pc) (n : ℕ) (r : Bool)
      → n ≡ total counted nn (update s.pc i p)
      → (AllArrived nn s → Arrived p)
      → (p ≡ ready → AllArrived nn s)
      → (r ≡ true → AllArrived nn s)
      → (s.release_sub_thread ≡ true → r ≡ true)
      → (p ≡ looping → (r ≡ true) ⊎ (s.stop ≡ true))
      → Inv nn (record (move s i p) { n_on_threads = n; release_sub_thread = r })
  moved p n r counts arrives is_ready released keeps_r loops = record {
    counts = counts;
    all_ready = λ j below e. elim (ℕ_discrete i j) [
      | yes same ↦ all (is_ready (ground arith))
      | no other ↦ all (v.all_ready j below (ground arith))
    ];
    all_released = λ e. all (released e);
    let_go = λ j below e. elim (ℕ_discrete i j) [
      | yes same ↦ loops (ground arith)
      | no other ↦ elim (v.let_go j below (ground arith)) [
        | inl rel ↦ inl (keeps_r rel)
        | inr stopped ↦ inr stopped
      ]
    ];
  }
    where
      all : AllArrived nn s → (j : ℕ) → j < nn → Arrived (update s.pc i p j)
      all h j below = elim (ℕ_discrete i j) [
        | yes same ↦ subst Arrived (sym (update-here s.pc i p j same)) (arrives h)
        | no other ↦ subst Arrived (sym (update-there s.pc i p j other)) (h j below)
      ]

  recount :
      (p : Pc) → total counted nn (update s.pc i p) + counted (s.pc i) ≡ s.n_on_threads + counted p
  recount p = total-update counted nn i s.pc p lt ∙ ap (λ n. n + counted p) (sym v.counts)

  full : s.n_on_threads ≡ nn → AllArrived nn s
  full e j below =
      counted-Arrived (s.pc j) (total-full counted counted_small nn s.pc (sym v.counts ∙ e) j below)

  same_release : s.release_sub_thread ≡ true → s.release_sub_thread ≡ true
  same_release r = r

  Access-Inv : {t : System} → Access nn i s t → Inv nn t
  Access-Inv (set_online e) =
      moved online _ _ (ground (arith, recount online)) (λ all. subst Arrived e (all i lt))
        (λ h. absurd (ground arith)) v.all_released same_release (λ h. absurd (ground arith))
  Access-Inv (count_in e) =
      moved waiting _ _
        (omega (
          arith,
          few,
          ap counted e,
          recount waiting,
          total-le counted counted_small nn (update s.pc i waiting),
        ))
        (λ h. tt) (λ h. absurd (ground arith)) v.all_released same_release
        (λ h. absurd (ground arith))
  Access-Inv (see_all main e all) =
      moved ready _ _ (ground (arith, recount ready)) (λ h. tt) (λ h. full all) v.all_released
        same_release (λ h. absurd (ground arith))
  Access-Inv (set_release e) =
      moved looping _ true (ground (arith, recount looping)) (λ h. tt) (λ h. absurd (ground arith))
        (λ h. v.all_ready i lt e) (λ r. refl) (λ h. inl refl)
  Access-Inv (see_release sub e r) =
      moved looping _ _ (ground (arith, recount looping)) (λ h. tt) (λ h. absurd (ground arith))
        v.all_released same_release (λ h. inl r)
  Access-Inv (see_stop e r) =
      moved looping _ _ (ground (arith, recount looping)) (λ h. tt) (λ h. absurd (ground arith))
        v.all_released same_release (λ h. inr r)
  Access-Inv (set_offline e) =
      moved offline _ _ (ground (arith, recount offline)) (λ h. tt) (λ h. absurd (ground arith))
        v.all_released same_release (λ h. absurd (ground arith))
  Access-Inv (count_out e) =
      moved gone _ _
        (omega (
          arith,
          few,
          ap counted e,
          recount gone,
          v.counts,
          total-le counted counted_small nn s.pc,
        ))
        (λ h. tt) (λ h. absurd (ground arith)) v.all_released same_release
        (λ h. absurd (ground arith))

Step-Inv : (nn : ℕ) → nn < 2 ^ 8 → {s t : System} → Inv nn s → Step nn s t → Inv nn t
Step-Inv nn few v (access i lt a) = Access-Inv nn few v i lt a
Step-Inv nn few v set_stop = record {
  counts = v.counts;
  all_ready = v.all_ready;
  all_released = v.all_released;
  let_go = λ i lt e. inr refl;
}

none_yet : (n : ℕ) → total counted n (λ i. fresh) ≡ 0
unfolding total
none_yet zero = refl
none_yet (suc n) = omega (arith, none_yet n)

Reach-Inv : (nn : ℕ) → nn < 2 ^ 8 → {s : System} → Reach nn s → Inv nn s
Reach-Inv nn few begin = record {
  counts = sym (none_yet nn);
  all_ready = λ i lt e. absurd (ground arith);
  all_released = λ e. absurd (false≢true e);
  let_go = λ i lt e. absurd (ground arith);
}
Reach-Inv nn few (next r step) = Step-Inv nn few (Reach-Inv nn few r) step

-- With at most 255 threads: unless the server is stopping, a thread runs its event loop only once all
-- threads have arrived, each having counted itself in.
pub looping-AllArrived :
    (nn : ℕ) {s : System}
    → nn < 2 ^ 8
    → Reach nn s
    → s.stop ≡ false
    → (i : ℕ) → i < nn
    → s.pc i ≡ looping
    → AllArrived nn s
looping-AllArrived nn few r going i lt e =
    let v = Reach-Inv nn few r in
    elim (v.let_go i lt e) [
      | inl released ↦ v.all_released released
      | inr stopped ↦ absurd (false≢true (sym going ∙ stopped))
    ]

-- The barrier opens: with 1 to 255 threads, when all of them wait, the main thread sees them all, and
-- after it has set the flag, every other thread that still waits sees that.
all_waiting-opens :
    (nn : ℕ) {s : System}
    → 0 < nn
    → nn < 2 ^ 8
    → Reach nn s
    → ((i : ℕ) → i < nn → s.pc i ≡ waiting)
    → (t : System) × Step nn s (move s 0 ready)
      × Step nn (move s 0 ready) t
      × ((i : ℕ) → i ≢ 0 → i < nn → Step nn t (move t i looping))
all_waiting-opens nn {s} some_thread few r all = (
  record (move (move s 0 ready) 0 looping) { release_sub_thread = true },
  access 0 some_thread (see_all refl (all 0 some_thread) seen),
  access 0 some_thread (set_release refl),
  λ i sub lt. access i lt (see_release sub (ground (arith, all i lt)) refl),
)
  where
    seen : s.n_on_threads ≡ nn
    seen =
        (Reach-Inv nn few r).counts
        ∙ total-all counted counted_small nn s.pc (λ j below. ap counted (all j below))
