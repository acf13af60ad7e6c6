-- ===== src/Server/Shutdown/Wait.antt =====
-- How long the server waits for its threads.
use teavpn.Common.{ℕ, zero, suc, ◌+◌, ◌≤◌, ◌<◌, ◌≡◌, arith, true, ◌↔◌}
use mathlib.Core.Bool.{false≢true}
use native.Mathlib.Decide.{ℕ_discrete}
use teavpn.Server.Shutdown.{wait_loop, wait_for_exit, wait_rounds}

-- A load before the last one, from `from` on, that saw no thread.
abbrev Gone : ℕ → ℕ → (ℕ → ℕ) → Type 0
Gone from last seen = (k : ℕ) × (from ≤ k) × (k < last) × (seen k ≡ 0)

wait_loop-stops :
    (rounds wait_c : ℕ) (seen : ℕ → ℕ)
    → wait_c < 1002
    → wait_loop rounds wait_c seen ≡ true
    → Gone wait_c 1002 seen
unfolding wait_loop
wait_loop-stops zero wait_c seen h e = absurd (false≢true e)
wait_loop-stops (suc rounds) wait_c seen h e = elim (ℕ_discrete (seen wait_c) 0) [
  | yes z ↦ (wait_c, omega arith, h, z)
  | no z ↦ elim (ℕ_discrete wait_c 1001) [
    | yes l ↦ absurd (ground arith)
    | no l ↦
        let (k, from, below, zero_at) =
          wait_loop-stops rounds (wait_c + 1) seen (omega arith) (ground arith) in
        (k, omega arith, below, zero_at)
  ]
]

wait_loop-waits :
    (rounds wait_c k : ℕ) (seen : ℕ → ℕ)
    → 1002 ≤ rounds + wait_c
    → wait_c ≤ k
    → k < 1002
    → seen k ≡ 0
    → wait_loop rounds wait_c seen ≡ true
unfolding wait_loop
wait_loop-waits zero wait_c k seen h from below e = absurd (omega arith)
wait_loop-waits (suc rounds) wait_c k seen h from below e = elim (ℕ_discrete wait_c k) [
  | yes same ↦ ground (arith, e, same)
  | no other ↦
      ground (arith, wait_loop-waits rounds (wait_c + 1) k seen (omega arith) (omega arith) below e)
]

-- The server waits for at most 1003 loads: with 1002 rounds for the loop, or with more, it finds the
-- threads gone exactly if one of the loads 0 to 1002 saw none.
pub wait_for_exit_iff :
    (more : ℕ) (seen : ℕ → ℕ)
    → (wait_for_exit (wait_rounds + more) seen ≡ true) ↔ ((k : ℕ) × (k < 1003) × (seen k ≡ 0))
unfolding wait_for_exit
wait_for_exit_iff more seen = elim (ℕ_discrete (seen 0) 0) [
  | yes z ↦ (λ e. (0, omega arith, z), λ e. ground arith)
  | no z ↦ (
    λ e.
        let (k, from, below, zero_at) =
          wait_loop-stops (wait_rounds + more) 0 (λ k. seen (suc k)) (omega arith) (ground arith) in
        (suc k, omega arith, zero_at),
    λ (k, below, zero_at). later k below zero_at z,
  )
]
  where
    later :
        (k : ℕ)
        → k < 1003
        → seen k ≡ 0
        → (seen 0 ≡ 0 → ⊥)
        → wait_for_exit (wait_rounds + more) seen ≡ true
    later zero below e z = absurd (z e)
    later (suc k) below e z = ground (
      arith,
      wait_loop-waits (wait_rounds + more) 0 k (λ j. seen (suc j)) (omega arith) (omega arith)
          (omega arith) e,
    )
