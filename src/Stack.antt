-- ===== src/Stack.antt =====
-- The index stack of src/teavpn2/stack.h. It grows from the end of the array towards index 0.
pub mod Lifo
pub mod SelfTest
use teavpn.Common.{
  ℕ, zero, suc, ◌+◌, ◌-◌, ◌<◌, Bool, true, false, Option, none, some, List, ◌==◌, ltb,
  if◌then◌else◌, get_or, set, replicate, ◌&&◌,
}

-- `struct bt_stack`; the array holds `max_sp` 16-bit numbers.
pub record BtStack : Type 0 where
  pub sp : ℕ
  pub max_sp : ℕ
  pub arr : List ℕ

-- `bt_stack_pop`: `none` is the result -1.
unfoldable pub pop : BtStack → Option ℕ × BtStack
pop stk =
    if stk.sp == stk.max_sp
    then (none, stk)
    else (some (get_or stk.arr stk.sp 0), record stk { sp = stk.sp + 1 })

-- `bt_stack_push`: `none` is the result -1.
unfoldable pub push : BtStack → ℕ → Option ℕ × BtStack
push stk n =
    if stk.sp == 0
    then (none, stk)
    else (some n, record stk { sp = stk.sp - 1; arr = set stk.arr (stk.sp - 1) n })

-- `bt_stack_init`; `allocated` says whether calloc_wrp() returned memory.
unfoldable pub init : Bool → ℕ → Option BtStack
init allocated capacity =
    if allocated
    then some (record { sp = capacity; max_sp = capacity; arr = replicate capacity 0 })
    else none

-- The loops of `bt_stack_test`, each over the number of rounds left; the flag says that no
-- assertion has failed.
pop_empty : ℕ → BtStack → Bool × BtStack
pop_empty zero stk = (true, stk)
pop_empty (suc rounds) stk =
    let (r, stk') = pop stk in
    let (good, last) = pop_empty rounds stk' in
    elim r [ none ↦ (good, last) | some v ↦ (false, last) ]

-- `assert(bt_stack_push(stk, i) == (int32_t)i)` for the values from `i` on
fill : ℕ → ℕ → BtStack → Bool × BtStack
fill zero i stk = (true, stk)
fill (suc rounds) i stk =
    let (r, stk') = push stk i in
    let (good, last) = fill rounds (i + 1) stk' in
    elim r [ none ↦ (false, last) | some v ↦ (good && v == i, last) ]

push_full : ℕ → ℕ → BtStack → Bool × BtStack
push_full zero i stk = (true, stk)
push_full (suc rounds) i stk =
    let (r, stk') = push stk i in
    let (good, last) = push_full rounds (i + 1) stk' in
    elim r [ none ↦ (good, last) | some v ↦ (false, last) ]

-- `assert(bt_stack_pop(stk) == j)` for j counting down; the last decrement of `j` is not used.
drain : ℕ → BtStack → Bool × BtStack
drain zero stk = (true, stk)
drain (suc j) stk =
    let (r, stk') = pop stk in
    let (good, last) = drain j stk' in
    elim r [ none ↦ (false, last) | some v ↦ (good && v == j, last) ]

-- `bt_stack_test`, a debug build's self test: empty, filled, full, drained, empty again.
unfoldable pub bt_stack_test : BtStack → Bool × BtStack
unfolding pop_empty fill push_full drain
bt_stack_test stk =
    let capacity = stk.max_sp in
    let (a, s1) = pop_empty capacity stk in
    let (b, s2) = fill capacity 0 s1 in
    let (c, s3) = push_full capacity 0 s2 in
    let (d, s4) = drain capacity s3 in
    let (e, s5) = pop_empty capacity s4 in (ltb 0 capacity && a && b && c && d && e, s5)
