-- ===== src/Alloc.antt =====
-- The allocator of src/teavpn2/allocator.c, which returns addresses that 64 divides. Memory is a
-- function from addresses to bytes; malloc(), calloc() and realloc() are parameters.
pub mod Aligned
use teavpn.Common.{
  ℕ, ◌+◌, ◌-◌, ◌*◌, ◌/◌, ◌%◌, ◌^◌, Option, none, some, leb, ◌==◌, if◌then◌else◌, Ret, ret, fail,
  enomem, eoverflow,
}

abbrev pub Memory : Type 0
Memory = ℕ → ℕ

abbrev pub store : Memory → ℕ → ℕ → Memory
store mem at byte a = if a == at then byte else mem a

-- `63ul + sizeof(shift)`
abbrev pub extra_size : ℕ
extra_size = 64

-- `(orig + extra_size) & ~63ul`
abbrev pub align : ℕ → ℕ
align orig = (orig + extra_size) % 2 ^ 64 / 64 * 64

-- The end of al64_malloc(), al64_calloc() and al64_realloc(): the address for the user, and the
-- distance to the block's start in the byte before it.
abbrev pub place : Memory → ℕ → ℕ × Memory
place mem orig =
    let aligned = align orig in (aligned, store mem (aligned - 1) ((aligned - orig) % 256))

-- `malloc size` is the address of the block, or `none`.
unfoldable pub al64_malloc : (ℕ → Option ℕ) → Memory → ℕ → Ret × Memory
al64_malloc malloc mem size = elim (malloc ((size + extra_size) % 2 ^ 64)) [
  | none ↦ (fail enomem, mem)
  | some orig ↦ (let (aligned, mem') = place mem orig in (ret aligned, mem'))
]

-- `calloc size` is the block's address and the memory with the block zeroed.
unfoldable pub al64_calloc : (ℕ → Option (ℕ × Memory)) → Memory → ℕ → ℕ → Ret × Memory
al64_calloc calloc mem nmemb size =
    if leb (2 ^ 64) (nmemb * size)
    then (fail eoverflow, mem)
    else elim (calloc ((nmemb * size + extra_size) % 2 ^ 64)) [
      | none ↦ (fail enomem, mem)
      | some (orig, zeroed) ↦ (let (aligned, mem') = place zeroed orig in (ret aligned, mem'))
    ]

-- The start of the block, from the address that the user has.
abbrev pub block : Memory → ℕ → ℕ
block mem user = user - mem (user - 1)

-- `al64_free`: the address that it passes to free(), `none` if it does not call it
unfoldable pub al64_free : Memory → ℕ → Option ℕ
al64_free mem user = if user == 0 then none else some (block mem user)

-- `realloc orig size` is the new block's address and the memory after the move.
unfoldable pub al64_realloc :
    (ℕ → Option ℕ) → (ℕ → ℕ → Option (ℕ × Memory)) → Memory → ℕ → ℕ → Ret × Memory
al64_realloc malloc realloc mem user new_size =
    if user == 0
    then al64_malloc malloc mem new_size
    else elim (realloc (block mem user) ((new_size + extra_size) % 2 ^ 64)) [
      | none ↦ (fail enomem, mem)
      | some (orig, moved) ↦ (let (aligned, mem') = place moved orig in (ret aligned, mem'))
    ]
