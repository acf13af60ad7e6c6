-- ===== src/Alloc/Aligned.antt =====
-- The blocks that the allocator hands out.
use teavpn.Common.{
  false, ℕ, ◌+◌, ◌-◌, ◌*◌, ◌%◌, ◌^◌, ◌≤◌, ◌<◌, ◌≡◌, refl, ap, ◌≢◌, arith, Option, some, ◌==◌, leb,
  ◌∙◌, Ret, ret,
}
use teavpn.Alloc.{
  Memory, store, align, al64_calloc, place, block, al64_malloc, al64_free, al64_realloc,
}

-- The part of a block of `size + 64` bytes at `orig` that the user gets at `aligned`: 64 divides the
-- address, the `size` bytes from there on lie within the block, and the byte before them too.
pub record Fits (orig size aligned : ℕ) : Type 0 where
  pub divides : aligned % 64 ≡ 0
  pub after : orig < aligned
  pub within : aligned + size ≤ orig + size + 64

align-Fits : (orig size : ℕ) → orig + 64 < 2 ^ 64 → Fits orig size (align orig)
align-Fits orig size h = record {
  divides = ground arith;
  after = omega arith;
  within = omega arith;
}

stored : (mem : Memory) (at byte : ℕ) → store mem at byte at ≡ byte
stored mem at byte = ground arith

-- The byte before the user's address leads back to the block, as long as it is not overwritten.
placed-block :
    (mem after : Memory) (orig : ℕ)
    → orig + 64 < 2 ^ 64
    → (let (aligned, mem') = place mem orig in after (aligned - 1) ≡ mem' (aligned - 1))
    → block after (align orig) ≡ orig
placed-block mem after orig h same =
    omega (arith, same, stored mem (align orig - 1) ((align orig - orig) % 256))

-- What an allocation gives: an address that fits into the block, memory that differs only in the byte
-- before it, and the block's start for al64_free(), as long as that byte stays.
pub record Gives (mem : Memory) (orig size : ℕ) (r : Ret) (mem' : Memory) : Type 0 where
  pub aligned : ℕ
  pub returns : r ≡ ret aligned
  pub fits : Fits orig size aligned
  pub others : (a : ℕ) → a < orig → mem' a ≡ mem a
  pub inside : (k : ℕ) → mem' (aligned + k) ≡ mem (aligned + k)
  pub freed :
      (after : Memory)
      → after (aligned - 1) ≡ mem' (aligned - 1)
      → al64_free after aligned ≡ some orig

other_byte : (mem : Memory) (at byte a : ℕ) → a ≢ at → store mem at byte a ≡ mem a
other_byte mem at byte a ne = ground arith

nonzero : (orig : ℕ) → orig + 64 < 2 ^ 64 → (align orig == 0) ≡ false
nonzero orig h = ground (arith, (align-Fits orig 0 h).after)

place-inside :
    (mem : Memory) (orig k : ℕ)
    → orig + 64 < 2 ^ 64
    → (place mem orig).1 (align orig + k) ≡ mem (align orig + k)
place-inside mem orig k h =
    other_byte mem _ _ (align orig + k) (omega (arith, (align-Fits orig 0 h).after))

place-Gives :
    (mem : Memory) (orig size : ℕ)
    → orig + 64 < 2 ^ 64
    → let (aligned, mem') = place mem orig in Gives mem orig size (ret aligned) mem'
unfolding al64_free
place-Gives mem orig size h = record {
  aligned = align orig;
  returns = refl;
  fits = align-Fits orig size h;
  others = λ a below. other_byte mem _ _ a (omega (arith, (align-Fits orig size h).after, below));
  inside = λ k. place-inside mem orig k h;
  freed = λ after same. rw (nonzero orig h) (ap some (placed-block mem after orig h same));
}

-- If malloc() has a block of `size + 64` bytes, whose start is not in the last 64 bytes of the address
-- space, `al64_malloc` returns an address in it that 64 divides and behind which `size` bytes lie in
-- the block; nothing before the block and none of the user's bytes is written; and as long as the byte
-- before the address stays, al64_free() passes the block's start to free(). `size + 64` is below 2^64.
pub al64_malloc_lem :
    (malloc : ℕ → Option ℕ) (mem : Memory) (size orig : ℕ)
    → size + 64 < 2 ^ 64
    → malloc (size + 64) ≡ some orig
    → orig + 64 < 2 ^ 64
    → let (r, mem') = al64_malloc malloc mem size in Gives mem orig size r mem'
unfolding al64_malloc
al64_malloc_lem malloc mem size orig small found h =
    let same : (size + 64) % 2 ^ 64 ≡ size + 64 = omega arith in
    rw (same, found, al64_malloc) (place-Gives mem orig size h)

-- If realloc() moves the block of `user` to one of `new_size + 64` bytes, under the same conditions,
-- `al64_realloc` gives what al64_malloc() gives, on the memory after the move.
al64_realloc_lem :
    (malloc : ℕ → Option ℕ) (realloc : ℕ → ℕ → Option (ℕ × Memory)) (mem moved : Memory)
    (user new_size orig : ℕ)
    → (user == 0) ≡ false
    → new_size + 64 < 2 ^ 64
    → realloc (block mem user) (new_size + 64) ≡ some (orig, moved)
    → orig + 64 < 2 ^ 64
    → let (r, mem') = al64_realloc malloc realloc mem user new_size in
      Gives moved orig new_size r mem'
unfolding al64_realloc
al64_realloc_lem malloc realloc mem moved user new_size orig given small found h =
    let same : (new_size + 64) % 2 ^ 64 ≡ new_size + 64 = omega arith in
    rw (given, same, found, al64_realloc) (place-Gives moved orig new_size h)

-- Where calloc() zeroes the block, under the same conditions, the user's bytes from al64_calloc() are
-- zero, and it gives what al64_malloc() gives, on the zeroed memory.
al64_calloc_lem :
    (calloc : ℕ → Option (ℕ × Memory)) (mem zeroed : Memory) (nmemb size orig : ℕ)
    → nmemb * size + 64 < 2 ^ 64
    → calloc (nmemb * size + 64) ≡ some (orig, zeroed)
    → ((a : ℕ) → orig ≤ a → a < orig + nmemb * size + 64 → zeroed a ≡ 0)
    → orig + 64 < 2 ^ 64
    → let (r, mem') = al64_calloc calloc mem nmemb size in
      Gives zeroed orig (nmemb * size) r mem'
      × ((k : ℕ) → k < nmemb * size → mem' (align orig + k) ≡ 0)
unfolding al64_calloc
al64_calloc_lem calloc mem zeroed nmemb size orig small found zero_filled h =
    let total = nmemb * size in
    let same : (total + 64) % 2 ^ 64 ≡ total + 64 = omega arith in
    let fits : leb (2 ^ 64) total ≡ false = ground arith in
    rw (fits, same, found, al64_calloc)
      (
        place-Gives zeroed orig total h,
        λ k below.
            place-inside zeroed orig k h
            ∙ zero_filled (align orig + k) (omega (arith, (align-Fits orig total h).after))
                (omega (arith, (align-Fits orig total h).within, below)),
      )
