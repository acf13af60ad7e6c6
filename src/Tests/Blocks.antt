-- ===== src/Tests/Blocks.antt =====
-- The theorems on the allocator at concrete inputs.
use teavpn.Common.{refl, arith, some, leb, if◌then◌else◌}
use teavpn.Alloc.{Memory, al64_malloc}
use teavpn.Alloc.Aligned.{Gives, al64_malloc_lem}

-- every byte is 7
abbrev sevens : Memory
sevens a = 7

-- the bytes from 1000 on are zero
abbrev cleared : Memory
cleared a = if leb 1000 a then 0 else 7

al64_malloc_lem_example :
    let (r, mem') = al64_malloc (λ n. some 1000) sevens 100 in Gives sevens 1000 100 r mem'
al64_malloc_lem_example =
    al64_malloc_lem (λ n. some 1000) sevens 100 1000 (omega arith) refl (omega arith)
