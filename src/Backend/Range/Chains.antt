-- ===== src/Backend/Range/Chains.antt =====
-- Pointer chains.
use devilz_den.Prelude.{◌≡◌, refl, List, [], ◌∷◌, ◌++◌, arith, and_then}
use devilz_den.Prelude.Int.{ℤ}
use devilz_den.Backend.Range.{Memory, MemoryRange, Pointer, add, read_bytes, follow_loop}

-- Following a pointer chain and then another is following the joined chain: it fails where the first
-- part does, and otherwise goes on from where that part ended.
follow_loop-append :
    (m : Memory) (r : MemoryRange) (xs ys : List ℤ) (p : Pointer)
    → follow_loop m r (xs ++ ys) p ≡ and_then (follow_loop m r xs p) (follow_loop m r ys)
unfolding follow_loop
follow_loop-append m r [] ys p = refl
follow_loop-append m r (x ∷ xs) ys p =
    ground
      (arith, follow_loop-append m r xs ys (record { address = read_bytes m (add p x).address 8 }))
