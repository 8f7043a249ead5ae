-- ===== src/Backend/Range/Writes.antt =====
-- Bytes copied into and out of the memory of the process.
use devilz_den.Prelude.{
  ℕ, zero, suc, ◌+◌, ◌-◌, ◌<◌, ◌≡◌, refl, List, [], ◌∷◌, ◌&&◌, length, get_or, ltb, leb,
  if◌then◌else◌, ◌==◌, arith, ap, ◌∙◌, Bool, true, false, Bool-cases, inl, inr,
}
use devilz_den.Backend.Range.{Memory, bytes_at, write_bytes}

-- The address lies in a block of so many bytes.
abbrev pub in_block : ℕ → ℕ → ℕ → Bool
in_block a n x = leb a x && ltb x (a + n)

write_bytes-apply :
    (m : Memory) (a : ℕ) (bytes : List ℕ) (x : ℕ)
    → write_bytes m a bytes x
      ≡ (if in_block a (length bytes) x then get_or bytes (x - a) 0 else m x)
unfolding write_bytes
write_bytes-apply m a [] x = ground arith
write_bytes-apply m a (b ∷ bytes) x =
    ground (arith, write_bytes-apply (λ y. if y == a then b else m y) (suc a) bytes x)

get_or-bytes_at : (m : Memory) (a n i : ℕ) → i < n → get_or (bytes_at m a n) i 0 ≡ m (a + i)
unfolding bytes_at
get_or-bytes_at m a zero i h = absurd (omega arith)
get_or-bytes_at m a (suc n) zero h = ap m (omega arith)
get_or-bytes_at m a (suc n) (suc i) h =
    get_or-bytes_at m (suc a) n i (omega arith) ∙ ap m (omega arith)

pub length-bytes_at : (m : Memory) (a n : ℕ) → length (bytes_at m a n) ≡ n
unfolding bytes_at
length-bytes_at m a zero = refl
length-bytes_at m a (suc n) = ap suc (length-bytes_at m (suc a) n)

-- Outside the bytes that are written, the memory stays as it is.
pub write_bytes-outside :
    (m : Memory) (a : ℕ) (bytes : List ℕ) (x : ℕ)
    → in_block a (length bytes) x ≡ false
    → write_bytes m a bytes x ≡ m x
write_bytes-outside m a bytes x h = ground (arith, write_bytes-apply m a bytes x, h)

-- Bytes that are put back where they came from, over any other bytes, restore the memory there.
pub write_bytes-restore :
    (m k : Memory) (a n x : ℕ)
    → (in_block a n x ≡ false → k x ≡ m x)
    → write_bytes k a (bytes_at m a n) x ≡ m x
write_bytes-restore m k a n x h = elim (Bool-cases (in_block a n x)) [
  | inl i ↦ ground (
    arith,
    write_bytes-apply k a (bytes_at m a n) x,
    length-bytes_at m a n,
    i,
    get_or-bytes_at m a n (x - a) (omega (arith, inside i)),
    ap m (offset i),
  )
  | inr o ↦ ground (arith, write_bytes-apply k a (bytes_at m a n) x, length-bytes_at m a n, o, h o)
]
  where
    inside : in_block a n x ≡ true → x - a < n
    inside i = ground (arith, i)

    offset : in_block a n x ≡ true → a + (x - a) ≡ x
    offset i = ground (arith, i)
