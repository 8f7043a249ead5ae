-- ===== src/Script/Globals/Resolution.antt =====
-- From the blocks given to `Configure` to the slot of an index.
use devilz_den.Prelude.{
  ℕ, ◌+◌, ◌-◌, ◌*◌, ◌%◌, ◌^◌, ◌<◌, ◌≤◌, ◌≡◌, refl, subst, List, [], ◌∷◌, true, false, arith, none,
  some, inl, inr, ◌⊎◌, All, Bool-cases, ltb, leb,
}
use devilz_den.Backend.Error.{success, has_value}
use devilz_den.Backend.Range.{add}
use devilz_den.Script.Globals.{
  Block, contains, GlobalManager, check_blocks, insert_block, sort_blocks, check_overlap, configure,
  find_block, resolve,
}

-- The block is one of the list.
abbrev pub Has : Block → List Block → Type 0
Has b [] = ⊥
Has b (c ∷ cs) = (c ≡ b) ⊎ Has b cs

pub record IsUsable (b : Block) : Type 0 where
  pub has_slots : 0 < b.slot_count
  pub has_base : 0 < b.base.address
  pub fits : b.first_index + b.slot_count < 2 ^ 32

All-Has : (b : Block) (bs : List Block) → All IsUsable bs → Has b bs → IsUsable b
All-Has b [] a k = absurd k
All-Has b (c ∷ bs) a (inl e) = subst IsUsable e a.0
All-Has b (c ∷ bs) a (inr k) = All-Has b bs a.1 k

check_blocks-IsUsable :
    (bs : List Block)
    → All (λ b. b.slot_count < 2 ^ 32) bs
    → has_value (check_blocks bs) ≡ true
    → All IsUsable bs
unfolding check_blocks
check_blocks-IsUsable [] w h = tt
check_blocks-IsUsable (b ∷ bs) w h = ground (arith, check_blocks-IsUsable bs w.1)

insert_block-Has : (b c : Block) (cs : List Block) → Has b (c ∷ cs) → Has b (insert_block c cs)
unfolding insert_block
insert_block-Has b c [] h = h
insert_block-Has b c (d ∷ cs) h = elim (Bool-cases (leb c.first_index d.first_index)) [
  | inl q ↦ rw q h
  | inr q ↦ rw q (swapped (λ k. insert_block-Has b c cs k) h)
]
  where
    swapped :
        (Has b (c ∷ cs) → Has b (insert_block c cs))
        → Has b (c ∷ d ∷ cs)
        → Has b (d ∷ insert_block c cs)
    swapped rest (inl e) = inr (rest (inl e))
    swapped rest (inr (inl e)) = inl e
    swapped rest (inr (inr k)) = inr (rest (inr k))

sort_blocks-Has : (b : Block) (bs : List Block) → Has b bs → Has b (sort_blocks bs)
unfolding sort_blocks
sort_blocks-Has b [] h = h
sort_blocks-Has b (c ∷ bs) (inl e) = insert_block-Has b c (sort_blocks bs) (inl e)
sort_blocks-Has b (c ∷ bs) (inr h) =
    insert_block-Has b c (sort_blocks bs) (inr (sort_blocks-Has b bs h))

insert_block-All :
    (c : Block) (cs : List Block) → IsUsable c → All IsUsable cs → All IsUsable (insert_block c cs)
unfolding insert_block
insert_block-All c [] u us = (u, tt)
insert_block-All c (d ∷ cs) u us = ground (arith, insert_block-All c cs u us.1)

sort_blocks-All : (bs : List Block) → All IsUsable bs → All IsUsable (sort_blocks bs)
unfolding sort_blocks
sort_blocks-All [] us = tt
sort_blocks-All (b ∷ bs) us = insert_block-All b (sort_blocks bs) us.0 (sort_blocks-All bs us.1)

-- Every block of the list begins at `n` or later, and ends before the next one begins.
abbrev pub Apart : ℕ → List Block → Type 0
Apart n [] = Unit
Apart n (b ∷ bs) = (n ≤ b.first_index) × Apart (b.first_index + b.slot_count) bs

check_overlap-Apart :
    (b : Block) (bs : List Block)
    → All IsUsable (b ∷ bs)
    → has_value (check_overlap (b ∷ bs)) ≡ true
    → Apart b.first_index (b ∷ bs)
unfolding check_overlap
check_overlap-Apart b [] us h = (omega arith, tt)
check_overlap-Apart b (c ∷ cs) us h = elim (Bool-cases (ltb c.first_index b_end)) [
  | inl q ↦ absurd (ground arith)
  | inr q ↦
      let rest : Apart c.first_index (c ∷ cs) = check_overlap-Apart c cs us.1 (rw q at h) in
      (omega arith, (ground (arith, us.0.fits), rest.1))
]
  where
    b_end : ℕ
    b_end = (b.first_index + b.slot_count) % 2 ^ 32

find_block-below :
    (n index : ℕ) (bs : List Block) → Apart n bs → index < n → find_block bs index ≡ none
unfolding find_block contains
find_block-below n index [] a h = refl
find_block-below n index (b ∷ bs) a h =
    ground (arith, find_block-below (b.first_index + b.slot_count) index bs a.1)

find_block-Has :
    (n index : ℕ) (b : Block) (bs : List Block)
    → Apart n bs
    → Has b bs
    → contains b index ≡ true
    → find_block bs index ≡ some b
unfolding find_block
find_block-Has n index b [] a k h = absurd k
find_block-Has n index b (c ∷ bs) a (inl e) h = rw (e, h) refl
find_block-Has n index b (c ∷ bs) a (inr k) h =
    let found = find_block-Has (c.first_index + c.slot_count) index b bs a.1 k h in
    elim (Bool-cases (contains c index)) [
      | inl q ↦
          let missing =
            find_block-below (c.first_index + c.slot_count) index bs a.1
              (unfold contains in ground arith) in
          absurd cc
      | inr q ↦ rw q found
    ]

-- A block and its list, after `Configure` accepted them.
module _ (g : GlobalManager) (bs : List Block) (fingerprint : ℕ) where
  abbrev Accepted : Type 0
  Accepted = has_value (configure g bs fingerprint).1 ≡ true

  configure-accepted :
      All (λ b. b.slot_count < 2 ^ 32) bs
      → Accepted
      → (0 < fingerprint)
        × (has_value (check_blocks bs) ≡ true)
        × (has_value (check_overlap (sort_blocks bs)) ≡ true)
        × ((configure g bs fingerprint).0
            ≡ record { blocks = sort_blocks bs; build_fingerprint = fingerprint })
  unfolding configure
  configure-accepted w h = ground arith

  -- A refused configuration changes nothing.
  configure-refused :
      has_value (configure g bs fingerprint).1 ≡ false → (configure g bs fingerprint).0 ≡ g
  unfolding configure
  configure-refused h = ground arith

Apart-sorted : (l : List Block) → All IsUsable l → has_value (check_overlap l) ≡ true → Apart 0 l
Apart-sorted [] us h = tt
Apart-sorted (b ∷ bs) us h = (omega arith, (check_overlap-Apart b bs us h).1)

-- Once `Configure` has accepted a list of blocks, in any order, an index that a block of the list
-- contains resolves to the slot of that block: its base plus 8 bytes for each index before it.
pub resolve-configure :
    (g : GlobalManager) (bs : List Block) (fingerprint : ℕ) (b : Block) (index : ℕ)
    → All (λ c. c.slot_count < 2 ^ 32) bs
    → has_value (configure g bs fingerprint).1 ≡ true
    → Has b bs
    → b.first_index ≤ index
    → index < b.first_index + b.slot_count
    → resolve (configure g bs fingerprint).0 index
      ≡ success (record { address = (b.base.address + (index - b.first_index) * 8) % 2 ^ 64 })
unfolding resolve add
resolve-configure g bs fingerprint b index w h k lo hi =
    let (known, checked, separate, state) = configure-accepted g bs fingerprint w h in
    let usable = sort_blocks-All bs (check_blocks-IsUsable bs w checked) in
    let found =
      find_block-Has 0 index b (sort_blocks bs) (Apart-sorted (sort_blocks bs) usable separate)
        (sort_blocks-Has b bs k) (unfold contains in ground arith) in
    let small = All-Has b bs (check_blocks-IsUsable bs w checked) k in
    rw (state, found) (ground (arith, small.fits))
