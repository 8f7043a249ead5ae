-- ===== src/Targets/Probe/Dominant.antt =====
-- The dominant first word of the objects in Memory/GTA_Target_Evidence.cpp.
use devilz_den.Prelude.{
  ℕ, ◌≤◌, ◌≡◌, ◌≢◌, ◌⊎◌, inl, inr, refl, sym, ap, List, [], ◌∷◌, true, ◌==◌, ltb, All, arith,
  ltb→lt, Bool-cases,
}
use devilz_den.Targets.Probe.{occurrences, dominant_loop, dominant, prefer}

-- The outcome of the loop over `rest`, from `best` on.
abbrev Improves : List ℕ → List ℕ → ℕ × ℕ → ℕ × ℕ → Type 0
Improves targets rest best r =
    (best.1 ≤ r.1)
    × All (λ b. occurrences b targets ≤ r.1) rest
    × ((r ≡ best) ⊎ (r.1 ≡ occurrences r.0 targets))

-- One round of it.
prefer-Improves :
    (targets : List ℕ) (a : ℕ) (best : ℕ × ℕ)
    → Improves targets (a ∷ []) best (prefer targets a best)
unfolding prefer
prefer-Improves targets a (address, count) = elim (Bool-cases (ltb count (occurrences a targets))) [
  | inl h ↦
      rw h (omega (arith, ltb→lt count (occurrences a targets) h), (omega arith, tt), inr refl)
  | inr h ↦ rw h (omega arith, (ground (arith, h), tt), inl refl)
]

dominant_loop-Improves :
    (targets rest : List ℕ) (best : ℕ × ℕ)
    → Improves targets rest best (dominant_loop targets rest best)
unfolding dominant_loop
dominant_loop-Improves targets [] best = (omega arith, tt, inl refl)
dominant_loop-Improves targets (a ∷ rest) best =
    let (least, here, first) = prefer-Improves targets a best in
    let (more, all, found) = dominant_loop-Improves targets rest (prefer targets a best) in
    (
      omega (arith, least, more),
      (omega (arith, here.0, more), all),
      elim found [ inl e ↦ rw e first | inr e ↦ inr e ],
    )

-- A word that is not in the list does not occur; one that is has at least its bound.
All-occurrences :
    (y n : ℕ) (targets rest : List ℕ)
    → All (λ b. occurrences b targets ≤ n) rest
    → (occurrences y rest ≡ 0) ⊎ (occurrences y targets ≤ n)
All-occurrences y n targets [] a = inl refl
All-occurrences y n targets (b ∷ rest) a = elim (Bool-cases (b == y)) [
  | inl h ↦ inr (rw (sym (same h)) a.0)
  | inr h ↦ elim (All-occurrences y n targets rest a.1) [
    | inl e ↦ inl (rw h (omega (arith, e)))
    | inr e ↦ inr e
  ]
]
  where
    same : (b == y) ≡ true → b ≡ y
    same h = ground (arith, h)

-- The dominant word of a list is one that occurs most often, and its count is how often: no word
-- occurs more often, and where the count is not 0 it is the number of its occurrences.
pub dominant-IsMode :
    (targets : List ℕ)
    → ((y : ℕ) → occurrences y targets ≤ (dominant targets).1)
      × ((dominant targets).1 ≢ 0 → (dominant targets).1 ≡ occurrences (dominant targets).0 targets)
unfolding dominant
dominant-IsMode targets =
    let (more, all, found) = dominant_loop-Improves targets targets (0, 0) in
    (
      λ y. elim (All-occurrences y _ targets targets all) [ inl e ↦ omega (arith, e) | inr e ↦ e ],
      λ n. elim found [ inl e ↦ absurd (n (ap (λ r. r.1) e)) | inr e ↦ e ],
    )
