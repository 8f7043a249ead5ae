-- ===== src/Backend/Pattern/Anchor.antt =====
-- The anchor of a compiled pattern, and the runs of exact bytes in it.
use devilz_den.Prelude.{
  ℕ, zero, suc, ◌+◌, ◌≤◌, ◌<◌, ◌≡◌, ap, sym, ◌∙◌, List, [], ◌∷◌, Bool, true, false, arith, length,
  Text, Bool-cases, inl, inr, if◌then◌else◌, ◌==◌, not, leb, ◌⊎◌,
}
use devilz_den.Backend.Pattern.{Token, Run, Pattern, close_run, anchor_loop, with_anchor, exact_at}

abbrev run : ℕ → ℕ → Run
run o l = record { offset = o; len = l }

-- Every place of the run passes the test.
abbrev pub IsRun : (ℕ → Bool) → Run → Type 0
IsRun e r = (i : ℕ) → r.offset ≤ i → i < r.offset + r.len → e i ≡ true

-- Each run that ends at `n` or before is at most `k` long.
abbrev RunsWithin : (ℕ → Bool) → ℕ → ℕ → Type 0
RunsWithin e n k = (o l : ℕ) → IsRun e (run o l) → o + l ≤ n → l ≤ k

abbrev RunsEndingAt : (ℕ → Bool) → ℕ → ℕ → Type 0
RunsEndingAt e n k = (o l : ℕ) → IsRun e (run o l) → o + l ≡ n → l ≤ k

module _ (e : ℕ → Bool) where
  close_run-IsRun :
      (start len : ℕ) (best : Run)
      → IsRun e (run start len)
      → IsRun e best
      → IsRun e (close_run start len best)
  unfolding close_run
  close_run-IsRun start len best hr hb i = ground (arith, hr i, hb i)

  IsRun-grow :
      (start len index : ℕ)
      → IsRun e (run start len)
      → (0 < len → start + len ≡ index)
      → e index ≡ true
      → IsRun e (run (if len == 0 then index else start) (suc len))
  IsRun-grow start zero index h at x i = λ lo hi. let q : i ≡ index = omega arith in rw q x
  IsRun-grow start (suc len) index h at x i = λ lo hi. elim (Bool-cases (i == index)) [
    | inl q ↦ let q' : i ≡ index = ground arith in rw q' x
    | inr q ↦ h i (ground arith) (ground arith)
  ]

  anchor_loop-IsRun :
      (ts : List Token) (index start len : ℕ) (best : Run)
      → ((i : ℕ) → exact_at ts i ≡ e (index + i))
      → IsRun e (run start len)
      → (0 < len → start + len ≡ index)
      → IsRun e best
      → IsRun e (anchor_loop ts index start len best)
  unfolding anchor_loop
  anchor_loop-IsRun [] index start len best he hr at hb = close_run-IsRun start len best hr hb
  anchor_loop-IsRun (t ∷ ts) index start len best he hr at hb = elim (Bool-cases (not t.wildcard)) [
    | inl x ↦ rw x (
        anchor_loop-IsRun ts (suc index) (if len == 0 then index else start) (suc len) best
          (λ i. tail_agrees i) (IsRun-grow start len index hr at (here x)) (ground arith) hb)
    | inr x ↦ rw x (
        anchor_loop-IsRun ts (suc index) start 0 (close_run start len best) (λ i. tail_agrees i)
          (λ i lo hi. absurd (omega arith)) (λ h. absurd (omega arith))
          (close_run-IsRun start len best hr hb))
  ]
    where
      tail_agrees : (i : ℕ) → exact_at ts i ≡ e (suc index + i)
      tail_agrees i = he (suc i) ∙ ap e (omega arith)

      here : not t.wildcard ≡ true → e index ≡ true
      here x = ap e (omega arith) ∙ sym (he 0) ∙ x

  close_run-le :
      (k start len : ℕ) (best : Run)
      → (k ≤ best.len) ⊎ (k ≤ len)
      → k ≤ (close_run start len best).len
  unfolding close_run
  close_run-le k start len best h = ground arith

  -- One more exact place lengthens the runs that end at the place before by one.
  RunsEndingAt-suc : (n k : ℕ) → RunsEndingAt e n k → RunsEndingAt e (suc n) (suc k)
  RunsEndingAt-suc n k h o zero r q = omega arith
  RunsEndingAt-suc n k h o (suc l) r q =
      let shorter : l ≤ k = h o l (λ i lo hi. r i lo (omega arith)) (omega arith) in omega arith

  RunsEndingAt-stop : (n : ℕ) → e n ≡ false → RunsEndingAt e (suc n) 0
  RunsEndingAt-stop n x o zero r q = omega arith
  RunsEndingAt-stop n x o (suc l) r q = let y : e n ≡ true = r n (omega arith) (omega arith) in cc

  abbrev Covered : ℕ → ℕ → ℕ → Type 0
  Covered n a b = (o l : ℕ) → IsRun e (run o l) → o + l ≤ n → (l ≤ a) ⊎ (l ≤ b)

  Covered-suc :
      (n a b c d : ℕ)
      → Covered n a b
      → ((l : ℕ) → (l ≤ a) ⊎ (l ≤ b) → (l ≤ c) ⊎ (l ≤ d))
      → RunsEndingAt e (suc n) d
      → Covered (suc n) c d
  Covered-suc n a b c d h up last o l r q = elim (Bool-cases (leb (o + l) n)) [
    | inl y ↦ up l (h o l r (ground arith))
    | inr y ↦ inr (last o l r (ground arith))
  ]

  anchor_loop-longest :
      (ts : List Token) (index start len : ℕ) (best : Run)
      → ((i : ℕ) → exact_at ts i ≡ e (index + i))
      → Covered index best.len len
      → RunsEndingAt e index len
      → (o l : ℕ) → IsRun e (run o l)
      → o + l ≤ index + length ts
      → l ≤ (anchor_loop ts index start len best).len
  unfolding anchor_loop
  anchor_loop-longest [] index start len best he cov last o l r q =
      close_run-le l start len best (cov o l r (omega arith))
  anchor_loop-longest (t ∷ ts) index start len best he cov last o l r q =
      elim (Bool-cases (not t.wildcard)) [
        | inl x ↦ rw x (
            anchor_loop-longest ts (suc index) (if len == 0 then index else start) (suc len) best
              tail_agrees
              (Covered-suc index best.len len best.len (suc len) cov (λ k h. ground arith)
                (RunsEndingAt-suc index len last))
              (RunsEndingAt-suc index len last) o l r (omega arith))
        | inr x ↦ rw x (
            anchor_loop-longest ts (suc index) start 0 (close_run start len best) tail_agrees
              (Covered-suc index best.len len (close_run start len best).len 0 cov
                (λ k h. inl (close_run-le k start len best h)) (RunsEndingAt-stop index (here x)))
              (RunsEndingAt-stop index (here x)) o l r (omega arith))
      ]
    where
      tail_agrees : (i : ℕ) → exact_at ts i ≡ e (suc index + i)
      tail_agrees i = he (suc i) ∙ ap e (omega arith)

      here : not t.wildcard ≡ false → e index ≡ false
      here x = ap e (omega arith) ∙ sym (he 0) ∙ x

abbrev pub anchor_of : Pattern → Run
anchor_of p = record { offset = p.anchor_offset; len = p.anchor_length }

-- The anchor that is chosen covers exact bytes only.
pub with_anchor-IsRun :
    (s : Text) (ts : List Token) → IsRun (exact_at ts) (anchor_of (with_anchor s ts))
unfolding with_anchor
with_anchor-IsRun s ts =
    anchor_loop-IsRun (exact_at ts) ts 0 0 0 (run 0 0) (λ i. ap (exact_at ts) (omega arith))
      (λ i lo hi. absurd (omega arith)) (λ h. absurd (omega arith))
      (λ i lo hi. absurd (omega arith))

-- No run of exact bytes inside the pattern is longer than the anchor that is chosen.
pub with_anchor-longest :
    (s : Text) (ts : List Token) (o l : ℕ)
    → IsRun (exact_at ts) (run o l)
    → o + l ≤ length ts
    → l ≤ (with_anchor s ts).anchor_length
unfolding with_anchor
with_anchor-longest s ts o l r q =
    anchor_loop-longest (exact_at ts) ts 0 0 0 (run 0 0) (λ i. ap (exact_at ts) (omega arith))
      (λ o' l' r' q'. inl (omega arith)) (λ o' l' r' q'. omega arith) o l r (omega arith)
