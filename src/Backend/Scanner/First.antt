-- ===== src/Backend/Scanner/First.antt =====
-- The first result of the search.
use devilz_den.Prelude.{
  ℕ, zero, suc, ◌+◌, ◌-◌, ◌≤◌, ◌<◌, ◌≡◌, refl, subst, List, [], ◌∷◌, Bool, true, false, arith, ◌==◌,
  length, take, Bool-cases, inl, inr, Text,
}
use devilz_den.Backend.Error.{Result, success, has_value}
use devilz_den.Backend.Range.{Memory, MemoryRange}
use devilz_den.Backend.Pattern.{Pattern, compile}
use devilz_den.Backend.Scanner.{ScanResult, hit, scan, find_first, first_result}
use devilz_den.Backend.Scanner.Search.{all_matches, naive_match, naive_search, scan-naive_search}

-- The offsets of the plain search: `r` is its first result exactly if it is the lowest match.
pub record IsFirst (test : ℕ → Bool) (range : MemoryRange) (lo hi : ℕ) (r : ScanResult)
    : Type 0 where
  pub here : r ≡ hit range r.offset
  pub above : lo ≤ r.offset
  pub below : r.offset < hi
  pub matched : test r.offset ≡ true
  pub lowest : (i : ℕ) → lo ≤ i → i < r.offset → test i ≡ false

abbrev FirstOf : (ℕ → Bool) → MemoryRange → ℕ → ℕ → List ScanResult → Type 0
FirstOf test range lo hi [] = (i : ℕ) → lo ≤ i → i < hi → test i ≡ false
FirstOf test range lo hi (r ∷ rs) = IsFirst test range lo hi r

all_matches-FirstOf :
    (test : ℕ → Bool) (range : MemoryRange) (left offset : ℕ)
    → FirstOf test range offset (left + offset) (all_matches test range left offset)
unfolding all_matches
all_matches-FirstOf test range zero offset = λ i lo hi. absurd (omega arith)
all_matches-FirstOf test range (suc left) offset = elim (Bool-cases (test offset)) [
  | inl x ↦ rw x (record {
    here = refl;
    above = omega arith;
    below = omega arith;
    matched = x;
    lowest = λ i lo hi. absurd (omega arith);
  })
  | inr x ↦ rw x (
      shift (all_matches test range left (suc offset))
        (all_matches-FirstOf test range left (suc offset)) x)
]
  where
    below_too :
        (hi : ℕ)
        → test offset ≡ false
        → ((i : ℕ) → suc offset ≤ i → i < hi → test i ≡ false)
        → (i : ℕ) → offset ≤ i
        → i < hi
        → test i ≡ false
    below_too hi x h i lo up = elim (Bool-cases (i == offset)) [
      | inl q ↦ let q' : i ≡ offset = ground arith in rw q' x
      | inr q ↦ h i (ground arith) up
    ]

    shift :
        (l : List ScanResult)
        → FirstOf test range (suc offset) (left + suc offset) l
        → test offset ≡ false
        → FirstOf test range offset (suc left + offset) l
    shift [] h x = λ i lo hi. below_too (left + suc offset) x h i lo (omega arith)
    shift (r ∷ rs) h x = record {
      here = h.here;
      above = omega (arith, h.above);
      below = omega (arith, h.below);
      matched = h.matched;
      lowest = below_too r.offset x h.lowest;
    }

-- What `FindFirst` answers: the lowest match, or a failure because there is none.
pub data FindsFirst (test : ℕ → Bool) (range : MemoryRange) (hi : ℕ) (r : Result ScanResult)
    : Type 0 where
  found : (s : ScanResult) → r ≡ success s → IsFirst test range 0 hi s → FindsFirst test range hi r
  missing : has_value r ≡ false → ((i : ℕ) → i < hi → test i ≡ false) → FindsFirst test range hi r

first_result-FindsFirst :
    (test : ℕ → Bool) (range : MemoryRange) (hi : ℕ) (p : Pattern) (l : List ScanResult)
    → FirstOf test range 0 hi l
    → FindsFirst test range hi (first_result p (take 1 l))
unfolding first_result
first_result-FindsFirst test range hi p [] h = missing refl (λ i lt. h i (omega arith) lt)
first_result-FindsFirst test range hi p (r ∷ rs) h = found r refl h

-- With a compiled pattern that fits into the range, `FindFirst` answers the match at the lowest offset,
-- and fails exactly if the pattern matches nowhere.
pub find_first-FindsFirst :
    (m : Memory) (range : MemoryRange) (s : Text) (p : Pattern)
    → compile s ≡ success p
    → 0 < range.begin
    → length p.tokens ≤ range.size
    → FindsFirst
        (naive_match m range p)
        range
        (range.size - length p.tokens + 1)
        (find_first m range p).1
unfolding find_first
find_first-FindsFirst m range s p hc hb fits =
    rw (searched, find_first)
      (first_result-FindsFirst (naive_match m range p) range (range.size - length p.tokens + 1) p
        (naive_search m range p)
        (subst (λ k. FirstOf (naive_match m range p) range 0 k (naive_search m range p)) unshifted
          (all_matches-FirstOf (naive_match m range p) range (range.size - length p.tokens + 1) 0)))
  where
    searched : (scan m range p 1).1 ≡ success (take 1 (naive_search m range p))
    searched = (scan-naive_search m range s p 1 hc hb fits).0

    unshifted : range.size - length p.tokens + 1 + 0 ≡ range.size - length p.tokens + 1
    unshifted = omega arith
