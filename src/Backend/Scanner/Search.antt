-- ===== src/Backend/Scanner/Search.antt =====
-- The scanner against the plain search that has no anchor.
use mathlib.Core.List.{append-nil, append_assoc}
use devilz_den.Prelude.Int.{u64_max}
use devilz_den.Prelude.{
  fun_ext, subst, ℕ, zero, suc, ◌+◌, ◌-◌, ◌≤◌, ◌<◌, ◌≡◌, refl, ap, sym, ◌∙◌, List, [], ◌∷◌, ◌++◌,
  Bool, true, arith, ltb, ◌==◌, if◌then◌else◌, length, take, Bool-cases, ltb→lt, take_of_length-le,
  take-append_full, length-append, inl, inr, ◌⊎◌, Text,
}
use devilz_den.Backend.Error.{Result, success, fail_runtime}
use devilz_den.Backend.Range.{Memory, MemoryRange}
use devilz_den.Backend.Pattern.{Token, Pattern, token_at, exact_at, compile}
use devilz_den.Backend.Pattern.Anchor.{IsRun, anchor_of, with_anchor-IsRun}
use devilz_den.Backend.Pattern.Parsing.{compile-IsCompiled}
use devilz_den.Backend.Scanner.{
  ScanResult, ScanStats, matches, anchor_matches, is_match, hit, scan_loop, scan, no_stats,
}

-- A match agrees with every exact token.
matches-token_at :
    (m : Memory) (a : ℕ) (ts : List Token) (i : ℕ)
    → matches m a ts ≡ true
    → exact_at ts i ≡ true
    → m (a + i) ≡ (token_at ts i).value
unfolding matches
matches-token_at m a [] i h x = cc
matches-token_at m a (t ∷ ts) zero h x =
    let here : a + 0 ≡ a = omega arith in rw here (ground arith)
matches-token_at m a (t ∷ ts) (suc i) h x =
    let next : a + suc i ≡ suc a + i = omega arith in
    rw next (matches-token_at m (suc a) ts i (ground arith) x)

anchor_matches_of :
    (m : Memory) (a : ℕ) (ts : List Token) (place left : ℕ)
    → matches m a ts ≡ true
    → ((i : ℕ) → place ≤ i → i < place + left → exact_at ts i ≡ true)
    → anchor_matches m a ts place left ≡ true
unfolding anchor_matches
anchor_matches_of m a ts place zero h x = refl
anchor_matches_of m a ts place (suc left) h x = ground (
  arith,
  matches-token_at m a ts place h (x place (omega arith) (omega arith)),
  anchor_matches_of m a ts (suc place) left h (λ i lo hi. x i (omega arith) (omega arith)),
)

-- The anchor test never turns a match away.
is_match_lem :
    (m : Memory) (range : MemoryRange) (p : Pattern) (offset : ℕ)
    → IsRun (exact_at p.tokens) (anchor_of p)
    → is_match m range p offset ≡ matches m (range.begin + offset) p.tokens
unfolding is_match
is_match_lem m range p offset h = elim (Bool-cases (matches m (range.begin + offset) p.tokens)) [
  | inl x ↦
      rw
        (x, anchor_matches_of m (range.begin + offset) p.tokens p.anchor_offset p.anchor_length x h)
  | inr x ↦ ground arith
]

-- The matches among `left` offsets from `offset` on, in order: the search without limit.
unfoldable pub all_matches : (ℕ → Bool) → MemoryRange → ℕ → ℕ → List ScanResult
all_matches test range zero offset = []
all_matches test range (suc left) offset =
    (if test offset then hit range offset ∷ [] else []) ++ all_matches test range left (suc offset)

scan_loop_lem :
    (test : ℕ → Bool) (range : MemoryRange) (max left offset : ℕ) (found : List ScanResult) (c : ℕ)
    → length found ≤ max
    → (scan_loop test range max left offset found c).0
      ≡ take max (found ++ all_matches test range left offset)
unfolding scan_loop all_matches
scan_loop_lem test range max zero offset found c h =
    rw append-nil (sym (take_of_length-le max found h))
scan_loop_lem test range max (suc left) offset found c h =
    elim (Bool-cases (ltb (length found) max)) [
      | inl room ↦ elim (Bool-cases (test offset)) [
        | inl t ↦
            rw (room, t)
              (scan_loop_lem test range max left (suc offset) (found ++ hit range offset ∷ [])
                  (suc c) (longer (ltb→lt _ _ room))
                ∙ ap (take max) (append_assoc found _ _))
        | inr t ↦ rw (room, t) (scan_loop_lem test range max left (suc offset) found (suc c) h)
      ]
      | inr full ↦
          rw (full, take-append_full max found _ (ground arith))
            (sym (take_of_length-le max found h))
    ]
  where
    longer : length found < max → length (found ++ hit range offset ∷ []) ≤ max
    longer room = omega (arith, length-append {0} found (hit range offset ∷ []))

-- Each offset looked at is counted once.
scan_loop-candidates-le :
    (test : ℕ → Bool) (range : MemoryRange) (max left offset : ℕ) (found : List ScanResult) (c : ℕ)
    → (scan_loop test range max left offset found c).1 ≤ left + c
unfolding scan_loop
scan_loop-candidates-le test range max zero offset found c = omega arith
scan_loop-candidates-le test range max (suc left) offset found c =
    let ih =
      scan_loop-candidates-le test range max left (suc offset)
        (if test offset then found ++ hit range offset ∷ [] else found) (suc c) in
    ground (arith, ih)

all_matches-congr :
    (f g : ℕ → Bool) (range : MemoryRange) (left offset : ℕ)
    → ((i : ℕ) → f i ≡ g i)
    → all_matches f range left offset ≡ all_matches g range left offset
all_matches-congr f g range left offset h = rw (fun_ext h)

-- The tokens of the pattern all agree with the bytes at the offset.
abbrev pub naive_match : Memory → MemoryRange → Pattern → ℕ → Bool
naive_match m range p offset = matches m (range.begin + offset) p.tokens

-- The matches of the plain search at every offset where the pattern fits into the range.
abbrev pub naive_search : Memory → MemoryRange → Pattern → List ScanResult
naive_search m range p =
    all_matches (naive_match m range p) range (range.size - length p.tokens + 1) 0

abbrev pub result_limit : ℕ → ℕ
result_limit n = if n == 0 then u64_max else n

compiled-IsRun :
    (s : Text) (p : Pattern) → compile s ≡ success p → IsRun (exact_at p.tokens) (anchor_of p)
compiled-IsRun s p h =
    subst (λ q. IsRun (exact_at p.tokens) (anchor_of q)) (sym (compile-IsCompiled s p h).anchored)
      (with_anchor-IsRun s p.tokens)

-- What `Scan` returns, given the outcome of its loop.
abbrev reported : MemoryRange → List ScanResult × ℕ → ScanStats × Result (List ScanResult)
reported range r = (
  record { bytes_scanned = range.size; candidate_count = r.1; match_count = length r.0 },
  success r.0,
)

scan-reported :
    (m : Memory) (range : MemoryRange) (p : Pattern) (n : ℕ)
    → 0 < range.begin
    → 0 < length p.tokens
    → length p.tokens ≤ range.size
    → scan m range p n
      ≡ reported range (
          scan_loop
            (is_match m range p)
            range
            (result_limit n)
            (range.size - length p.tokens + 1)
            0
            []
            0)
unfolding scan
scan-reported m range p n hb hp fits = ground arith

-- `Scan` with a compiled pattern that fits into the range succeeds with the first matches of the
-- plain search, as many as are asked for, and reports the size of the range, the number of matches
-- and at most one candidate for each offset at which the pattern fits.
pub scan-naive_search :
    (m : Memory) (range : MemoryRange) (s : Text) (p : Pattern) (n : ℕ)
    → compile s ≡ success p
    → 0 < range.begin
    → length p.tokens ≤ range.size
    → ((scan m range p n).1 ≡ success (take (result_limit n) (naive_search m range p)))
      × ((scan m range p n).0.bytes_scanned ≡ range.size)
      × ((scan m range p n).0.match_count ≡ length (take (result_limit n) (naive_search m range p)))
      × ((scan m range p n).0.candidate_count ≤ range.size - length p.tokens + 1)
scan-naive_search m range s p n hc hb fits =
    rw reports (ap success found, refl, ap length found, candidates)
  where
    limit : ℕ
    limit = range.size - length p.tokens + 1

    reports :
        scan m range p n
        ≡ reported range (scan_loop (is_match m range p) range (result_limit n) limit 0 [] 0)
    reports = scan-reported m range p n hb (compile-IsCompiled s p hc).nonempty fits

    same : (i : ℕ) → is_match m range p i ≡ naive_match m range p i
    same i = is_match_lem m range p i (compiled-IsRun s p hc)

    found :
        (scan_loop (is_match m range p) range (result_limit n) limit 0 [] 0).0
        ≡ take (result_limit n) (naive_search m range p)
    found =
        scan_loop_lem (is_match m range p) range (result_limit n) limit 0 [] 0 (omega arith)
        ∙ ap (take (result_limit n)) (all_matches-congr _ _ range limit 0 same)

    candidates : (scan_loop (is_match m range p) range (result_limit n) limit 0 [] 0).1 ≤ limit
    candidates =
        omega
          (arith, scan_loop-candidates-le (is_match m range p) range (result_limit n) limit 0 [] 0)

-- An unusable range or pattern is refused, with empty statistics.
scan_invalid :
    (m : Memory) (range : MemoryRange) (p : Pattern) (n : ℕ)
    → ((range.begin ≡ 0) ⊎ (range.size ≡ 0))
      ⊎ ((length p.tokens ≡ 0) ⊎ (range.size < length p.tokens))
    → scan m range p n ≡ (no_stats, fail_runtime "Invalid pattern scan range or pattern")
unfolding scan
scan_invalid m range p n h = ground arith
