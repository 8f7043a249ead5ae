-- ===== src/Backend/Scanner.antt =====
-- src/Backend/Memory/Pattern_Scanner.hpp and Pattern_Scanner.cpp: the search of a range for a
-- pattern, with the anchor tested first. The elapsed time of the statistics is left out.
pub mod Search
pub mod First
use devilz_den.Prelude.{
  ℕ, zero, suc, ◌+◌, ◌-◌, ◌%◌, ◌^◌, List, [], ◌∷◌, ◌++◌, Bool, true, false, not, ◌&&◌, ◌||◌, ltb,
  ◌==◌, if◌then◌else◌, length,
}
use devilz_den.Prelude.Int.{u64_max}
use devilz_den.Backend.Error.{Result, success, failure, fail_runtime, annotate}
use devilz_den.Backend.Range.{Memory, MemoryRange, Pointer, is_empty}
use devilz_den.Backend.Pattern.{Token, Pattern, token_at}

pub record ScanResult : Type 0 where
  pub address : Pointer
  pub offset : ℕ

pub record ScanStats : Type 0 where
  pub bytes_scanned : ℕ
  pub candidate_count : ℕ
  pub match_count : ℕ

abbrev pub no_stats : ScanStats
no_stats = record { bytes_scanned = 0; candidate_count = 0; match_count = 0 }

-- `Pattern_Scanner::Matches`; the candidate's bytes begin at address `a`.
unfoldable pub matches : Memory → ℕ → List Token → Bool
matches m a [] = true
matches m a (t ∷ ts) =
    if not t.wildcard && not (m a == t.value) then false else matches m (suc a) ts

-- The loop over `a` that compares the anchor: `left` bytes are still to be compared.
unfoldable pub anchor_matches : Memory → ℕ → List Token → ℕ → ℕ → Bool
anchor_matches m offset tokens place zero = true
anchor_matches m offset tokens place (suc left) =
    if not (m (offset + place) == (token_at tokens place).value)
    then false
    else anchor_matches m offset tokens (suc place) left

-- The body of the loop of `Scan` for one offset: whether it is a match.
unfoldable pub is_match : Memory → MemoryRange → Pattern → ℕ → Bool
unfolding anchor_matches matches
is_match m range p offset =
    if not (anchor_matches m (range.begin + offset) p.tokens p.anchor_offset p.anchor_length)
    then false
    else matches m (range.begin + offset) p.tokens

abbrev pub hit : MemoryRange → ℕ → ScanResult
hit range offset = record {
  address = record { address = (range.begin + offset) % 2 ^ 64 };
  offset = offset;
}

-- The loop of `Scan`: `left` offsets remain below the limit, `candidates` have been looked at.
unfoldable pub scan_loop :
    (ℕ → Bool) → MemoryRange → ℕ → ℕ → ℕ → List ScanResult → ℕ → List ScanResult × ℕ
scan_loop test range max zero offset found candidates = (found, candidates)
scan_loop test range max (suc left) offset found candidates =
    let next =
      scan_loop test range max left (suc offset)
        (if test offset then found ++ hit range offset ∷ [] else found) (suc candidates) in
    if ltb (length found) max then next else (found, candidates)

-- `Pattern_Scanner::Scan`: the statistics that it leaves, and its result.
unfoldable pub scan : Memory → MemoryRange → Pattern → ℕ → ScanStats × Result (List ScanResult)
unfolding is_empty
scan m range p max_results =
    if is_empty range || length p.tokens == 0 || ltb range.size (length p.tokens)
    then (no_stats, fail_runtime "Invalid pattern scan range or pattern")
    else (let max = if max_results == 0 then u64_max else max_results in
        let limit = range.size - length p.tokens + 1 in
        let (found, candidates) = scan_loop (is_match m range p) range max limit 0 [] 0 in
        (
          record {
            bytes_scanned = range.size;
            candidate_count = candidates;
            match_count = length found;
          },
          success found,
        ))

unfoldable pub first_result : Pattern → List ScanResult → Result ScanResult
first_result p [] = annotate (fail_runtime "Pattern was not found") "Pattern" p.source
first_result p (r ∷ rs) = success r

-- `Pattern_Scanner::FindFirst`.
unfoldable pub find_first : Memory → MemoryRange → Pattern → ScanStats × Result ScanResult
find_first m range p =
    let (stats, result) = scan m range p 1 in
    (stats, elim result [ failure e ↦ failure e | success found ↦ first_result p found ])
