-- ===== src/Tests/Patterns.antt =====
-- Runs of src/Backend/Memory: patterns, ranges and the scanner.
use devilz_den.Prelude.{
  ◌%◌, ◌≤◌, ◌≡◌, refl, List, [], ◌∷◌, arith, Text, codes, length, take, Text-discrete, ℕ_discrete,
}
use devilz_den.Prelude.Numbers.{from_chars, digit_prefix, digit_value}
use devilz_den.Backend.Error.{success}
use devilz_den.Backend.Range.{Memory, MemoryRange}
use devilz_den.Backend.Pattern.{
  Token, Pattern, wild, exact, is_space, words, hex_byte, compile_token, compile_tokens, close_run,
  anchor_loop, with_anchor, compile, parse, exact_at,
}
use devilz_den.Backend.Process.{SystemRead, ModuleInfo, Match, read}
use devilz_den.Backend.Process
use devilz_den.Backend.Process.Search.{all_places, scan-all_places}
use devilz_den.Backend.Pattern.Anchor.{IsRun, with_anchor-longest}
use devilz_den.Backend.Pattern.Parsing.{compile-parse, compiled_tokens}
use devilz_den.Backend.Scanner.{scan, find_first}
use devilz_den.Backend.Scanner.Search.{scan-naive_search, naive_search, naive_match}
use devilz_den.Backend.Scanner.First.{find_first-FindsFirst, FindsFirst}

-- Each address holds its own low byte.
abbrev bytes : Memory
bytes = λ a. a % 256

abbrev range : MemoryRange
range = record { begin = 4096; size = 64 }

abbrev signature : Text
signature = codes "10 ?? 12 13"

abbrev tokens : List Token
tokens = exact 16 ∷ wild ∷ exact 18 ∷ exact 19 ∷ []

abbrev pattern_10 : Pattern
pattern_10 = record { source = signature; tokens = tokens; anchor_offset = 2; anchor_length = 2 }

compiled : compile signature ≡ success pattern_10
unfolding compile compile_tokens compile_token words is_space hex_byte with_anchor anchor_loop
    close_run from_chars digit_prefix digit_value Text-discrete ℕ_discrete
compiled = refl

scan-naive_search_example :
    ((scan bytes range pattern_10 2).1 ≡ success (take 2 (naive_search bytes range pattern_10)))
    × ((scan bytes range pattern_10 2).0.bytes_scanned ≡ 64)
    × ((scan bytes range pattern_10 2).0.match_count
        ≡ length (take 2 (naive_search bytes range pattern_10)))
    × ((scan bytes range pattern_10 2).0.candidate_count ≤ 61)
scan-naive_search_example =
    scan-naive_search bytes range signature pattern_10 2 compiled (omega arith) (omega arith)

find_first-FindsFirst_example :
    FindsFirst (naive_match bytes range pattern_10) range 61 (find_first bytes range pattern_10).1
find_first-FindsFirst_example =
    find_first-FindsFirst bytes range signature pattern_10 compiled (omega arith) (omega arith)

last_two : IsRun (exact_at tokens) (record { offset = 2; len = 2 })
last_two i lo hi = ground arith

with_anchor-longest_example : 2 ≤ (with_anchor signature tokens).anchor_length
with_anchor-longest_example = with_anchor-longest signature tokens 2 2 last_two (omega arith)

compile-parse_example : compiled_tokens (compile signature) ≡ parse signature
compile-parse_example = compile-parse signature

-- A process whose memory reads as four bytes.
abbrev system : SystemRead
system pid address size = success (16 ∷ 17 ∷ 18 ∷ 19 ∷ [])

abbrev image : ModuleInfo
image = record { name = codes "game.exe"; base_address = 4096; image_size = 4 }

image-read : read system 1 4096 4 ≡ success (16 ∷ 17 ∷ 18 ∷ 19 ∷ [])
unfolding read
image-read = refl

scan-all_places_example :
    Process.scan system 1 image tokens 8
    ≡ success (take 8 (all_places (16 ∷ 17 ∷ 18 ∷ 19 ∷ []) tokens 4096 1 0))
scan-all_places_example =
    scan-all_places system 1 image tokens 8 (16 ∷ 17 ∷ 18 ∷ 19 ∷ []) refl (omega arith)
      (omega arith) (omega arith) image-read
