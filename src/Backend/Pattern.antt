-- ===== src/Backend/Pattern.antt =====
-- src/Backend/Memory/Pattern.hpp and Pattern.cpp: byte signatures with wildcards, and
-- src/Backend/Process/Process_Pattern.cpp, the second parser of the same notation.
-- `words` is the splitting at white space that the inner loops of `Pattern::Compile` and the
-- stream extraction of `Process_Pattern::Parse` perform.
pub mod Anchor
pub mod Parsing
use devilz_den.Prelude.{
  ℕ, zero, suc, ◌+◌, ◌-◌, ◌^◌, List, [], ◌∷◌, ◌++◌, Option, none, some, Bool, true, false, not,
  ◌&&◌, ◌||◌, ltb, leb, ◌==◌, if◌then◌else◌, length, get_or, Text, codes, text_eq, String,
}
use devilz_den.Prelude.Numbers.{from_chars}
use devilz_den.Backend.Error.{
  Result, success, failure, make_error, with_context, ErrorCode, ErrorCategory, fail_runtime, ◌>>=◌,
  Error,
}

-- `Pattern::Token`, and `Process_Pattern_Byte`.
pub record Token : Type 0 where
  pub value : ℕ
  pub wildcard : Bool

abbrev pub wild : Token
wild = record { value = 0; wildcard = true }

abbrev pub exact : ℕ → Token
exact v = record { value = v; wildcard = false }

-- `std::isspace` in the C locale.
unfoldable pub is_space : ℕ → Bool
is_space c = c == 32 || leb 9 c && leb c 13

-- The non-empty runs of characters between white space; `current` is the run that is being read.
unfoldable pub words : Text → Text → List Text
words [] [] = []
words [] (d ∷ current) = (d ∷ current) ∷ []
words (c ∷ cs) [] =
    let skip = words cs [] in let start = words cs (c ∷ []) in if is_space c then skip else start
words (c ∷ cs) (d ∷ current) =
    let close = words cs [] in
    let extend = words cs ((d ∷ current) ++ c ∷ []) in
    if is_space c then (d ∷ current) ∷ close else extend

-- `std::from_chars(first, last, value, 16)` has no error, ends at `last` and fits a byte.
unfoldable pub hex_byte : Text → Option ℕ
hex_byte token = elim (from_chars 16 (2 ^ 32 - 1) token) [
  | none ↦ none
  | some (v, []) ↦ if leb v 255 then some v else none
  | some (v, _ ∷ _) ↦ none
]

abbrev token_error : String → Text → Text → Error
token_error message token signature =
    with_context
      (with_context (make_error ErrorCode.runtime_failure ErrorCategory.runtime message) "Token"
        token)
      "Pattern" signature

-- The body of the loop of `Pattern::Compile` for one word.
unfoldable pub compile_token : Text → Text → Result Token
compile_token signature token =
    if text_eq token (codes "?") || text_eq token (codes "??")
    then success wild
    else if not (length token == 2)
    then failure (token_error "Invalid pattern token" token signature)
    else elim (hex_byte token) [
      | none ↦ failure (token_error "Invalid hexadecimal pattern byte" token signature)
      | some v ↦ success (exact v)
    ]

unfoldable pub compile_tokens : Text → List Text → Result (List Token)
compile_tokens signature [] = success []
compile_tokens signature (w ∷ ws) = do
  token ← compile_token signature w
  tokens ← compile_tokens signature ws
  success (token ∷ tokens)

pub record Run : Type 0 where
  pub offset : ℕ
  pub len : ℕ

-- A finished run replaces the best one if it is longer.
unfoldable pub close_run : ℕ → ℕ → Run → Run
close_run run_start run_length best =
    if ltb best.len run_length then record { offset = run_start; len = run_length } else best

-- The loop over `index` that finds the longest run of exact bytes.
unfoldable pub anchor_loop : List Token → ℕ → ℕ → ℕ → Run → Run
unfolding close_run
anchor_loop [] index run_start run_length best = close_run run_start run_length best
anchor_loop (t ∷ ts) index run_start run_length best =
    let grow =
      anchor_loop ts (suc index) (if run_length == 0 then index else run_start) (suc run_length)
        best in
    let stop = anchor_loop ts (suc index) run_start 0 (close_run run_start run_length best) in
    if not t.wildcard then grow else stop

pub record Pattern : Type 0 where
  pub source : Text
  pub tokens : List Token
  pub anchor_offset : ℕ
  pub anchor_length : ℕ

abbrev no_run : Run
no_run = record { offset = 0; len = 0 }

unfoldable pub with_anchor : Text → List Token → Pattern
with_anchor signature tokens =
    let anchor : Run = anchor_loop tokens 0 0 0 no_run in
    record {
      source = signature;
      tokens = tokens;
      anchor_offset = anchor.offset;
      anchor_length = anchor.len;
    }

-- `Pattern::Compile`.
unfoldable pub compile : Text → Result Pattern
unfolding with_anchor
compile signature = do
  tokens ← compile_tokens signature (words signature [])
  elim tokens [
    | [] ↦ fail_runtime "Pattern cannot be empty"
    | t ∷ ts ↦ success (with_anchor signature (t ∷ ts))
  ]

-- The body of the loop of `Process_Pattern::Parse` for one word.
unfoldable pub parse_byte : Text → Option Token
parse_byte token =
    if text_eq token (codes "?") || text_eq token (codes "??")
    then some wild
    else if not (length token == 2)
    then none
    else elim (hex_byte token) [ none ↦ none | some v ↦ some (exact v) ]

unfoldable pub parse_bytes : List Text → Option (List Token)
parse_bytes [] = some []
parse_bytes (w ∷ ws) = elim (parse_byte w) [
  | none ↦ none
  | some b ↦ elim (parse_bytes ws) [ none ↦ none | some bs ↦ some (b ∷ bs) ]
]

-- `Process_Pattern::Parse`.
unfoldable pub parse : Text → Option (List Token)
parse text = elim (parse_bytes (words text [])) [
  | none ↦ none
  | some [] ↦ none
  | some (b ∷ bs) ↦ some (b ∷ bs)
]

-- The token at an index, and whether it is an exact byte; there is none out of range.
abbrev pub token_at : List Token → ℕ → Token
token_at tokens i = get_or tokens i wild

abbrev pub exact_at : List Token → ℕ → Bool
exact_at tokens i = not (token_at tokens i).wildcard
