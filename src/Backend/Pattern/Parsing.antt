-- ===== src/Backend/Pattern/Parsing.antt =====
-- The two pattern parsers against each other.
use devilz_den.Prelude.{
  ◌<◌, ◌≡◌, refl, List, [], ◌∷◌, true, false, arith, length, Text, subst, Option, none, some, All,
  ◌⊎◌,
}
use devilz_den.Backend.Error.{Result, success, failure, fail_runtime, >>=-eq-success}
use devilz_den.Backend.Pattern.{
  Token, Pattern, words, hex_byte, compile_token, compile_tokens, compile, with_anchor, parse_byte,
  parse_bytes, parse,
}

-- The value of a result, if it has one.
abbrev pub to_option {ℓ} : {A : Type ℓ} → Result A → Option A
to_option (success a) = some a
to_option (failure e) = none

compile_token-parse_byte : (s w : Text) → to_option (compile_token s w) ≡ parse_byte w
unfolding compile_token parse_byte
compile_token-parse_byte s w = ground arith

compile_tokens-parse_bytes :
    (s : Text) (ws : List Text) → to_option (compile_tokens s ws) ≡ parse_bytes ws
unfolding compile_tokens parse_bytes
compile_tokens-parse_bytes s [] = refl
compile_tokens-parse_bytes s (w ∷ ws) =
    ground (arith, compile_token-parse_byte s w, compile_tokens-parse_bytes s ws)

-- The tokens of a successful compilation.
abbrev pub compiled_tokens : Result Pattern → Option (List Token)
compiled_tokens (success p) = some p.tokens
compiled_tokens (failure e) = none

-- The two parsers agree: `Pattern::Compile` accepts a text exactly if `Process_Pattern::Parse` does,
-- and then with the same tokens.
pub compile-parse : (s : Text) → compiled_tokens (compile s) ≡ parse s
unfolding compile parse with_anchor
compile-parse s = ground (arith, compile_tokens-parse_bytes s (words s []))

-- A token is a wildcard with value 0, or a byte.
abbrev pub IsToken : Token → Type 0
IsToken t = ((t.wildcard ≡ true) × (t.value ≡ 0)) ⊎ ((t.wildcard ≡ false) × (t.value < 256))

compile_token-IsToken : (s w : Text) (t : Token) → compile_token s w ≡ success t → IsToken t
unfolding compile_token hex_byte
compile_token-IsToken s w t h = ground arith

compile_tokens-IsToken :
    (s : Text) (ws : List Text) (ts : List Token)
    → compile_tokens s ws ≡ success ts
    → All IsToken ts × (length ts ≡ length ws)
unfolding compile_tokens
compile_tokens-IsToken s [] ts h = ground arith
compile_tokens-IsToken s (w ∷ ws) ts h =
    let (t, ht, h') = >>=-eq-success (compile_token s w) _ h in
    let (rest, hr, h'') = >>=-eq-success (compile_tokens s ws) _ h' in
    ground (arith, compile_token-IsToken s w t ht, compile_tokens-IsToken s ws rest hr)

-- What a compiled pattern is: the tokens of the signature's words, with their anchor.
pub record IsCompiled (s : Text) (p : Pattern) : Type 0 where
  pub nonempty : 0 < length p.tokens
  pub one_per_word : length p.tokens ≡ length (words s [])
  pub bytes : All IsToken p.tokens
  pub anchored : p ≡ with_anchor s p.tokens

pub compile-IsCompiled : (s : Text) (p : Pattern) → compile s ≡ success p → IsCompiled s p
unfolding compile
compile-IsCompiled s p h =
    let (ts, ht, h') = >>=-eq-success (compile_tokens s (words s [])) _ h in
    split ts (compile_tokens-IsToken s (words s []) ts ht) h'
  where
    split :
        (ts : List Token)
        → All IsToken ts × (length ts ≡ length (words s []))
        → elim ts [
          | [] ↦ fail_runtime "Pattern cannot be empty"
          | t ∷ ts' ↦ success (with_anchor s (t ∷ ts'))
        ]
          ≡ success p
        → IsCompiled s p
    split [] a e = cc
    split (t ∷ ts) a e =
        let q : with_anchor s (t ∷ ts) ≡ p = cc in
        subst (IsCompiled s) q
          (record { nonempty = omega arith; one_per_word = a.1; bytes = a.0; anchored = refl })
