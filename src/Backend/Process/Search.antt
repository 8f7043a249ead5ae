-- ===== src/Backend/Process/Search.antt =====
-- The external scan against the plain list of the offsets at which the signature stands.
use mathlib.Core.List.{append-nil, append_assoc}
use devilz_den.Prelude.{
  ℕ, zero, suc, ◌+◌, ◌-◌, ◌%◌, ◌^◌, ◌≤◌, ◌<◌, ◌≡◌, ap, sym, ◌∙◌, List, [], ◌∷◌, ◌++◌, Bool, true,
  arith, length, take, Bool-cases, ltb, ltb→lt, inl, inr, take_of_length-le, take-append_full,
  length-append, if◌then◌else◌, not, ◌||◌, ◌==◌,
}
use devilz_den.Backend.Error.{success}
use devilz_den.Backend.Pattern.{Token}
use devilz_den.Backend.Process.{
  SystemRead, ModuleInfo, Match, is_valid_module, read, scan, match_loop, bytes_match,
}

abbrev place : ℕ → ℕ → Match
place base offset = record { address = (base + offset) % 2 ^ 64; offset = offset }

-- The matches at `left` offsets from `offset` on, without limit.
unfoldable pub all_places : List ℕ → List Token → ℕ → ℕ → ℕ → List Match
all_places bytes signature base zero offset = []
all_places bytes signature base (suc left) offset =
    (if bytes_match bytes offset signature then place base offset ∷ [] else [])
    ++ all_places bytes signature base left (suc offset)

module _ (bytes : List ℕ) (signature : List Token) (base max : ℕ) where
  match_loop_lem :
      (left offset : ℕ) (found : List Match)
      → length found ≤ max
      → match_loop bytes signature base max left offset found
        ≡ take max (found ++ all_places bytes signature base left offset)
  unfolding match_loop all_places
  match_loop_lem zero offset found h = rw append-nil (sym (take_of_length-le max found h))
  match_loop_lem (suc left) offset found h = elim (Bool-cases (ltb (length found) max)) [
    | inl room ↦ elim (Bool-cases (bytes_match bytes offset signature)) [
      | inl t ↦
          rw (room, t)
            (match_loop_lem left (suc offset) (found ++ place base offset ∷ [])
                (longer (ltb→lt _ _ room))
              ∙ ap (take max) (append_assoc found _ _))
      | inr t ↦ rw (room, t) (match_loop_lem left (suc offset) found h)
    ]
    | inr full ↦
        rw (full, take-append_full max found _ (ground arith)) (sym (take_of_length-le max found h))
  ]
    where
      longer : length found < max → length (found ++ place base offset ∷ []) ≤ max
      longer k = omega (arith, length-append found (place base offset ∷ []))

-- The test that refuses a request.
abbrev refused : List Token → ℕ → ModuleInfo → Bool
refused signature max m =
    not (is_valid_module m)
    || length signature == 0
    || ltb m.image_size (length signature)
    || max == 0

-- If the module, the signature and the limit are usable and its image is read, `Scan` succeeds with
-- the first places of the image at which the signature stands, in order and at most as many as the
-- limit.
pub scan-all_places :
    (system : SystemRead) (pid : ℕ) (m : ModuleInfo) (signature : List Token) (max : ℕ)
    (bytes : List ℕ)
    → is_valid_module m ≡ true
    → 0 < length signature
    → length signature ≤ m.image_size
    → 0 < max
    → read system pid m.base_address m.image_size ≡ success bytes
    → scan system pid m signature max
      ≡ success (
          take max
            (all_places bytes signature m.base_address (length bytes - length signature + 1) 0))
unfolding scan
scan-all_places system pid m signature max bytes v s fits k r =
    let searched =
      match_loop_lem bytes signature m.base_address max (length bytes - length signature + 1) 0 []
        (omega arith) in
    elim (Bool-cases (refused signature max m)) [
      | inl q ↦ absurd (ground (arith, v, s, fits, k, q))
      | inr q ↦ rw (q, r, scan) (ap success searched)
    ]
