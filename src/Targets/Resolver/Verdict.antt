-- ===== src/Targets/Resolver/Verdict.antt =====
-- How a resolution comes about, and what stands behind a validated one.
use devilz_den.Prelude.{
  subst, String, ◌||◌, ◌++◌, ◌≢◌, ◌∙◌, ap, All, ℕ, ◌≡◌, refl, sym, List, [], ◌∷◌, true, false, some,
  arith, inl, inr, ◌⊎◌, Bool-cases, Option-cases, length, ◌==◌,
}
use devilz_den.Backend.Error.{Result, success, failure, >>=-eq-success, success-inj}
use devilz_den.Backend.Pattern.{Token, parse}
use devilz_den.Backend.Process
use devilz_den.Backend.Process.{ModuleInfo, Match}
use devilz_den.Targets.Address
use devilz_den.Targets.Address.{ResolveOp}
use devilz_den.Targets.Status.{TargetState, missing, failed, is_validated, is_located}
use devilz_den.Targets.Evidence.{TargetDefinition, Evidence}
use devilz_den.Targets.Validators.{Validation, validate_semantics, validate_structure}
use devilz_den.Targets.Resolver.{
  unresolved, decode, Environment, Resolution, judge, settle, from_matches, resolve_in, resolve,
}

-- A match whose chain of operations leads to an address, and one that leads to none: its chain
-- fails or ends at null.
abbrev pub LeadsTo : Address.Reader → List ResolveOp → ℕ → Match → Type 0
LeadsTo reader chain a m = (Address.resolve reader m.address chain ≡ success a) × (a ≢ 0)

abbrev pub LeadsNowhere : Address.Reader → List ResolveOp → Match → Type 0
LeadsNowhere reader chain m = (a : ℕ) → Address.resolve reader m.address chain ≡ success a → a ≡ 0

-- Exactly one of the matches leads to an address, and it is this one.
abbrev pub LeadsOnlyTo : Address.Reader → List ResolveOp → ℕ → List Match → Type 0
LeadsOnlyTo reader chain a ms =
    (before : List Match) × (m : Match) × (after : List Match) × (ms ≡ before ++ m ∷ after)
    × LeadsTo reader chain a m
    × All (LeadsNowhere reader chain) before
    × All (LeadsNowhere reader chain) after

decode-cases :
    (reader : Address.Reader) (chain : List ResolveOp) (m : Match) (ms : List Match)
    → (LeadsNowhere reader chain m × (decode reader chain (m ∷ ms) ≡ decode reader chain ms))
      ⊎ ((a : ℕ) × LeadsTo reader chain a m
          × (decode reader chain (m ∷ ms) ≡ a ∷ decode reader chain ms))
unfolding decode
decode-cases reader chain m ms = led (Address.resolve reader m.address chain) refl
  where
    led :
        (o : Result ℕ)
        → Address.resolve reader m.address chain ≡ o
        → (LeadsNowhere reader chain m × (decode reader chain (m ∷ ms) ≡ decode reader chain ms))
          ⊎ ((a : ℕ) × LeadsTo reader chain a m
              × (decode reader chain (m ∷ ms) ≡ a ∷ decode reader chain ms))
    led (failure x) h = inl (λ a e. absurd (apart (sym h ∙ e)), ground (arith, h))
      where
        apart : {a : ℕ} → ◌≡◌ {A = Result ℕ} (failure x) (success a) → ⊥
        apart e = cc
    led (success b) h = elim (Bool-cases (b == 0)) [
      | inl z ↦ inl (λ a e. ground (arith, success-inj (sym h ∙ e), z), ground (arith, h, z))
      | inr z ↦ inr (b, (h, ground (arith, z)), ground (arith, h, z))
    ]

decode-nil :
    (reader : Address.Reader) (chain : List ResolveOp) (ms : List Match)
    → decode reader chain ms ≡ []
    → All (LeadsNowhere reader chain) ms
decode-nil reader chain [] h = tt
decode-nil reader chain (m ∷ ms) h = elim (decode-cases reader chain m ms) [
  | inl (n, e) ↦ (n, decode-nil reader chain ms (sym e ∙ h))
  | inr (a, k, e) ↦ absurd (apart (sym e ∙ h))
]
  where
    apart : {a : ℕ} {rest : List ℕ} → a ∷ rest ≡ [] → ⊥
    apart e = cc

decode-one :
    (reader : Address.Reader) (chain : List ResolveOp) (ms : List Match) (a : ℕ)
    → decode reader chain ms ≡ a ∷ []
    → LeadsOnlyTo reader chain a ms
unfolding decode
decode-one reader chain [] a h = cc
decode-one reader chain (m ∷ ms) a h = elim (decode-cases reader chain m ms) [
  | inl (n, e) ↦
      let (before, x, after, parts, k, l, r) = decode-one reader chain ms a (sym e ∙ h) in
      (m ∷ before, x, after, ap (λ w. m ∷ w) parts, k, (n, l), r)
  | inr (b, k, e) ↦
      let (same, rest) = cons-inj (sym e ∙ h) in
      (
        [],
        m,
        ms,
        refl,
        subst (λ c. LeadsTo reader chain c m) same k,
        tt,
        decode-nil reader chain ms rest,
      )
]
  where
    cons-inj : {b c : ℕ} {bs cs : List ℕ} → b ∷ bs ≡ c ∷ cs → (b ≡ c) × (bs ≡ cs)
    cons-inj e = (cc, cc)

-- What stands behind a resolution that is validated: its module was found, its pattern was scanned
-- for, exactly one of the matches leads to an address, which is the resolution's, and the semantic
-- validator accepts the evidence there for the module of the target.
abbrev pub IsProven : Environment → ℕ → ℕ → TargetDefinition → Resolution → Type 0
IsProven env pid fingerprint d r =
    (m : ModuleInfo) × (env.find_module pid d.module_name ≡ success m)
    × ((pattern : List Token) × (parse d.pattern ≡ some pattern)
        × (ms : List Match) × (Process.scan env.read_memory pid m pattern 8 ≡ success ms)
        × LeadsOnlyTo (Process.read env.read_memory pid) d.resolve r.address ms)
    × (r.candidates ≡ r.address ∷ [])
    × (r.evidence ≡ env.probe pid d.candidate_kind r.address)
    × ((validate_semantics d r.evidence fingerprint m.base_address r.address).passed ≡ true)

judge-validated :
    (semantic structural : Validation)
    → is_validated (judge semantic structural).0 ≡ true
    → semantic.passed ≡ true
unfolding judge
judge-validated semantic structural h = ground arith

-- The pattern of the target was scanned for in a module, with these matches.
abbrev Scanned : Environment → ℕ → TargetDefinition → ModuleInfo → List Match → Type 0
Scanned env pid d m ms =
    (env.find_module pid d.module_name ≡ success m)
    × (pattern : List Token) × (parse d.pattern ≡ some pattern)
    × (Process.scan env.read_memory pid m pattern 8 ≡ success ms)

abbrev candidates_of : Environment → ℕ → TargetDefinition → List Match → List ℕ
candidates_of env pid d ms = decode (Process.read env.read_memory pid) d.resolve ms

settle-IsProven :
    (env : Environment) (pid fingerprint : ℕ) (d : TargetDefinition) (m : ModuleInfo)
    (ms : List Match) (cs : List ℕ)
    → Scanned env pid d m ms
    → candidates_of env pid d ms ≡ cs
    → is_validated (settle env pid fingerprint d m.base_address cs).status.state ≡ true
    → IsProven env pid fingerprint d (settle env pid fingerprint d m.base_address cs)
unfolding settle
settle-IsProven env pid fingerprint d m ms [] k e h = cc
settle-IsProven env pid fingerprint d m ms (a ∷ []) (k, pattern, p, s) e h = (
  m,
  k,
  (pattern, p, ms, s, decode-one (Process.read env.read_memory pid) d.resolve ms a e),
  refl,
  refl,
  judge-validated semantic structural h,
)
  where
    found : Evidence
    found = env.probe pid d.candidate_kind a

    semantic : Validation
    semantic = validate_semantics d found fingerprint m.base_address a

    structural : Validation
    structural = validate_structure d found
settle-IsProven env pid fingerprint d m ms (a ∷ b ∷ cs) k e h = cc

settle-id :
    (env : Environment) (pid fingerprint : ℕ) (d : TargetDefinition) (base : ℕ) (cs : List ℕ)
    → (settle env pid fingerprint d base cs).status.id ≡ d.id
unfolding settle
settle-id env pid fingerprint d base [] = refl
settle-id env pid fingerprint d base (a ∷ []) = refl
settle-id env pid fingerprint d base (a ∷ b ∷ cs) = refl

-- How a resolution comes about: without a candidate, or from the candidates of a module found.
abbrev pub Outcome : Environment → ℕ → ℕ → TargetDefinition → Resolution → Type 0
Outcome env pid fingerprint d r =
    ((state : TargetState) × (detail : String) × (is_located state ≡ false)
      × (unresolved d state detail [] ≡ r))
    ⊎ ((m : ModuleInfo) × (ms : List Match) × Scanned env pid d m ms
        × (settle env pid fingerprint d m.base_address (candidates_of env pid d ms) ≡ r))

from_matches-Outcome :
    (env : Environment) (pid fingerprint : ℕ) (d : TargetDefinition) (m : ModuleInfo)
    (ms : List Match)
    → Scanned env pid d m ms
    → Outcome env pid fingerprint d (from_matches env pid fingerprint d m ms)
unfolding from_matches
from_matches-Outcome env pid fingerprint d m [] k =
    inl (missing, "Verified pattern produced no matches in the target module", refl, refl)
from_matches-Outcome env pid fingerprint d m (x ∷ xs) k = inr (m, x ∷ xs, k, refl)

module _ (env : Environment) (pid fingerprint : ℕ) (d : TargetDefinition) (r : Resolution) where
  resolve_in-Outcome :
      (pattern : List Token) (m : ModuleInfo)
      → parse d.pattern ≡ some pattern
      → env.find_module pid d.module_name ≡ success m
      → resolve_in env pid fingerprint d pattern m ≡ success r
      → Outcome env pid fingerprint d r
  unfolding resolve_in
  resolve_in-Outcome pattern m p k e =
      let (ms, s, f) = >>=-eq-success (Process.scan env.read_memory pid m pattern 8) _ e in
      subst (Outcome env pid fingerprint d) (success-inj f)
        (from_matches-Outcome env pid fingerprint d m ms (k, pattern, p, s))

  looked_up-Outcome :
      (pattern : List Token) (o : Result ModuleInfo)
      → parse d.pattern ≡ some pattern
      → env.find_module pid d.module_name ≡ o
      → elim o [
        | failure x ↦
            success
              (unresolved d failed "Target module could not be resolved in the GTA process" [])
        | success m ↦ resolve_in env pid fingerprint d pattern m
      ]
        ≡ success r
      → Outcome env pid fingerprint d r
  looked_up-Outcome pattern (failure x) p k f =
      inl (failed, "Target module could not be resolved in the GTA process", refl, success-inj f)
  looked_up-Outcome pattern (success m) p k f = resolve_in-Outcome pattern m p k f

  pub resolve-Outcome : resolve env pid fingerprint d ≡ success r → Outcome env pid fingerprint d r
  unfolding resolve
  resolve-Outcome e = elim (Bool-cases (pid == 0 || length d.pattern == 0)) [
    | inl q ↦ inl (
      TargetState.unknown,
      "No verified pattern is registered for this target",
      refl,
      success-inj (rw q at e),
    )
    | inr q ↦ elim (Option-cases (parse d.pattern)) [
      | inl n ↦
          inl (failed, "Registered target pattern is invalid", refl, success-inj (rw (q, n) at e))
      | inr (pattern, n) ↦
          looked_up-Outcome pattern (env.find_module pid d.module_name) n refl (rw (q, n) at e)
    ]
  ]

  pub resolve-id : resolve env pid fingerprint d ≡ success r → r.status.id ≡ d.id
  resolve-id e = elim (resolve-Outcome e) [
    | inl (state, detail, n, f) ↦ rw (sym f) refl
    | inr (m, ms, k, f) ↦
        rw (sym f) (settle-id env pid fingerprint d m.base_address (candidates_of env pid d ms))
  ]

-- A target is only resolved as validated if its module was found, its pattern was scanned for there,
-- exactly one of the at most 8 matches led to an address, and the semantic validator accepted the
-- evidence that was probed at that address.
pub resolve-IsProven :
    (env : Environment) (pid fingerprint : ℕ) (d : TargetDefinition) (r : Resolution)
    → resolve env pid fingerprint d ≡ success r
    → is_validated r.status.state ≡ true
    → IsProven env pid fingerprint d r
resolve-IsProven env pid fingerprint d r e h = elim (resolve-Outcome env pid fingerprint d r e) [
  | inl (state, detail, n, f) ↦ absurd (ground (arith, f, n, h))
  | inr (m, ms, k, f) ↦ subst (IsProven env pid fingerprint d) f (
      settle-IsProven env pid fingerprint d m ms (candidates_of env pid d ms) k refl
        (rw (sym f) at h))
]
