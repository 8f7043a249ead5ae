-- ===== src/Targets/Builds/Support.antt =====
-- When a build of src/Integrations/GTA5_Enhanced/Runtime/GTA_Build_Registry.cpp counts as supported.
use devilz_den.Prelude.{
  ℕ, ◌≡◌, ◌↔◌, sym, ◌∙◌, Option-cases, ◌⊎◌, ◌≤◌, refl, List, [], ◌∷◌, true, false, arith, Option,
  none, some, ℕ_discrete, inl, inr, ite, Bool-cases, codes, ◌==◌, All, ◌<◌,
}
use devilz_den.Prelude.Map
use devilz_den.Prelude.Map.{insert_or_assign, find-nil, find-insert_or_assign}
use devilz_den.Targets.Status.{TargetStatus, is_validated}
use devilz_den.Targets.Validators.{supported_fingerprint}
use devilz_den.Targets.Builds.{
  unknown, Profile, Registry, runtime_supported, required_count, validated_required_count,
  verification_of, recalculate, register, initial_targets, new_registry, apply_statuses,
  apply_target_statuses, is_supported, find,
}

-- Some target of the list is required.
abbrev pub HasRequired : List TargetStatus → Type 0
HasRequired [] = ⊥
HasRequired (t ∷ ts) = (t.required ≡ true) ⊎ HasRequired ts

-- A required target is validated.
abbrev pub IsMet : TargetStatus → Type 0
IsMet t = t.required ≡ true → is_validated t.state ≡ true

-- The state of the registry that its operations keep: the entry of a build is its own, and its
-- verification is the one that its targets give.
pub record IsCurrent (fingerprint : ℕ) (p : Profile) : Type 0 where
  pub own : p.fingerprint ≡ fingerprint
  pub recalculated : p.verification ≡ verification_of p.targets

abbrev pub IsValid : Registry → Type 0
IsValid r = (f : ℕ) (p : Profile) → Map.find ℕ_discrete f r ≡ some p → IsCurrent f p

validated-le-required : (ts : List TargetStatus) → validated_required_count ts ≤ required_count ts
unfolding validated_required_count required_count
validated-le-required [] = omega arith
validated-le-required (t ∷ ts) = ground (arith, validated-le-required ts)

required_count-HasRequired : (ts : List TargetStatus) → (0 < required_count ts) ↔ HasRequired ts
unfolding required_count
required_count-HasRequired [] = ground arith
required_count-HasRequired (t ∷ ts) = ground (arith, required_count-HasRequired ts)

counts-IsMet :
    (ts : List TargetStatus) → (validated_required_count ts ≡ required_count ts) ↔ All IsMet ts
unfolding validated_required_count required_count
counts-IsMet [] = ground arith
counts-IsMet (t ∷ ts) = ground (arith, counts-IsMet ts, validated-le-required ts)

-- The verification that the targets give is `supported` exactly when there are required targets
-- and all of them are validated.
pub verification_of-supported :
    (p : Profile)
    → p.verification ≡ verification_of p.targets
    → (runtime_supported p ≡ true) ↔ (HasRequired p.targets × All IsMet p.targets)
unfolding verification_of runtime_supported
verification_of-supported p h =
    ground (arith, h, required_count-HasRequired p.targets, counts-IsMet p.targets)

register-IsValid : (r : Registry) (p : Profile) → IsValid r → IsValid (register r p)
unfolding register recalculate
register-IsValid r p v f q e = elim (Bool-cases (p.fingerprint == 0)) [
  | inl z ↦ v f q (rw z at e)
  | inr z ↦
      entry (ℕ_discrete p.fingerprint f)
        (sym (find-insert_or_assign ℕ_discrete f p.fingerprint (recalculate p) r) ∙ (rw z at e))
]
  where
    entry :
        (d : Dec (p.fingerprint ≡ f))
        → ite d (some (recalculate p)) (Map.find ℕ_discrete f r) ≡ some q
        → IsCurrent f q
    entry (yes d) h = ground (arith, d)
    entry (no d) h = v f q h

pub apply_target_statuses-IsValid :
    (r : Registry) (fingerprint : ℕ) (statuses : List TargetStatus)
    → IsValid r
    → IsValid (apply_target_statuses r fingerprint statuses).0
unfolding apply_target_statuses recalculate
apply_target_statuses-IsValid r fingerprint statuses v f q e =
    elim (Option-cases (Map.find ℕ_discrete fingerprint r)) [
      | inl n ↦ v f q (unchanged n)
      | inr (p, n) ↦
          entry p (v fingerprint p n) (ℕ_discrete fingerprint f)
            (sym (find-insert_or_assign ℕ_discrete f fingerprint (updated p) r) ∙ changed p n)
    ]
  where
    unchanged : Map.find ℕ_discrete fingerprint r ≡ none → Map.find ℕ_discrete f r ≡ some q
    unchanged n = ground (arith, n, e)

    updated : Profile → Profile
    updated p = recalculate (record {
      fingerprint = p.fingerprint;
      label = p.label;
      verification = p.verification;
      targets = apply_statuses p.targets statuses;
    })

    changed :
        (p : Profile)
        → Map.find ℕ_discrete fingerprint r ≡ some p
        → Map.find ℕ_discrete f (insert_or_assign ℕ_discrete fingerprint (updated p) r) ≡ some q
    changed p n = ground (arith, n, e)

    entry :
        (p : Profile)
        → IsCurrent fingerprint p
        → (d : Dec (fingerprint ≡ f)) → ite d (some (updated p)) (Map.find ℕ_discrete f r) ≡ some q
        → IsCurrent f q
    entry p c (yes d) h = ground (arith, d, c.own)
    entry p c (no d) h = v f q h

-- Any number of reports on any builds, applied to a registry.
unfoldable pub apply_reports : Registry → List (ℕ × List TargetStatus) → Registry
apply_reports r [] = r
apply_reports r ((f, ss) ∷ reports) = apply_reports (apply_target_statuses r f ss).0 reports

apply_reports-IsValid :
    (r : Registry) (reports : List (ℕ × List TargetStatus))
    → IsValid r
    → IsValid (apply_reports r reports)
unfolding apply_reports
apply_reports-IsValid r [] v = v
apply_reports-IsValid r ((f, ss) ∷ reports) v =
    apply_reports-IsValid (apply_target_statuses r f ss).0 reports
      (apply_target_statuses-IsValid r f ss v)

pub new_registry-IsValid : IsValid new_registry
unfolding new_registry
new_registry-IsValid =
    register-IsValid []
      (record {
        fingerprint = supported_fingerprint;
        label = codes "PE-1783601142-95948800";
        verification = unknown;
        targets = initial_targets;
      })
      (λ f p e. absurd (nothing f p e))
  where
    nothing : (f : ℕ) (p : Profile) → Map.find ℕ_discrete f [] ≡ some p → ⊥
    nothing f p e = ground (arith, find-nil {V = Profile} ℕ_discrete f)

-- What a profile has to show for its build to count as supported.
abbrev pub Qualifies : Option Profile → Type 0
Qualifies none = ⊥
Qualifies (some p) = HasRequired p.targets × All IsMet p.targets

-- After any reports on any builds, a build is reported as supported exactly if it is registered, it
-- has a required target, and each of its required targets is validated.
pub is_supported-apply_reports :
    (reports : List (ℕ × List TargetStatus)) (fingerprint : ℕ)
    → (is_supported (apply_reports new_registry reports) fingerprint ≡ true)
      ↔ Qualifies (find (apply_reports new_registry reports) fingerprint)
unfolding is_supported
is_supported-apply_reports reports fingerprint = answer (find registry fingerprint) refl
  where
    registry : Registry
    registry = apply_reports new_registry reports

    answer :
        (o : Option Profile)
        → find registry fingerprint ≡ o
        → (elim o [ none ↦ false | some p ↦ runtime_supported p ] ≡ true) ↔ Qualifies o
    answer none e = ground arith
    answer (some p) e =
        verification_of-supported p
          (apply_reports-IsValid new_registry reports new_registry-IsValid fingerprint p
            e).recalculated
