-- ===== src/Targets/Address/Chains.antt =====
-- Chains of resolve operations.
use devilz_den.Prelude.{
  String, ℕ, ◌^◌, ◌<◌, ◌≡◌, refl, List, [], ◌∷◌, ◌++◌, true, arith, inl, inr, Bool-cases, ◌==◌,
}
use devilz_den.Prelude.Int.{pos, signed64, signed32}
use devilz_den.Backend.Error.{success, failure, ◌>>=◌, >>=-eq-success, fail_runtime}
use devilz_den.Targets.Address.{
  ResolveOp, add, rip_relative32, Reader, offset_by, is_positive, little_endian,
  resolve_rip_relative32, resolve_op, resolve_ops, resolve,
}

-- A word that is positive as a signed number.
abbrev pub IsUserAddress : ℕ → Type 0
IsUserAddress a = (0 < a) × (a < 2 ^ 63)

is_positive-IsUserAddress : (a : ℕ) → is_positive (signed64 a) ≡ true → IsUserAddress a
is_positive-IsUserAddress a h = ground arith

resolve_op-IsUserAddress :
    (reader : Reader) (address : ℕ) (op : ResolveOp) (r : ℕ)
    → resolve_op reader address op ≡ success r
    → IsUserAddress r
unfolding resolve_op resolve_rip_relative32
resolve_op-IsUserAddress reader address (add offset) r h =
    ground (arith, is_positive-IsUserAddress (offset_by address offset))
resolve_op-IsUserAddress reader address (rip_relative32 offset) r h =
    elim (Bool-cases (is_positive (signed64 place))) [
      | inl q ↦
          let (bytes, e, f) = >>=-eq-success (reader place 4) _ (rw q at h) in
          ground (arith, is_positive-IsUserAddress (target bytes))
      | inr q ↦ absurd (refused _ (rw q at h))
    ]
  where
    place : ℕ
    place = offset_by address offset

    target : List ℕ → ℕ
    target bytes = offset_by (offset_by place (pos 4)) (signed32 (little_endian bytes))

    refused : (m : String) → fail_runtime m ≡ success r → ⊥
    refused m e = cc

resolve_ops-IsUserAddress :
    (reader : Reader) (ops : List ResolveOp) (a r : ℕ)
    → IsUserAddress a
    → resolve_ops reader a ops ≡ success r
    → IsUserAddress r
unfolding resolve_ops
resolve_ops-IsUserAddress reader [] a r u h = ground (arith, u)
resolve_ops-IsUserAddress reader (op ∷ ops) a r u h =
    let (b, e, f) = >>=-eq-success (resolve_op reader a op) (λ b. resolve_ops reader b ops) h in
    resolve_ops-IsUserAddress reader ops b r (resolve_op-IsUserAddress reader a op b e) f

-- A chain of operations that succeeds from a user address ends at a user address: it is not null
-- and its top bit is clear.
pub resolve-IsUserAddress :
    (reader : Reader) (chain : List ResolveOp) (a r : ℕ)
    → IsUserAddress a
    → resolve reader a chain ≡ success r
    → IsUserAddress r
unfolding resolve
resolve-IsUserAddress reader chain a r u h = elim (Bool-cases (a == 0)) [
  | inl q ↦ absurd (ground (arith, u.0))
  | inr q ↦ resolve_ops-IsUserAddress reader chain a r u (rw q at h)
]

-- Resolving a chain and then another is resolving the joined chain.
resolve_ops-append :
    (reader : Reader) (xs ys : List ResolveOp) (a : ℕ)
    → resolve_ops reader a (xs ++ ys) ≡ (resolve_ops reader a xs >>= λ b. resolve_ops reader b ys)
unfolding resolve_ops
resolve_ops-append reader [] ys a = refl
resolve_ops-append reader (x ∷ xs) ys a =
    elim (resolve_op reader a x)
      as (λ o.
        (o >>= λ b. resolve_ops reader b (xs ++ ys))
        ≡ ((o >>= λ b. resolve_ops reader b xs) >>= λ b. resolve_ops reader b ys)) [
          | failure e ↦ refl
          | success b ↦ resolve_ops-append reader xs ys b
        ]
