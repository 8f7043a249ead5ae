-- ===== src/Natives/Table/Stability.antt =====
-- The entries of the native table over registrations.
use devilz_den.Prelude.{
  ℕ, ◌≡◌, ◌<◌, List, [], ◌∷◌, ◌||◌, arith, Option, none, some, Bool-cases, inl, inr, ◌==◌,
  ℕ_discrete,
}
use devilz_den.Prelude.Map
use devilz_den.Prelude.Map.{HasUniqueKeys}
use devilz_den.Backend.Range.{is_null}
use devilz_den.Natives.Table.{
  Registration, NativeTable, other_handler, register, register_batch, find,
}

-- Each hash occurs once, and stands for itself, is not zero and has a handler.
pub record IsValid (t : NativeTable) : Type 0 where
  pub unique : HasUniqueKeys ℕ_discrete t
  pub usable :
      (h : ℕ) (r : Registration)
      → find t h ≡ some r
      → (r.hash ≡ h) × (0 < h) × (0 < r.handler.address)

register-IsValid : (t : NativeTable) (r : Registration) → IsValid t → IsValid (register t r).0
unfolding register find
register-IsValid t r v = elim (Bool-cases (r.hash == 0 || is_null r.handler)) [
  | inl h ↦ rw h v
  | inr h ↦ elim (Bool-cases (other_handler (Map.find ℕ_discrete r.hash t) r.handler)) [
    | inl k ↦ rw (h, k) v
    | inr k ↦
        rw (h, k)
          (record {
            unique = Map.insert_or_assign-HasUniqueKeys ℕ_discrete r.hash r t v.unique;
            usable = λ j q e.
                ground (arith, h, Map.find-insert_or_assign ℕ_discrete j r.hash r t, v.usable j q);
          })
  ]
]

-- A batch keeps the table valid.
register_batch-IsValid :
    (t : NativeTable) (rs : List Registration) → IsValid t → IsValid (register_batch t rs).0
unfolding register_batch
register_batch-IsValid t [] v = v
register_batch-IsValid t (r ∷ rs) v = ground (
  arith,
  register-IsValid t r v,
  register_batch-IsValid (register t r).0 rs (register-IsValid t r v),
)

-- The handler of a hash.
abbrev pub handler_of : NativeTable → ℕ → Option ℕ
handler_of t h = elim (find t h) [ none ↦ none | some r ↦ some r.handler.address ]

register-handler_of :
    (t : NativeTable) (r : Registration) (h a : ℕ)
    → handler_of t h ≡ some a
    → handler_of (register t r).0 h ≡ some a
unfolding register find other_handler
register-handler_of t r h a e = ground (arith, Map.find-insert_or_assign ℕ_discrete h r.hash r t)

-- A batch never changes the handler of a hash that already has one.
register_batch-handler_of :
    (t : NativeTable) (rs : List Registration) (h a : ℕ)
    → handler_of t h ≡ some a
    → handler_of (register_batch t rs).0 h ≡ some a
unfolding register_batch
register_batch-handler_of t [] h a e = e
register_batch-handler_of t (r ∷ rs) h a e =
    ground (arith, register-handler_of t r h a e, register_batch-handler_of (register t r).0 rs h a)
