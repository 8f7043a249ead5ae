-- ===== src/Backend/PatternCache/Collision.antt =====
-- What a lookup answers after each operation, and two keys that share one stable key.
use mathlib.Core.List.{append_assoc}
use devilz_den.Prelude.{
  ℕ, ◌≡◌, ◌≢◌, refl, ap, [], ◌∷◌, ◌++◌, not, ◌&&◌, arith, Option, none, some, inl, inr, Text,
  Text-discrete, if◌then◌else◌, ◌==◌, ite, text_eq,
}
use devilz_den.Prelude.Map
use devilz_den.Backend.Range.{Pointer}
use devilz_den.Backend.PatternCache.{
  CacheKey, CacheEntry, PatternCache, stable_key, new_entry, store, find, invalidate_fingerprint,
  separator,
}
use devilz_den.Backend.PatternCache.Entries.{IsValid, find_cases, counted}

-- What `Find` answers.
abbrev pub answer : PatternCache → CacheKey → Option Pointer
answer c key = (find c key).1

abbrev from_entry : Option CacheEntry → CacheKey → Option Pointer
from_entry none key = none
from_entry (some e) key =
    if e.key.module_fingerprint == key.module_fingerprint then some e.address else none

answer_lem :
    (c : PatternCache) (key : CacheKey)
    → answer c key ≡ from_entry (Map.find Text-discrete (stable_key key) c) key
unfolding find
answer_lem c key = ground arith

-- After a `Store` a lookup under the same stable key answers the stored address if the fingerprint
-- is the stored one, and nothing otherwise; a lookup under another stable key answers as before.
pub answer-store :
    (c : PatternCache) (key q : CacheKey) (a : Pointer) (base now : ℕ)
    → answer (store c key a base now) q
      ≡ ite
          (Text-discrete (stable_key key) (stable_key q))
          (if key.module_fingerprint == q.module_fingerprint then some a else none)
          (answer c q)
unfolding store new_entry
answer-store c key q a base now =
    rw (answer_lem, answer_lem, Map.find-insert_or_assign) (ground arith)

-- A lookup changes no later answer.
answer-find : (c : PatternCache) (key q : CacheKey) → answer (find c key).0 q ≡ answer c q
answer-find c key q = elim (find_cases c key) [
  | inl (e, _) ↦ rw e refl
  | inr (e, h, _, _, r) ↦
      rw (r, answer_lem, answer_lem)
        (ground (
          arith,
          h,
          Map.find-insert_or_assign Text-discrete (stable_key q) (stable_key key) (counted e) c,
        ))
]

-- `InvalidateFingerprint` drops every answer for the module under another fingerprint, keeps every
-- answer under the valid one, and keeps the answers whose entries belong to another module.
answer-invalidate_fingerprint :
    (c : PatternCache) (m : Text) (f : ℕ) (q : CacheKey) (e : CacheEntry)
    → IsValid c
    → Map.find Text-discrete (stable_key q) c ≡ some e
    → answer (invalidate_fingerprint c m f) q ≡ (
        if text_eq e.key.module_name m && not (e.key.module_fingerprint == f)
        then none
        else answer c q)
unfolding invalidate_fingerprint
answer-invalidate_fingerprint c m f q e v h =
    rw (answer_lem, answer_lem, Map.find-erase_if Text-discrete (stable_key q) _ c v.unique, h)
      (ground arith)

-- The keys of pattern `b::n` of module `a` and of pattern `n` of module `a::b`.
abbrev pub outer_key : Text → Text → Text → ℕ → CacheKey
outer_key a b n f = record { module_name = a; name = (b ++ separator) ++ n; module_fingerprint = f }

abbrev pub inner_key : Text → Text → Text → ℕ → CacheKey
inner_key a b n f = record { module_name = (a ++ separator) ++ b; name = n; module_fingerprint = f }

stable_key_collision :
    (a b n : Text) (f : ℕ) → stable_key (outer_key a b n f) ≡ stable_key (inner_key a b n f)
stable_key_collision a b n f = simp append_assoc

module_names_differ : (a b : Text) → a ≢ (a ++ separator) ++ b
module_names_differ [] b = λ e. cc
module_names_differ (x ∷ a) b = λ e. module_names_differ a b (tail_eq e)
  where
    tail_eq : x ∷ a ≡ x ∷ ((a ++ separator) ++ b) → a ≡ (a ++ separator) ++ b
    tail_eq e = cc

-- The stable key does not tell these two keys apart: an address stored under one is answered for
-- the other, although the modules differ.
pub answer-store_collision :
    (c : PatternCache) (a b n : Text) (f : ℕ) (p : Pointer) (base now : ℕ)
    → (outer_key a b n f ≢ inner_key a b n f)
      × (answer (store c (outer_key a b n f) p base now) (inner_key a b n f) ≡ some p)
answer-store_collision c a b n f p base now = (
  λ e. module_names_differ a b (ap (λ k. k.module_name) e),
  rw (answer-store, stable_key_collision) (ground arith),
)
