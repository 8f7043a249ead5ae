-- ===== src/Prelude/Map.antt =====
-- `std::unordered_map` as an association list that holds a key at most once. The order of the
-- list stands for the order in which the table is walked, which the source leaves open.
use Prim.Native.Nat.{◌+◌}
use mathlib.Core.Path.{◌≡◌, refl, sym, ◌∙◌}
use mathlib.Core.Logic.{◌≢◌, ite}
use mathlib.Core.List.{List, [], ◌∷◌}
use mathlib.Core.Option.{Option, none, some}
use mathlib.Core.Bool.{Bool, true, false}
use native.Mathlib.Omega.{arith}
use devilz_den.Prelude.Tests.{if◌then◌else◌}
use devilz_den.Prelude.Lists.{length}

abbrev pub Map {ℓ} : Type ℓ → Type ℓ → Type ℓ
Map K V = List (K × V)

-- An optional value held, and whether it is there.
abbrev pub has_value {ℓ} : {A : Type ℓ} → Option A → Bool
has_value none = false
has_value (some a) = true

module _ {ℓ} {K V : Type ℓ} where
  abbrev pub values : Map K V → List V
  values [] = []
  values ((k, v) ∷ m) = v ∷ values m

  unfoldable pub erase_if : (K → V → Bool) → Map K V → Map K V
  erase_if p [] = []
  erase_if p ((k, v) ∷ m) = if p k v then erase_if p m else (k, v) ∷ erase_if p m

module _ {ℓ} {K V : Type ℓ} (dec : Discrete K) where
  unfoldable pub find : K → Map K V → Option V
  find k [] = none
  find k ((j, v) ∷ m) = ite (dec j k) (some v) (find k m)

  unfoldable pub insert_or_assign : K → V → Map K V → Map K V
  insert_or_assign k v [] = (k, v) ∷ []
  insert_or_assign k v ((j, w) ∷ m) = ite (dec j k) ((k, v) ∷ m) ((j, w) ∷ insert_or_assign k v m)

  unfoldable pub erase : K → Map K V → Map K V
  erase k [] = []
  erase k ((j, w) ∷ m) = ite (dec j k) m ((j, w) ∷ erase k m)

  abbrev pub contains : K → Map K V → Bool
  contains k m = has_value (find k m)

  -- No key occurs twice.
  abbrev pub HasUniqueKeys : Map K V → Type ℓ
  HasUniqueKeys [] = Unit
  HasUniqueKeys ((k, v) ∷ m) = (find k m ≡ none) × HasUniqueKeys m

  -- After a write the key has the new value, and every other key the old one.
  pub find-insert_or_assign :
      (q k : K) (v : V) (m : Map K V)
      → find q (insert_or_assign k v m) ≡ ite (dec k q) (some v) (find q m)
  unfolding find insert_or_assign
  find-insert_or_assign q k v [] = refl
  find-insert_or_assign q k v ((j, w) ∷ m) = ground (arith, find-insert_or_assign q k v m)

  pub find-insert_or_assign_self :
      (k : K) (v : V) (m : Map K V) → find k (insert_or_assign k v m) ≡ some v
  find-insert_or_assign_self k v m = ground (arith, find-insert_or_assign k k v m)

  pub find-insert_or_assign_ne :
      (q k : K) (v : V) (m : Map K V) → k ≢ q → find q (insert_or_assign k v m) ≡ find q m
  find-insert_or_assign_ne q k v m h = ground (arith, find-insert_or_assign q k v m)

  pub insert_or_assign-HasUniqueKeys :
      (k : K) (v : V) (m : Map K V) → HasUniqueKeys m → HasUniqueKeys (insert_or_assign k v m)
  unfolding find insert_or_assign
  insert_or_assign-HasUniqueKeys k v [] h = (refl, tt)
  insert_or_assign-HasUniqueKeys k v ((j, w) ∷ m) h =
      ground (arith, find-insert_or_assign j k v m, insert_or_assign-HasUniqueKeys k v m h.1)

  pub find-erase :
      (q k : K) (m : Map K V) → HasUniqueKeys m → find q (erase k m) ≡ ite (dec k q) none (find q m)
  unfolding find erase
  find-erase q k [] h = ground arith
  find-erase q k ((j, w) ∷ m) h = ground (arith, find-erase q k m h.1)

  pub erase-HasUniqueKeys : (k : K) (m : Map K V) → HasUniqueKeys m → HasUniqueKeys (erase k m)
  unfolding find erase
  erase-HasUniqueKeys k [] h = tt
  erase-HasUniqueKeys k ((j, w) ∷ m) h =
      ground (arith, find-erase j k m h.1, erase-HasUniqueKeys k m h.1)

  -- The value at a key survives a filtered erase exactly if the filter spares it.
  abbrev pub spare : (K → V → Bool) → K → Option V → Option V
  spare p k none = none
  spare p k (some v) = if p k v then none else some v

  pub find-erase_if :
      (q : K) (p : K → V → Bool) (m : Map K V)
      → HasUniqueKeys m
      → find q (erase_if p m) ≡ spare p q (find q m)
  unfolding find erase_if
  find-erase_if q p [] h = refl
  find-erase_if q p ((j, w) ∷ m) h = ground (arith, find-erase_if q p m h.1)

  pub erase_if-HasUniqueKeys :
      (p : K → V → Bool) (m : Map K V) → HasUniqueKeys m → HasUniqueKeys (erase_if p m)
  unfolding find erase_if
  erase_if-HasUniqueKeys p [] h = tt
  erase_if-HasUniqueKeys p ((j, w) ∷ m) h =
      ground (arith, find-erase_if j p m h.1, erase_if-HasUniqueKeys p m h.1)

  -- The size of the table after a write and after an erase.
  pub length-insert_or_assign :
      (k : K) (v : V) (m : Map K V)
      → length (insert_or_assign k v m) ≡ length m + (if contains k m then 0 else 1)
  unfolding find insert_or_assign
  length-insert_or_assign k v [] = refl
  length-insert_or_assign k v ((j, w) ∷ m) = ground (arith, length-insert_or_assign k v m)

  pub length-erase :
      (k : K) (m : Map K V) → length (erase k m) + (if contains k m then 1 else 0) ≡ length m
  unfolding find erase
  length-erase k [] = refl
  length-erase k ((j, w) ∷ m) = ground (arith, length-erase k m)

  pub find-nil : (k : K) → find k [] ≡ none
  unfolding find
  find-nil k = refl

  -- What is found after an erase was there before.
  pub find_of_erase :
      (q k : K) (m : Map K V) (v : V)
      → HasUniqueKeys m
      → find q (erase k m) ≡ some v
      → find q m ≡ some v
  find_of_erase q k m v h e = erased (dec k q) (sym (find-erase q k m h) ∙ e)
    where
      erased : (d : Dec (k ≡ q)) → ite d none (find q m) ≡ some v → find q m ≡ some v
      erased (yes p) r = cc
      erased (no p) r = r
