-- ===== src/Targets/Probe/Objects.antt =====
-- The objects that the probe of Memory/GTA_Target_Evidence.cpp counts.
use devilz_den.Prelude.{
  ℕ, zero, suc, ◌+◌, ◌≤◌, ◌≡◌, ◌⊎◌, inl, inr, sym, subst, ap, List, [], ◌∷◌, Bool, true, false, not,
  ◌&&◌, Option, none, some, none-some, ◌==◌, if◌then◌else◌, take, length, arith, Bool-cases,
  length-append, count_if-le-length,
}
use devilz_den.Backend.Error.{Result, success, failure}
use devilz_den.System.{SystemQuery}
use devilz_den.Targets.Evidence.{Evidence}
use devilz_den.Targets.Region.{is_readable, is_image, is_executable, words_of}
use devilz_den.Targets.Probe.{
  ProcessReader, decode_object, count_decoded, Slots, probe_slot, probe_slots, dominant,
  sample_dominant, probe_object_slots, count_of, keep_target, record_slot,
}
use devilz_den.Targets.Probe.Dominant.{dominant-IsMode}

-- The counters of the objects: those with a dominant first word are among the decoded ones, those
-- among the readable ones, and those among the sampled slots, of which there are at most 8.
pub record IsOrdered (e : Evidence) : Type 0 where
  pub dominant : e.dominant_count ≤ e.first_qwords_decoded
  pub image : e.first_qword_image_pointers ≤ e.first_qwords_decoded
  pub executable : e.first_qword_executable_image_pointers ≤ e.first_qword_image_pointers
  pub decoded : e.first_qwords_decoded ≤ e.readable_objects
  pub readable : e.readable_objects ≤ e.object_slots_sampled
  pub sampled : e.object_slots_sampled ≤ 8

-- The loop over the slots after so many of them.
record IsCounted (n : ℕ) (s : Slots) : Type 0 where
  kept : length s.decoded ≤ s.evidence.first_qwords_decoded
  image : s.evidence.first_qword_image_pointers ≤ s.evidence.first_qwords_decoded
  executable :
      s.evidence.first_qword_executable_image_pointers ≤ s.evidence.first_qword_image_pointers
  decoded : s.evidence.first_qwords_decoded ≤ s.evidence.readable_objects
  readable : s.evidence.readable_objects ≤ s.evidence.object_slots_sampled
  sampled : s.evidence.object_slots_sampled ≡ n

-- An object is decoded only if it can be read.
decode_object-readable :
    (query : SystemQuery) (reader : ProcessReader) (object : ℕ)
    → (decode_object query reader object ≡ none) ⊎ (is_readable query object ≡ true)
unfolding decode_object
decode_object-readable query reader object = elim (Bool-cases (is_readable query object)) [
  | inl h ↦ inr h
  | inr h ↦ inl (ground (arith, h))
]

length-keep_target :
    (decoded : List ℕ) (first : ℕ)
    → length (keep_target decoded (some first)) ≤ suc (length decoded)
length-keep_target decoded first = ground (arith, length-append decoded (first ∷ []))

executable-le-image :
    (query : SystemQuery) (a : ℕ) → count_of (is_executable query a) ≤ count_of (is_image query a)
executable-le-image query a = ground arith

count_of-le-one : (b : Bool) → count_of b ≤ 1
count_of-le-one true = omega arith
count_of-le-one false = omega arith

image-le-one : (query : SystemQuery) (a : ℕ) → count_of (is_image query a) ≤ 1
image-le-one query a = ground arith

record_slot_none-IsCounted :
    (query : SystemQuery) (i object n : ℕ) (s : Slots)
    → IsCounted n s
    → IsCounted (suc n) (record_slot query i object none s)
unfolding record_slot count_decoded
record_slot_none-IsCounted query i object n s c = record {
  kept = c.kept;
  image = c.image;
  executable = c.executable;
  decoded = omega (arith, c.decoded);
  readable = omega (arith, c.readable, count_of-le-one (is_readable query object));
  sampled = ap suc c.sampled;
}

record_slot_some-IsCounted :
    (query : SystemQuery) (i object n f : ℕ) (s : Slots)
    → is_readable query object ≡ true
    → IsCounted n s
    → IsCounted (suc n) (record_slot query i object (some f) s)
unfolding record_slot count_decoded
record_slot_some-IsCounted query i object n f s h c =
    let one = ap count_of h in
    record {
      kept = omega (arith, c.kept, length-keep_target s.decoded f);
      image = omega (arith, c.image, image-le-one query f);
      executable = omega (arith, c.executable, executable-le-image query f);
      decoded = omega (arith, c.decoded, one);
      readable = omega (arith, c.readable, one);
      sampled = ap suc c.sampled;
    }

probe_slot-IsCounted :
    (query : SystemQuery) (reader : ProcessReader) (i object n : ℕ) (s : Slots)
    → IsCounted n s
    → IsCounted (suc n) (probe_slot query reader i object s)
unfolding probe_slot
probe_slot-IsCounted query reader i object n s c =
    counted (decode_object query reader object) (decode_object-readable query reader object)
  where
    counted :
        (o : Option ℕ)
        → (o ≡ none) ⊎ (is_readable query object ≡ true)
        → IsCounted (suc n) (record_slot query i object o s)
    counted none h = record_slot_none-IsCounted query i object n s c
    counted (some f) (inl e) = absurd (none-some (sym e))
    counted (some f) (inr h) = record_slot_some-IsCounted query i object n f s h c

probe_slots-IsCounted :
    (query : SystemQuery) (reader : ProcessReader) (i n : ℕ) (objects : List ℕ) (s : Slots)
    → IsCounted n s
    → IsCounted (length objects + n) (probe_slots query reader i objects s)
unfolding probe_slots
probe_slots-IsCounted query reader i n [] s c = subst (λ k. IsCounted k s) (omega arith) c
probe_slots-IsCounted query reader i n (object ∷ objects) s c =
    subst
      (λ k.
        IsCounted k (probe_slots query reader (suc i) objects (probe_slot query reader i object s)))
      (omega arith)
      (probe_slots-IsCounted query reader (suc i) (suc n) objects
        (probe_slot query reader i object s) (probe_slot-IsCounted query reader i object n s c))

-- Evidence whose objects have not been counted yet.
pub record IsUncounted (e : Evidence) : Type 0 where
  pub dominant : e.dominant_count ≡ 0
  pub image : e.first_qword_image_pointers ≡ 0
  pub executable : e.first_qword_executable_image_pointers ≡ 0
  pub decoded : e.first_qwords_decoded ≡ 0
  pub readable : e.readable_objects ≡ 0
  pub sampled : e.object_slots_sampled ≡ 0

pub IsUncounted-IsOrdered : (e : Evidence) → IsUncounted e → IsOrdered e
IsUncounted-IsOrdered e u = record {
  dominant = omega (arith, u.dominant);
  image = omega (arith, u.image);
  executable = omega (arith, u.executable);
  decoded = omega (arith, u.decoded);
  readable = omega (arith, u.readable);
  sampled = omega (arith, u.sampled);
}

dominant-le-length : (targets : List ℕ) → (dominant targets).1 ≤ length targets
dominant-le-length targets = elim (Bool-cases ((dominant targets).1 == 0)) [
  | inl z ↦ ground (arith, z)
  | inr n ↦
      let exact = (dominant-IsMode targets).1 (ground (arith, n)) in
      omega (arith, exact, count_if-le-length (λ b. b == (dominant targets).0) targets)
]

length-take : (n : ℕ) (xs : List ℕ) → length (take n xs) ≤ n
length-take zero xs = omega arith
length-take (suc n) [] = omega arith
length-take (suc n) (x ∷ xs) = omega (arith, length-take n xs)

IsUncounted-IsCounted :
    (e : Evidence) → IsUncounted e → IsCounted 0 (record { evidence = e; decoded = [] })
IsUncounted-IsCounted e u = record {
  kept = omega arith;
  image = omega (arith, u.image);
  executable = omega (arith, u.executable);
  decoded = omega (arith, u.decoded);
  readable = omega (arith, u.readable);
  sampled = u.sampled;
}

-- The evidence with its dominant word.
abbrev with_dominant : Slots → Evidence
with_dominant s = record s.evidence {
  dominant_address = (dominant s.decoded).0;
  dominant_count = (dominant s.decoded).1;
}

IsCounted-IsOrdered :
    (n : ℕ) (s : Slots) → IsCounted (n + 0) s → n ≤ 8 → IsOrdered (with_dominant s)
IsCounted-IsOrdered n s c h = record {
  dominant = omega (arith, dominant-le-length s.decoded, c.kept);
  image = c.image;
  executable = c.executable;
  decoded = c.decoded;
  readable = c.readable;
  sampled = omega (arith, c.sampled, h);
}

sample_dominant-IsOrdered :
    (query : SystemQuery) (r : Result (List ℕ)) (e : Evidence)
    → IsOrdered e
    → IsOrdered (sample_dominant query r e)
unfolding sample_dominant
sample_dominant-IsOrdered query (failure x) e o = o
sample_dominant-IsOrdered query (success bytes) e o = record {
  dominant = o.dominant;
  image = o.image;
  executable = o.executable;
  decoded = o.decoded;
  readable = o.readable;
  sampled = o.sampled;
}

pub IsOrdered-if :
    (b : Bool) (e f : Evidence) → IsOrdered e → IsOrdered f → IsOrdered (if b then e else f)
IsOrdered-if true e f o p = o
IsOrdered-if false e f o p = p

pub probe_object_slots-IsOrdered :
    (query : SystemQuery) (reader : ProcessReader) (sample : List ℕ) (e : Evidence)
    → IsUncounted e
    → IsOrdered (probe_object_slots query reader sample e)
unfolding probe_object_slots
probe_object_slots-IsOrdered query reader sample e u =
    let slots =
      probe_slots query reader 0 (take 8 (words_of sample))
        (record { evidence = e; decoded = [] }) in
    let counted =
      probe_slots-IsCounted query reader 0 0 (take 8 (words_of sample))
        (record { evidence = e; decoded = [] }) (IsUncounted-IsCounted e u) in
    let ordered = IsCounted-IsOrdered _ slots counted (length-take 8 (words_of sample)) in
    IsOrdered-if
      (not ((dominant slots.decoded).0 == 0) && is_readable query (dominant slots.decoded).0) _ _
      (sample_dominant-IsOrdered query _ _ ordered) ordered
