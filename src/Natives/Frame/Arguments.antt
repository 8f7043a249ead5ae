-- ===== src/Natives/Frame/Arguments.antt =====
-- The arguments of a call of GTA_Native_Call_Context.hpp, from the caller to the slots of the frame.
use devilz_den.Prelude.{
  ℕ, zero, suc, ◌+◌, ◌*◌, ◌/◌, ◌^◌, ◌≤◌, ◌<◌, ◌≡◌, refl, ap, ◌∙◌, List, [], ◌∷◌, Bool, true, false,
  some, none-some, some-inj, leb, leb→le, length, get_elem?, get_or, arith, inl, inr, Bool-cases,
  length-set, get_or-set, get_or-replicate,
}
use devilz_den.Natives.Frame.{Frame, Argument, max_arguments, new_frame, push, push_all}

-- A frame between pushes: 40 slots, of which those behind the arguments are cleared.
pub record IsValid (f : Frame) : Type 0 where
  pub slots : length f.arguments ≡ max_arguments
  pub fit : f.argument_count ≤ max_arguments
  pub cleared : (j : ℕ) → f.argument_count ≤ j → get_or f.arguments j 0 ≡ 0

new_frame-IsValid : IsValid new_frame
unfolding new_frame
new_frame-IsValid = record {
  slots = refl;
  fit = omega arith;
  cleared = λ j h. get_or-replicate 40 j 0;
}

-- A push into a frame with room.
record Pushed (f g : Frame) (a : Argument) : Type 0 where
  valid : IsValid g
  count : g.argument_count ≡ suc f.argument_count
  written : get_or g.arguments f.argument_count 0 ≡ a.bits
  kept : (j : ℕ) → j < f.argument_count → get_or g.arguments j 0 ≡ get_or f.arguments j 0

slot_lem : (n v : ℕ) → (old : ℕ) → old ≡ 0 → old / n * n + v ≡ v
slot_lem n v old e = ground (arith, e)

push-Pushed :
    (f : Frame) (a : Argument)
    → IsValid f
    → f.argument_count < max_arguments
    → Pushed f (push f a).0 a × ((push f a).1 ≡ true)
unfolding push
push-Pushed f a v h =
    let value = get_or f.arguments f.argument_count 0 / 256 ^ a.bytes * 256 ^ a.bytes + a.bits in
    let here = slot_lem (256 ^ a.bytes) a.bits _ (v.cleared f.argument_count (omega arith)) in
    let after = λ (j : ℕ). get_or-set f.arguments f.argument_count j value 0 in
    rw (lt→not_leb h) (
      record {
        valid = record {
          slots = length-set f.arguments f.argument_count value ∙ v.slots;
          fit = omega (arith, h);
          cleared = λ j k. ground (arith, after j, v.cleared j);
        };
        count = refl;
        written = ground (arith, after f.argument_count, here, v.slots);
        kept = λ j k. ground (arith, after j);
      },
      refl,
    )
  where
    lt→not_leb : f.argument_count < max_arguments → leb max_arguments f.argument_count ≡ false
    lt→not_leb k = ground arith

push_full : (f : Frame) (a : Argument) → max_arguments ≤ f.argument_count → push f a ≡ (f, false)
unfolding push
push_full f a h = ground arith

-- What `push_all` makes of a valid frame.
abbrev AllPushed : Frame → List Argument → Frame × Bool → Type 0
AllPushed f args r =
    (r.1 ≡ leb (f.argument_count + length args) max_arguments)
    × (r.1 ≡ true
        → (r.0.argument_count ≡ f.argument_count + length args)
          × ((j : ℕ) → j < f.argument_count → get_or r.0.arguments j 0 ≡ get_or f.arguments j 0)
          × ((i : ℕ) (a : Argument)
              → get_elem? args i ≡ some a
              → get_or r.0.arguments (f.argument_count + i) 0 ≡ a.bits))

-- The argument that was pushed first, and the others.
shift :
    (f g : Frame) (a : Argument) (rest : List Argument) (slots : List ℕ)
    → Pushed f g a
    → ((j : ℕ) → j < g.argument_count → get_or slots j 0 ≡ get_or g.arguments j 0)
    → ((i : ℕ) (x : Argument)
        → get_elem? rest i ≡ some x
        → get_or slots (g.argument_count + i) 0 ≡ x.bits)
    → (i : ℕ) (x : Argument) → get_elem? (a ∷ rest) i ≡ some x
    → get_or slots (f.argument_count + i) 0 ≡ x.bits
shift f g a rest slots p kept read zero x k =
    ap (λ n. get_or slots n 0) (omega arith)
    ∙ kept f.argument_count (omega (arith, p.count))
    ∙ p.written
    ∙ ap (λ y. y.bits) (some-inj k)
shift f g a rest slots p kept read (suc i) x k =
    ap (λ n. get_or slots n 0) (omega (arith, p.count)) ∙ read i x k

push_all-AllPushed :
    (f : Frame) (args : List Argument) → IsValid f → AllPushed f args (push_all f args)
unfolding push_all
push_all-AllPushed f [] v =
    (ground (arith, v.fit), λ e. (omega arith, λ j k. refl, λ i a k. absurd (none-some k)))
push_all-AllPushed f (a ∷ rest) v = elim (Bool-cases (leb max_arguments f.argument_count)) [
  | inl h ↦
      rw (push_full f a (leb→le max_arguments f.argument_count h))
        (ground (arith, h), λ e. absurd (refuted e))
  | inr h ↦
      let (pushed, fits) = push-Pushed f a v (ground (arith, h)) in
      let rest_pushed = push_all-AllPushed (push f a).0 rest pushed.valid in
      rw fits (
        ground (arith, rest_pushed, pushed.count),
        λ e.
            let (count, kept, read) = rest_pushed.1 e in
            (
              omega (arith, count, pushed.count),
              λ j k. kept j (omega (arith, k, pushed.count)) ∙ pushed.kept j k,
              shift f (push f a).0 a rest (push_all (push f a).0 rest).0.arguments pushed kept read,
            ),
      )
]
  where
    refuted : false ≡ true → ⊥
    refuted e = cc

-- The arguments of a call are packed into a new frame exactly if there are at most 40. Then the
-- frame counts them, and each slot reads as the argument of its place.
pub push_all-arguments :
    (args : List Argument)
    → let r = push_all new_frame args in
      (r.1 ≡ leb (length args) max_arguments)
      × (r.1 ≡ true
          → (r.0.argument_count ≡ length args)
            × ((i : ℕ) (a : Argument)
                → get_elem? args i ≡ some a
                → get_or r.0.arguments i 0 ≡ a.bits))
unfolding new_frame
push_all-arguments args =
    let (fits, pushed) = push_all-AllPushed new_frame args new_frame-IsValid in
    (
      fits ∙ ap (λ n. leb n max_arguments) (omega arith),
      λ e.
          let (count, kept, read) = pushed e in
          (
            omega (arith, count),
            λ i a k.
                ap (λ n. get_or (push_all new_frame args).0.arguments n 0) (omega arith)
                ∙ read i a k,
          ),
    )
