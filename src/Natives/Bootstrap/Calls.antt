-- ===== src/Natives/Bootstrap/Calls.antt =====
-- The calls of GTA_Native_Manager.hpp: which handlers they reach, and when they go through.
use devilz_den.Prelude.{
  ℕ, ◌≡◌, refl, ◌∙◌, List, Bool, false, ◌&&◌, Option, none, some, length, leb, arith, Bool-cases,
  inl, inr,
}
use devilz_den.Prelude.Map.{has_value}
use devilz_den.Natives.Frame.{
  Frame, VectorStore, Argument, max_arguments, new_frame, push_all, return_value,
}
use devilz_den.Natives.Frame.Arguments.{push_all-arguments}
use devilz_den.Natives.Bootstrap.{
  NativeId, get_game_timer, get_hash_key, unnamed, find_definition, Bootstrap, Handlers,
  find_native, call, invoke, invoke_void,
}
use devilz_den.Natives.Bootstrap.Handlers.{IsCallable, IsBootstrapped, is_named}

-- Two sets of handlers that do the same at every address that may be called.
abbrev pub SameCallable : (ℕ → Bool) → Handlers → Handlers → Type 0
SameCallable executable f g =
    (handler : ℕ) (store : VectorStore) (frame : Frame)
    → IsCallable executable handler
    → f handler store frame ≡ g handler store frame

-- No manager has a handler for an id without a name.
find_native-unnamed : (b : Bootstrap) (id : NativeId) → is_named id ≡ false → find_native b id ≡ 0
unfolding find_native find_definition
find_native-unnamed b get_game_timer h = cc
find_native-unnamed b get_hash_key h = cc
find_native-unnamed b (unnamed value) h = ground arith

call-cong :
    (executable : ℕ → Bool) (f g : Handlers) (b : Bootstrap) (store : VectorStore) (id : NativeId)
    (arguments : List Argument)
    → IsBootstrapped executable b
    → SameCallable executable f g
    → call f b store id arguments ≡ call g b store id arguments
unfolding call
call-cong executable f g b store id arguments v same = elim (Bool-cases b.ready) [
  | inr h ↦ rw h refl
  | inl h ↦ elim (Bool-cases (is_named id)) [
    | inl n ↦
        rw (same (find_native b id) store (push_all new_frame arguments).0 ((v.complete h).1 id n))
          refl
    | inr n ↦ rw (find_native-unnamed b id n, h) refl
  ]
]

call-answers :
    (executable : ℕ → Bool) (f : Handlers) (b : Bootstrap) (store : VectorStore) (id : NativeId)
    (arguments : List Argument)
    → IsBootstrapped executable b
    → has_value (call f b store id arguments).1
      ≡ (b.ready && is_named id && leb (length arguments) max_arguments)
unfolding call
call-answers executable f b store id arguments v =
    let (fits, pushed) = push_all-arguments arguments in
    elim (Bool-cases b.ready) [
      | inl h ↦ elim (Bool-cases (is_named id)) [
        | inl n ↦ let (known, callable) = (v.complete h).1 id n in ground (arith, fits, h, n, known)
        | inr n ↦ rw (find_native-unnamed b id n, h, n) refl
      ]
      | inr h ↦ rw h refl
    ]

-- On a manager that `Initialize` left, a call only ever runs code at an executable address of the
-- game's image: its outcome is the same for any two sets of handlers that agree there. It gives a
-- result exactly if the manager is ready, the id is one of the two that have a name, and there are at
-- most 40 arguments.
pub invoke-contained :
    (executable : ℕ → Bool) (f g : Handlers) (b : Bootstrap) (store : VectorStore) (id : NativeId)
    (arguments : List Argument) (bytes : ℕ)
    → IsBootstrapped executable b
    → SameCallable executable f g
    → (invoke f b store id arguments bytes ≡ invoke g b store id arguments bytes)
      × (invoke_void f b store id arguments ≡ invoke_void g b store id arguments)
      × (has_value (invoke f b store id arguments bytes).1
          ≡ (b.ready && is_named id && leb (length arguments) max_arguments))
unfolding invoke invoke_void
invoke-contained executable f g b store id arguments bytes v same =
    rw (call-cong executable f g b store id arguments v same) (
      refl,
      refl,
      answered (call f b store id arguments) ∙ call-answers executable f b store id arguments v,
    )
  where
    answered :
        (r : VectorStore × Option Frame)
        → has_value (elim r.1 [ none ↦ none | some frame ↦ some (return_value frame bytes) ])
          ≡ has_value r.1
    answered (s, none) = refl
    answered (s, some frame) = refl
