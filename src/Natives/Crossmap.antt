-- ===== src/Natives/Crossmap.antt =====
-- Natives/Native_Crossmap.hpp and Native_Crossmap.cpp: hashes of natives, canonical to runtime and
-- back, for each build. The statistics are `mutable`, so a lookup returns a new state. The file's
-- text is an argument: what `File_System_Manager::ReadText` returned.
pub mod Bijection
pub mod Loading
use devilz_den.Prelude.{
  ℕ, ◌+◌, ◌-◌, ◌%◌, ◌^◌, List, [], ◌∷◌, ◌++◌, Bool, false, not, ◌&&◌, ◌||◌, Option, none, some,
  ◌==◌, if◌then◌else◌, length, Text, codes, text_eq, ℕ_discrete,
}
use devilz_den.Prelude.Int.{u64_max}
use devilz_den.Prelude.Numbers.{from_chars}
use devilz_den.Prelude.Map
use devilz_den.Prelude.Map.{Map}
use devilz_den.Backend.Error.{
  Result, success, failure, fail_runtime, annotate, make_error, ErrorCode, ErrorCategory,
}

pub record CrossmapEntry : Type 0 where
  pub canonical : ℕ
  pub runtime : ℕ
  pub build_fingerprint : ℕ
  pub name : Text

pub record CrossmapStats : Type 0 where
  pub entries : ℕ
  pub translated : ℕ
  pub misses : ℕ
  pub collisions : ℕ

abbrev pub no_stats : CrossmapStats
no_stats = record { entries = 0; translated = 0; misses = 0; collisions = 0 }

pub record Key : Type 0 where
  pub hash : ℕ
  pub build : ℕ

unfoldable pub Key-discrete : Discrete Key
Key-discrete = hlevel ℕ_discrete

pub record Crossmap : Type 0 where
  pub by_canonical : Map Key CrossmapEntry
  pub by_runtime : Map Key CrossmapEntry
  pub stats : CrossmapStats

abbrev pub empty : Crossmap
empty = record { by_canonical = []; by_runtime = []; stats = no_stats }

abbrev pub key : ℕ → ℕ → Key
key h b = record { hash = h; build = b }

-- An entry under a key whose partner is not the expected one.
unfoldable pub conflicts : (CrossmapEntry → ℕ) → Option CrossmapEntry → ℕ → Bool
conflicts partner none expected = false
conflicts partner (some e) expected = not (partner e == expected)

unfoldable pub count_collision : Crossmap → Crossmap
count_collision x = record x {
  stats = record x.stats { collisions = (x.stats.collisions + 1) % 2 ^ 64 };
}

-- The two writes of `Add`.
unfoldable pub insert_entry : Crossmap → CrossmapEntry → Crossmap
insert_entry x e =
    let m : Map Key CrossmapEntry =
      Map.insert_or_assign Key-discrete (key e.canonical e.build_fingerprint) e x.by_canonical in
    record {
      by_canonical = m;
      by_runtime =
          Map.insert_or_assign Key-discrete (key e.runtime e.build_fingerprint) e x.by_runtime;
      stats = record x.stats { entries = length m };
    }

-- `Native_Crossmap::Add`.
unfoldable pub add : Crossmap → CrossmapEntry → Crossmap × Result (Unit {0})
unfolding conflicts count_collision insert_entry
add x e =
    if e.canonical == 0 || e.runtime == 0
    then (x, annotate (fail_runtime "Crossmap entry contains a null native hash") "Name" e.name)
    else if conflicts (λ o. o.runtime)
        (Map.find Key-discrete (key e.canonical e.build_fingerprint) x.by_canonical) e.runtime
    then (
      count_collision x,
      annotate (fail_runtime "Crossmap canonical hash collision") "Name" e.name,
    )
    else if conflicts (λ o. o.canonical)
        (Map.find Key-discrete (key e.runtime e.build_fingerprint) x.by_runtime) e.canonical
    then (
      count_collision x,
      annotate (fail_runtime "Crossmap runtime hash collision") "Name" e.name,
    )
    else (insert_entry x e, success tt)

-- `Native_Crossmap::AddBatch`: it stops at the first failure and keeps what was added before.
unfoldable pub add_batch : Crossmap → List CrossmapEntry → Crossmap × Result (Unit {0})
add_batch x [] = (x, success tt)
add_batch x (e ∷ es) =
    let (x', r) = add x e in
    let rest = add_batch x' es in elim r [ failure f ↦ (x', failure f) | success _ ↦ rest ]

count_miss : Crossmap → Crossmap
count_miss x = record x { stats = record x.stats { misses = (x.stats.misses + 1) % 2 ^ 64 } }

count_translated : Crossmap → Crossmap
count_translated x = record x {
  stats = record x.stats { translated = (x.stats.translated + 1) % 2 ^ 64 };
}

-- `Native_Crossmap::ToRuntime` and `ToCanonical`.
unfoldable pub to_runtime : Crossmap → ℕ → ℕ → Crossmap × Option ℕ
unfolding count_miss count_translated
to_runtime x canonical build = elim (Map.find Key-discrete (key canonical build) x.by_canonical) [
  | none ↦ (count_miss x, none)
  | some e ↦ (count_translated x, some e.runtime)
]

unfoldable pub to_canonical : Crossmap → ℕ → ℕ → Crossmap × Option ℕ
unfolding count_miss count_translated
to_canonical x runtime build = elim (Map.find Key-discrete (key runtime build) x.by_runtime) [
  | none ↦ (count_miss x, none)
  | some e ↦ (count_translated x, some e.canonical)
]

-- `Native_Crossmap::ContainsCanonical` and `ContainsRuntime`.
unfoldable pub contains_canonical : Crossmap → ℕ → ℕ → Bool
contains_canonical x h build = Map.contains Key-discrete (key h build) x.by_canonical

unfoldable pub contains_runtime : Crossmap → ℕ → ℕ → Bool
contains_runtime x h build = Map.contains Key-discrete (key h build) x.by_runtime

-- `Native_Crossmap::InvalidateBuild`.
unfoldable pub invalidate_build : Crossmap → ℕ → Crossmap
invalidate_build x build =
    let m : Map Key CrossmapEntry = Map.erase_if (λ k e. k.build == build) x.by_canonical in
    record {
      by_canonical = m;
      by_runtime = Map.erase_if (λ k e. k.build == build) x.by_runtime;
      stats = record x.stats { entries = length m };
    }

-- `Native_Crossmap::Clear`, `Snapshot` and `Statistics`.
unfoldable pub clear : Crossmap → Crossmap
clear x = empty

unfoldable pub snapshot : Crossmap → List CrossmapEntry
snapshot x = Map.values x.by_canonical

unfoldable pub statistics : Crossmap → CrossmapStats
statistics x = record x.stats { entries = length x.by_canonical }

-- The lines that `std::getline` yields; `current` is the line that is being read.
unfoldable pub getlines : Text → Text → List Text
getlines [] [] = []
getlines [] (d ∷ current) = (d ∷ current) ∷ []
getlines (c ∷ cs) current =
    let close = getlines cs [] in
    let extend = getlines cs (current ++ c ∷ []) in if c == 10 then current ∷ close else extend

-- What stands before and behind the first tab.
unfoldable pub split_tab : Text → Option (Text × Text)
split_tab [] = none
split_tab (c ∷ cs) =
    let later = split_tab cs in
    if c == 9
    then some ([], cs)
    else elim later [ none ↦ none | some (before, behind) ↦ some (c ∷ before, behind) ]

-- `parseHex` of `LoadText`; what stands behind the digits is ignored.
unfoldable pub parse_hex : Text → Option ℕ
parse_hex t = elim (from_chars 16 u64_max t) [ none ↦ none | some (v, rest) ↦ some v ]

-- The entry of three hexadecimal fields and a name, for the expected build (0 for any).
unfoldable pub parse_fields : ℕ → Text → Text → Text → Text → Option CrossmapEntry
unfolding parse_hex
parse_fields expected f1 f2 f3 name = elim (parse_hex f1) [
  | none ↦ none
  | some build ↦ elim (parse_hex f2) [
    | none ↦ none
    | some canonical ↦ elim (parse_hex f3) [
      | none ↦ none
      | some runtime ↦
          if not (expected == 0) && not (build == expected)
          then none
          else some (record {
            canonical = canonical;
            runtime = runtime;
            build_fingerprint = build;
            name = name;
          })
    ]
  ]
]

-- The body of the loop of `LoadText` for one line; `none` where it continues.
unfoldable pub parse_line : ℕ → Text → Option CrossmapEntry
unfolding parse_fields
parse_line expected line = elim (split_tab line) [
  | none ↦ none
  | some (f1, r1) ↦ elim (split_tab r1) [
    | none ↦ none
    | some (f2, r2) ↦ elim (split_tab r2) [
      | none ↦ none
      | some (f3, name) ↦ parse_fields expected f1 f2 f3 name
    ]
  ]
]

unfoldable pub parse_lines : ℕ → List Text → List CrossmapEntry
parse_lines expected [] = []
parse_lines expected (l ∷ ls) = elim (parse_line expected l) [
  | none ↦ parse_lines expected ls
  | some e ↦ e ∷ parse_lines expected ls
]

bad_format : Text → Result (Unit {0})
bad_format path =
    annotate
      (failure (
        make_error ErrorCode.file_read_failed ErrorCategory.filesystem
          "Unsupported native crossmap format"))
      "Path" path

load_lines : Crossmap → Text → ℕ → List Text → Crossmap × Result (Unit {0})
unfolding bad_format
load_lines x path expected [] = (x, bad_format path)
load_lines x path expected (l ∷ ls) =
    if not (text_eq l (codes "DDXMAP1"))
    then (x, bad_format path)
    else add_batch x (parse_lines expected ls)

-- `Native_Crossmap::LoadText`.
unfoldable pub load_text : Crossmap → Result Text → Text → ℕ → Crossmap × Result (Unit {0})
unfolding load_lines
load_text x text path expected = elim text [
  | failure f ↦ (x, failure f)
  | success t ↦ load_lines x path expected (getlines t [])
]
