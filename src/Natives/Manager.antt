-- ===== src/Natives/Manager.antt =====
-- Natives/Native_Manager.hpp and Native_Manager.cpp: the crossmap of the running build and the
-- cache of resolved handlers. The file manager is an argument, `read`: the result of
-- `File_System_Manager::ReadText` for a path.
pub mod Resolution
use devilz_den.Prelude.{
  ℕ, [], Bool, true, false, not, Option, none, some, ◌==◌, if◌then◌else◌, Text,
}
use devilz_den.Prelude.Numbers.{to_string}
use devilz_den.Backend.Error.{Result, success, failure, fail_runtime, annotate}
use devilz_den.Backend.Range.{Pointer}
use devilz_den.Natives.Crossmap
use devilz_den.Natives.Crossmap.{Crossmap}
use devilz_den.Natives.Table.{Registration, NativeCache, cache_store, cache_find}

-- `Build_Info` (Runtime/Build_Info.hpp).
pub record BuildInfo : Type 0 where
  pub version : Text
  pub pe_timestamp : ℕ
  pub image_size : ℕ
  pub text_hash : ℕ
  pub rdata_hash : ℕ
  pub fingerprint : ℕ
  pub executable_path : Text

abbrev pub no_build : BuildInfo
no_build = record {
  version = [];
  pe_timestamp = 0;
  image_size = 0;
  text_hash = 0;
  rdata_hash = 0;
  fingerprint = 0;
  executable_path = [];
}

pub record NativeManager : Type 0 where
  pub build : BuildInfo
  pub crossmap : Crossmap
  pub cache : NativeCache
  pub ready : Bool

abbrev pub new_manager : NativeManager
new_manager = record { build = no_build; crossmap = Crossmap.empty; cache = []; ready = false }

-- `Native_Manager::Initialize`.
unfoldable pub initialize :
    (Text → Result Text) → NativeManager → BuildInfo → Text → NativeManager × Result (Unit {0})
initialize read m build path =
    let cleared : NativeManager = record {
      build = build;
      crossmap = Crossmap.clear m.crossmap;
      cache = [];
      ready = false;
    } in
    if build.fingerprint == 0
    then (cleared, fail_runtime "GTA build fingerprint is unavailable; refusing to load a crossmap")
    else (let (x, loaded) =
          Crossmap.load_text cleared.crossmap (read path) path build.fingerprint in
        let filled : NativeManager = record cleared { crossmap = x } in
        elim loaded [
          | failure e ↦ (filled, failure e)
          | success _ ↦
              if (Crossmap.statistics x).entries == 0
              then (
                filled,
                annotate
                    (annotate
                      (fail_runtime "Crossmap contains no entries for the detected GTA build")
                      "BuildFingerprint" (to_string build.fingerprint))
                    "Crossmap" path,
              )
              else (record filled { ready = true }, success tt)
        ])

-- `Native_Manager::Shutdown`.
unfoldable pub shutdown : NativeManager → NativeManager
shutdown m = record m { ready = false; cache = []; crossmap = Crossmap.clear m.crossmap }

translated : NativeManager → ℕ → Crossmap × Option ℕ → NativeManager × Result ℕ
translated m canonical (x, none) = (
  record m { crossmap = x },
  annotate
      (annotate (fail_runtime "Native hash is not present in the active crossmap") "CanonicalHash"
        (to_string canonical))
      "BuildFingerprint" (to_string m.build.fingerprint),
)
translated m canonical (x, some r) = (record m { crossmap = x }, success r)

-- `Native_Manager::Translate`; the crossmap's statistics change.
unfoldable pub translate : NativeManager → ℕ → NativeManager × Result ℕ
unfolding translated
translate m canonical =
    if not m.ready
    then (m, fail_runtime "Native manager is not ready")
    else translated m canonical (Crossmap.to_runtime m.crossmap canonical m.build.fingerprint)

-- `Native_Manager::FindCached`.
unfoldable pub find_cached : NativeManager → ℕ → NativeManager × Option Registration
find_cached m canonical =
    let (m', runtime) = translate m canonical in
    elim runtime [ failure e ↦ (m', none) | success r ↦ (m', cache_find m'.cache r) ]

-- `Native_Manager::CacheResolved`; the warning that it logs is left out.
unfoldable pub cache_resolved : NativeManager → ℕ → Pointer → Bool → NativeManager
cache_resolved m canonical handler valid =
    let (m', runtime) = translate m canonical in
    elim runtime [
      | failure e ↦ m'
      | success r ↦ record m' {
        cache =
            cache_store m'.cache
              (record { hash = r; handler = handler; validated = valid; call_count = 0 });
      }
    ]
