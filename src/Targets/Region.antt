-- ===== src/Targets/Region.antt =====
-- Memory/GTA_Target_Evidence.cpp, the helpers of the probe: what the system says of the memory at an
-- address, and the texts that show bytes and words.
use devilz_den.Prelude.{
  ℕ, zero, suc, ◌+◌, ◌-◌, ◌*◌, ◌/◌, ◌%◌, List, [], ◌∷◌, ◌++◌, Bool, false, not, ◌&&◌, none, some,
  ◌==◌, if◌then◌else◌, ltb, length, get_or, count_if, Text, codes,
}
use devilz_den.Prelude.Numbers.{to_hex}
use devilz_den.Backend.Range.{read_bytes}
use devilz_den.System.{SystemQuery, mem_commit, mem_image, has_any}

pub record RegionInfo : Type 0 where
  pub committed : Bool
  pub readable : Bool
  pub writable : Bool
  pub executable : Bool
  pub protection : ℕ
  pub region_type : ℕ
  pub base : ℕ
  pub size : ℕ

abbrev pub no_region : RegionInfo
no_region = record {
  committed = false;
  readable = false;
  writable = false;
  executable = false;
  protection = 0;
  region_type = 0;
  base = 0;
  size = 0;
}

-- `QueryRegion`.
unfoldable pub query_region : SystemQuery → ℕ → RegionInfo
unfolding has_any
query_region query address = if address == 0 then no_region else elim (query address) [
  | none ↦ no_region
  | some m ↦
      let committed = m.state == mem_commit in
      let usable = committed && not (has_any m.protect (8 ∷ 0 ∷ [])) in
      record {
        committed = committed;
        readable = usable && has_any m.protect (1 ∷ 2 ∷ 3 ∷ 5 ∷ 6 ∷ 7 ∷ []);
        writable = usable && has_any m.protect (2 ∷ 3 ∷ 6 ∷ 7 ∷ []);
        executable = usable && has_any m.protect (4 ∷ 5 ∷ 6 ∷ 7 ∷ []);
        protection = m.protect;
        region_type = m.memory_type;
        base = m.base_address;
        size = m.region_size;
      }
]

abbrev pub is_readable : SystemQuery → ℕ → Bool
is_readable query address = (query_region query address).readable

abbrev pub is_image : SystemQuery → ℕ → Bool
is_image query address = (query_region query address).region_type == mem_image

abbrev pub is_executable : SystemQuery → ℕ → Bool
is_executable query address = is_image query address && (query_region query address).executable

-- `HexValue`.
unfoldable pub hex_value : ℕ → Text
hex_value value = codes "0x" ++ to_hex value

-- `HexBytes`: two digits for each byte.
abbrev pub hex_digit : ℕ → ℕ
hex_digit d = if ltb d 10 then b'0' + d else b'A' + d - 10

unfoldable pub hex_bytes : List ℕ → Text
hex_bytes [] = []
hex_bytes (b ∷ []) = hex_digit (b / 16) ∷ hex_digit (b % 16) ∷ []
hex_bytes (b ∷ c ∷ bytes) =
    let rest = hex_bytes (c ∷ bytes) in hex_digit (b / 16) ∷ hex_digit (b % 16) ∷ b' ' ∷ rest

-- The words of a sample from the index `i` on, so many of them.
unfoldable pub words_from : List ℕ → ℕ → ℕ → List ℕ
words_from sample i zero = []
words_from sample i (suc left) =
    read_bytes (λ place. get_or sample place 0) (i * 8) 8 ∷ words_from sample (suc i) left

unfoldable pub words_of : List ℕ → List ℕ
unfolding words_from
words_of sample = words_from sample 0 (length sample / 8)

-- The text of the words, and the counts that `QwordPreview` and `PointerTablePreview` make of them.
unfoldable pub preview : List ℕ → Text
unfolding hex_value
preview [] = []
preview (w ∷ []) = hex_value w
preview (w ∷ v ∷ words) = let rest = preview (v ∷ words) in hex_value w ++ (b',' ∷ rest)

unfoldable pub non_zero_count : List ℕ → ℕ
non_zero_count words = count_if (λ w. not (w == 0)) words

unfoldable pub readable_count : SystemQuery → List ℕ → ℕ
unfolding query_region
readable_count query words = count_if (λ w. is_readable query w) words

unfoldable pub executable_count : SystemQuery → List ℕ → ℕ
unfolding query_region
executable_count query words = count_if (λ w. is_executable query w) words
