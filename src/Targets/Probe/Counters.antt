-- ===== src/Targets/Probe/Counters.antt =====
-- The counters of the whole evidence that Memory/GTA_Target_Evidence.cpp gathers.
use devilz_den.Prelude.{
  ℕ, refl, List, Bool, true, false, not, ◌&&◌, Option, none, some, ◌==◌, if◌then◌else◌,
}
use devilz_den.Backend.Error.{Result, success, failure}
use devilz_den.Backend.Process
use devilz_den.Backend.Process.{SystemRead}
use devilz_den.System.{SystemQuery}
use devilz_den.Targets.Evidence.{
  CandidateKind, direct_data, pointer_storage, code_site, Evidence, no_evidence,
}
use devilz_den.Targets.Region.{RegionInfo, query_region, is_readable}
use devilz_den.Targets.Summary.{summary}
use devilz_den.Targets.Probe.{
  ProcessReader, capture_region, sample_code, sample_data, sample_region, capture_pointee,
  sample_candidate, sample_pointee, probe_pointee, gather, probe, is_pointer_storage, first_word,
}
use devilz_den.Targets.Probe.Objects.{
  IsOrdered, IsUncounted, IsUncounted-IsOrdered, probe_object_slots-IsOrdered, IsOrdered-if,
}

-- The parts of the evidence that are gathered before the objects.
sample_candidate-IsUncounted :
    (query : SystemQuery) (reader : ProcessReader) (kind : CandidateKind) (address : ℕ)
    (e : Evidence)
    → IsUncounted e
    → IsUncounted (sample_candidate query reader kind address e)
unfolding sample_candidate
sample_candidate-IsUncounted query reader CandidateKind.unknown address e u = u
sample_candidate-IsUncounted query reader direct_data address e u = data_sample (reader address 64)
  where
    data_sample : (r : Result (List ℕ)) → IsUncounted (sample_data query r e)
    data_sample (failure x) = u
    data_sample (success bytes) = record {
      dominant = u.dominant;
      image = u.image;
      executable = u.executable;
      decoded = u.decoded;
      readable = u.readable;
      sampled = u.sampled;
    }
sample_candidate-IsUncounted query reader pointer_storage address e u = u
sample_candidate-IsUncounted query reader code_site address e u = code_sample (reader address 16)
  where
    code_sample : (r : Result (List ℕ)) → IsUncounted (sample_code r e)
    code_sample (failure x) = u
    code_sample (success bytes) = record {
      dominant = u.dominant;
      image = u.image;
      executable = u.executable;
      decoded = u.decoded;
      readable = u.readable;
      sampled = u.sampled;
    }

sample_pointee-IsOrdered :
    (query : SystemQuery) (reader : ProcessReader) (r : Result (List ℕ)) (e : Evidence)
    → IsUncounted e
    → IsOrdered (sample_pointee query reader r e)
unfolding sample_pointee
sample_pointee-IsOrdered query reader (failure x) e u = IsUncounted-IsOrdered e u
sample_pointee-IsOrdered query reader (success sample) e u =
    probe_object_slots-IsOrdered query reader sample _ (record {
      dominant = u.dominant;
      image = u.image;
      executable = u.executable;
      decoded = u.decoded;
      readable = u.readable;
      sampled = u.sampled;
    })

capture_pointee-IsUncounted :
    (r : RegionInfo) (pointee : ℕ) (e : Evidence)
    → IsUncounted e
    → IsUncounted (capture_pointee r pointee e)
unfolding capture_pointee
capture_pointee-IsUncounted r pointee e u = record {
  dominant = u.dominant;
  image = u.image;
  executable = u.executable;
  decoded = u.decoded;
  readable = u.readable;
  sampled = u.sampled;
}

probe_pointee-IsOrdered :
    (query : SystemQuery) (reader : ProcessReader) (o : Option ℕ) (e : Evidence)
    → IsUncounted e
    → IsOrdered (probe_pointee query reader o e)
unfolding probe_pointee
probe_pointee-IsOrdered query reader none e u = IsUncounted-IsOrdered e u
probe_pointee-IsOrdered query reader (some pointee) e u =
    let decoded = capture_pointee (query_region query pointee) pointee e in
    let uncounted = capture_pointee-IsUncounted (query_region query pointee) pointee e u in
    IsOrdered-if (not (pointee == 0) && is_readable query pointee)
      (sample_pointee query reader (reader pointee 64) decoded) decoded
      (sample_pointee-IsOrdered query reader (reader pointee 64) decoded uncounted)
      (IsUncounted-IsOrdered decoded uncounted)

captured-IsUncounted : (r : RegionInfo) → IsUncounted (capture_region r no_evidence)
unfolding capture_region
captured-IsUncounted r = record {
  dominant = refl;
  image = refl;
  executable = refl;
  decoded = refl;
  readable = refl;
  sampled = refl;
}

sample_region-IsUncounted :
    (query : SystemQuery) (reader : ProcessReader) (pid : ℕ) (kind : CandidateKind) (address : ℕ)
    → IsUncounted (sample_region query reader pid kind address)
unfolding sample_region
sample_region-IsUncounted query reader pid kind address =
    let captured = capture_region (query_region query address) no_evidence in
    let uncounted = captured-IsUncounted (query_region query address) in
    chosen (not (address == 0) && not (pid == 0) && is_readable query address) _ _
      (sample_candidate-IsUncounted query reader kind address captured uncounted) uncounted
  where
    chosen :
        (b : Bool) (e f : Evidence)
        → IsUncounted e
        → IsUncounted f
        → IsUncounted (if b then e else f)
    chosen true e f u v = u
    chosen false e f u v = v

-- Whatever the process and the system answer, and whatever the candidate is, the counters of the
-- evidence are ordered: the words that are dominant are among the decoded ones, the executable image
-- pointers among the image pointers and those among the decoded words, the decoded words among
-- the readable objects, and those among the at most 8 slots.
pub probe-IsOrdered :
    (query : SystemQuery) (system : SystemRead) (pid : ℕ) (kind : CandidateKind) (address : ℕ)
    → IsOrdered (probe query system pid kind address)
unfolding probe gather
probe-IsOrdered query system pid kind address =
    summarised (gather query (Process.read system pid) pid kind address)
      (gathered (is_pointer_storage kind && not (address == 0) && not (pid == 0)))
  where
    reader : ProcessReader
    reader = Process.read system pid

    sampled : Evidence
    sampled = sample_region query reader pid kind address

    gathered :
        (b : Bool)
        → IsOrdered (
            if b
            then probe_pointee query reader (first_word (reader address 8)) sampled
            else sampled)
    gathered b =
        let uncounted = sample_region-IsUncounted query reader pid kind address in
        IsOrdered-if b _ _
          (probe_pointee-IsOrdered query reader (first_word (reader address 8)) sampled uncounted)
          (IsUncounted-IsOrdered sampled uncounted)

    summarised : (e : Evidence) → IsOrdered e → IsOrdered (record e { summary = summary kind e })
    summarised e o = record {
      dominant = o.dominant;
      image = o.image;
      executable = o.executable;
      decoded = o.decoded;
      readable = o.readable;
      sampled = o.sampled;
    }
