-- ===== src/Diagnosis/Whole.antt =====
-- The texts of a diagnosis are never cut.
use rookietop.Common.{
  ◌≤◌, ◌≡◌, ◌&&◌, [], ◌∷◌, length, arith, inl, inr, Bool-cases, take-length, ◌<◌, ap, ◌∙◌,
}
use rookietop.Libc.Chars.{Bytes}
use rookietop.Libc.Float.{Float}
use rookietop.Libc.Format.{length-printed}
use rookietop.Diagnosis.{
  Diagnosis, DiagnosisInput, DiagnosisFocus, healthy, cpu, memory, disk, load, name_of, has_name,
  headline_text, healthy_text, in_units, kib_per_mib, kib_per_gib, bytes_per_gib, at_least,
  disk_text, memory_text, cpu_text, load_text, diagnosis_build, diagnosed,
}

length-headline_text : (focus : DiagnosisFocus) → length (headline_text focus) ≤ 127
unfolding headline_text
length-headline_text disk = omega arith
length-headline_text memory = omega arith
length-headline_text cpu = omega arith
length-headline_text load = omega arith
length-headline_text healthy = omega arith

module _ (f : Float) (input : DiagnosisInput f) where
  open f use {literal, lt, fixed}

  -- The numbers that the texts print have at most 24 bytes, and the names fit their buffers.
  pub record IsPrintable : Type 0 where
    pub available_kib : length (in_units f input.memory_available_kib kib_per_gib) ≤ 24
    pub available_bytes : length (in_units f input.disk_available_bytes bytes_per_gib) ≤ 24
    pub largest_kib : length (in_units f input.top_memory_kib kib_per_mib) ≤ 24
    pub busiest : length (fixed 1 input.top_cpu_percent) ≤ 24
    pub memory_name : length (name_of input.top_memory_name) ≤ 63
    pub cpu_name : length (name_of input.top_cpu_name) ≤ 63

  length-disk_text : IsPrintable → length (disk_text f input) ≤ 255
  unfolding disk_text
  length-disk_text p =
      length-printed _ (5 ∷ 24 ∷ 226 ∷ []) (omega arith, (p.available_bytes, (omega arith, tt)))

  length-memory_text : IsPrintable → length (memory_text f input) ≤ 255
  unfolding memory_text
  length-memory_text p = elim (Bool-cases (has_name input.top_memory_name)) [
    | inl named ↦ rw named (
        length-printed _ (24 ∷ 25 ∷ 63 ∷ 35 ∷ 24 ∷ 84 ∷ []) (
          p.available_kib,
          (omega arith, (p.memory_name, (omega arith, (p.largest_kib, (omega arith, tt))))),
        ))
    | inr nameless ↦
        rw nameless (length-printed _ (24 ∷ 231 ∷ []) (p.available_kib, (omega arith, tt)))
  ]

  length-cpu_text : IsPrintable → length (cpu_text f input) ≤ 255
  unfolding cpu_text
  length-cpu_text p =
      elim (Bool-cases (has_name input.top_cpu_name && at_least f input.top_cpu_percent 15 1)) [
        | inl named ↦ rw named (
            length-printed _ (63 ∷ 20 ∷ 24 ∷ 148 ∷ [])
              (p.cpu_name, (omega arith, (p.busiest, (omega arith, tt)))))
        | inr nameless ↦ rw nameless (omega arith)
      ]

  length-load_text : length (load_text f input) ≤ 255
  unfolding load_text
  length-load_text = elim (Bool-cases (lt input.cpu_percent (literal 70 1))) [
    | inl idle ↦ rw idle (omega arith)
    | inr busy ↦ rw busy (omega arith)
  ]

  length-healthy_text : length healthy_text ≤ 255
  unfolding healthy_text
  length-healthy_text = omega arith

  abbrev pub detail_text : DiagnosisFocus → Bytes
  detail_text disk = disk_text f input
  detail_text memory = memory_text f input
  detail_text cpu = cpu_text f input
  detail_text load = load_text f input
  detail_text healthy = healthy_text

  length-detail_text : IsPrintable → (focus : DiagnosisFocus) → length (detail_text focus) ≤ 255
  length-detail_text p disk = length-disk_text p
  length-detail_text p memory = length-memory_text p
  length-detail_text p cpu = length-cpu_text p
  length-detail_text p load = length-load_text
  length-detail_text p healthy = length-healthy_text

  pub diagnosis_build-diagnosed :
      let d = diagnosis_build f input in d ≡ diagnosed f d.focus (detail_text d.focus)
  unfolding diagnosis_build
  diagnosis_build-diagnosed = ground arith

  -- If the numbers that are printed have at most 24 bytes and the names at most 63, the headline
  -- and the detail of a diagnosis are the whole texts for its focus: they fit their buffers of 128
  -- and 256 bytes with the terminating zero.
  pub diagnosis_build-whole :
      IsPrintable
      → let d = diagnosis_build f input in
        (d.headline ≡ headline_text d.focus)
        × (d.detail ≡ detail_text d.focus)
        × (length d.headline < 128)
        × (length d.detail < 256)
  diagnosis_build-whole p =
      let d = diagnosis_build f input in
      let e = diagnosis_build-diagnosed in
      let headline =
        ap (λ (x : Diagnosis). x.headline) e
        ∙ take-length 127 (headline_text d.focus) (length-headline_text d.focus) in
      let detail =
        ap (λ (x : Diagnosis). x.detail) e
        ∙ take-length 255 (detail_text d.focus) (length-detail_text p d.focus) in
      (
        headline,
        detail,
        rw headline (omega (arith, length-headline_text d.focus)),
        rw detail (omega (arith, length-detail_text p d.focus)),
      )
