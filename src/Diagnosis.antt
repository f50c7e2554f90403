-- ===== src/Diagnosis.antt =====
-- src/diagnosis.c: the focus, the headline and the advice that one sample gives.
use rookietop.Common.{
  ℕ, Bool, true, false, ◌&&◌, List, [], ◌∷◌, ◌++◌, Option, none, some, if◌then◌else◌, take,
}
use rookietop.Libc.Chars.{Bytes, codes}
use rookietop.Libc.Float.{Float}
use rookietop.Libc.Format.{printed}
pub mod Whole

pub data DiagnosisFocus : Type 0 where
  healthy cpu memory disk load : DiagnosisFocus

-- `none` for a name that is NULL
pub record DiagnosisInput (f : Float) : Type 0 where
  pub cpu_percent : f.Double
  pub memory_percent : f.Double
  pub disk_percent : f.Double
  pub load_ratio : f.Double
  pub memory_available_kib : ℕ
  pub disk_available_bytes : ℕ
  pub top_cpu_name : Option Bytes
  pub top_cpu_percent : f.Double
  pub top_memory_name : Option Bytes
  pub top_memory_kib : ℕ

pub record Diagnosis : Type 0 where
  pub focus : DiagnosisFocus
  pub headline : Bytes
  pub detail : Bytes

abbrev pub has_name : Option Bytes → Bool
has_name none = false
has_name (some []) = false
has_name (some (c ∷ cs)) = true

abbrev pub name_of : Option Bytes → Bytes
name_of none = []
name_of (some name) = name

unfoldable pub headline_text : DiagnosisFocus → Bytes
headline_text disk = codes "Root storage is almost full."
headline_text memory = codes "Available memory is getting tight."
headline_text cpu = codes "The CPUs are very busy right now."
headline_text load = codes "More work is waiting than this CPU count handles comfortably."
headline_text healthy = codes "Nothing looks constrained right now."

unfoldable pub healthy_text : Bytes
healthy_text =
    codes
      "CPU, available memory, load, and root storage all have comfortable room. Short spikes can still happen and are usually normal."

-- KIB_PER_MIB, KIB_PER_GIB and BYTES_PER_GIB
abbrev pub kib_per_mib : ℕ
kib_per_mib = 1024

abbrev pub kib_per_gib : ℕ
kib_per_gib = 1048576

abbrev pub bytes_per_gib : ℕ
bytes_per_gib = 1073741824

module _ (f : Float) where
  open f use {Double, of_u64, literal, div, le, lt, fixed}

  -- a >= n / d
  abbrev pub at_least : Double → ℕ → ℕ → Bool
  at_least a n d = le (literal n d) a

  -- `%.1f` of (double)n / unit
  abbrev pub in_units : ℕ → ℕ → Bytes
  in_units n unit = fixed 1 (div (of_u64 n) (literal unit 1))

  unfoldable pub disk_text : DiagnosisInput f → Bytes
  disk_text input = printed (
      codes "Only "
      ∷ in_units input.disk_available_bytes bytes_per_gib
      ∷ codes
          " GiB is available. Running out of root space can break logs, updates, databases, and normal writes."
      ∷ [])

  unfoldable pub memory_text : DiagnosisInput f → Bytes
  memory_text input =
      let available = in_units input.memory_available_kib kib_per_gib in
      if has_name input.top_memory_name
      then printed (
          available
          ∷ codes " GiB is still available. "
          ∷ name_of input.top_memory_name
          ∷ codes " is the largest visible process at "
          ∷ in_units input.top_memory_kib kib_per_mib
          ∷ codes " MiB, but one process may not explain all memory use."
          ∷ [])
      else printed (
          available
          ∷ codes
              " GiB is still available. Watch whether available memory keeps falling before treating this as sustained pressure."
          ∷ [])

  unfoldable pub cpu_text : DiagnosisInput f → Bytes
  cpu_text input =
      if has_name input.top_cpu_name && at_least input.top_cpu_percent 15 1
      then printed (
          name_of input.top_cpu_name
          ∷ codes " accounts for about "
          ∷ fixed 1 input.top_cpu_percent
          ∷ codes "% of whole-machine CPU in this short sample. A brief spike can still be normal."
          ∷ [])
      else codes
          "No single visible process dominates this short sample. Watch whether the high usage persists before drawing a conclusion."

  unfoldable pub load_text : DiagnosisInput f → Bytes
  load_text input =
      if lt input.cpu_percent (literal 70 1)
      then codes
          "CPU is not saturated, so some of the load may be waiting on I/O or other kernel work. Load is not another CPU percentage."
      else codes
          "CPU is busy too, so runnable work may be queueing for processor time. Watch whether both values stay high."

  -- snprintf into `char headline[128]` and `char detail[256]`
  abbrev pub diagnosed : DiagnosisFocus → Bytes → Diagnosis
  diagnosed focus text = record {
    focus = focus;
    headline = take 127 (headline_text focus);
    detail = take 255 text;
  }

  unfoldable pub diagnosis_build : DiagnosisInput f → Diagnosis
  diagnosis_build input =
      if at_least input.disk_percent 95 1
      then diagnosed disk (disk_text input)
      else if at_least input.memory_percent 90 1
      then diagnosed memory (memory_text input)
      else if at_least input.cpu_percent 90 1
      then diagnosed cpu (cpu_text input)
      else if at_least input.load_ratio 125 100
      then diagnosed load (load_text input)
      else diagnosed healthy healthy_text
