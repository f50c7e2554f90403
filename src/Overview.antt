-- ===== src/Overview.antt =====
-- The judgements on one sample in src/main.c: `struct overview`, the diagnosis of it, its status
-- and the lesson for it.
use rookietop.Common.{
  ℕ, Bool, true, false, ◌&&◌, ◌||◌, not, if◌then◌else◌, ltb, List, [], ◌∷◌, Option, none, some,
  replicate,
}
use rookietop.Libc.Chars.{Bytes}
use rookietop.Libc.Float.{Float}
use rookietop.Host.{HostInfo}
use rookietop.Memory.{MemorySample}
use rookietop.Disk.{DiskSample}
use rookietop.Process.{ProcessInfo}
use rookietop.ProcessCpu.Since.{ProcessCpuInfo}
use rookietop.Diagnosis.{
  DiagnosisInput, Diagnosis, DiagnosisFocus, cpu, memory, disk, load, healthy, at_least,
  diagnosis_build,
}
use rookietop.Teaching.{teach_cpu, teach_memory, teach_load, teach_disk}
pub mod Verdict

pub record Overview (f : Float) : Type 0 where
  pub host : HostInfo f
  pub memory : MemorySample
  pub disk : DiskSample
  pub memory_top : List ProcessInfo
  pub cpu_top : List (ProcessCpuInfo f)
  pub cpu_percent : f.Double
  pub memory_percent : f.Double
  pub disk_percent : f.Double
  pub rx_per_sec : f.Double
  pub tx_per_sec : f.Double
  pub memory_used_kib : ℕ
  pub swap_used_kib : ℕ
  pub disk_used_bytes : ℕ
  pub memory_process_count : ℕ
  pub memory_process_total : ℕ
  pub cpu_process_count : ℕ
  pub cpu_process_total : ℕ
  pub host_ok : Bool
  pub network_ok : Bool
  pub memory_process_ok : Bool
  pub cpu_process_ok : Bool

abbrev pub top_process_count : ℕ
top_process_count = 8

pub data OverallStatus : Type 0 where
  status_critical status_attention status_healthy : OverallStatus

module _ (f : Float) where
  open f use {Double, of_u64, literal, div, le}

  abbrev pub no_host : HostInfo f
  no_host = record {
    hostname = [];
    kernel_release = [];
    thermal_type = [];
    cores = 0;
    uptime_seconds = literal 0 1;
    load1 = literal 0 1;
    load5 = literal 0 1;
    load15 = literal 0 1;
    thermal_c = literal 0 1;
    thermal_ok = false;
  }

  -- `memset(view, 0, sizeof(*view))`
  abbrev pub no_overview : Overview f
  no_overview = record {
    host = no_host;
    memory = record { total_kib = 0; available_kib = 0; swap_total_kib = 0; swap_free_kib = 0 };
    disk = record { total_bytes = 0; available_bytes = 0 };
    memory_top = replicate top_process_count (record { pid = 0; name = []; rss_kib = 0 });
    cpu_top =
        replicate top_process_count
          (record { pid = 0; name = []; cpu_percent = literal 0 1; starttime = 0 });
    cpu_percent = literal 0 1;
    memory_percent = literal 0 1;
    disk_percent = literal 0 1;
    rx_per_sec = literal 0 1;
    tx_per_sec = literal 0 1;
    memory_used_kib = 0;
    swap_used_kib = 0;
    disk_used_bytes = 0;
    memory_process_count = 0;
    memory_process_total = 0;
    cpu_process_count = 0;
    cpu_process_total = 0;
    host_ok = false;
    network_ok = false;
    memory_process_ok = false;
    cpu_process_ok = false;
  }

  unfoldable pub load_ratio : Overview f → Double
  load_ratio view =
      if not view.host_ok || ltb view.host.cores 1
      then literal 0 1
      else div view.host.load1 (of_u64 view.host.cores)

  -- The name and the number of the first process of a table, if the table was read.
  abbrev first_of :
      {A : Type 0} {B : Type 0} → Bool → ℕ → List A → (A → Bytes) → (A → B) → B → Option Bytes × B
  first_of ok count [] name_of value_of zero_value = (none, zero_value)
  first_of ok count (item ∷ rest) name_of value_of zero_value =
      if ok && ltb 0 count then (some (name_of item), value_of item) else (none, zero_value)

  unfoldable pub diagnosis_input : Overview f → DiagnosisInput f
  diagnosis_input view =
      let (cpu_name, cpu_value) =
        first_of view.cpu_process_ok view.cpu_process_count view.cpu_top
          (λ (info : ProcessCpuInfo f). info.name) (λ info. info.cpu_percent) (literal 0 1) in
      let (memory_name, memory_value) =
        first_of view.memory_process_ok view.memory_process_count view.memory_top
          (λ (info : ProcessInfo). info.name) (λ info. info.rss_kib) 0 in
      record {
        cpu_percent = view.cpu_percent;
        memory_percent = view.memory_percent;
        disk_percent = view.disk_percent;
        load_ratio = load_ratio view;
        memory_available_kib = view.memory.available_kib;
        disk_available_bytes = view.disk.available_bytes;
        top_cpu_name = cpu_name;
        top_cpu_percent = cpu_value;
        top_memory_name = memory_name;
        top_memory_kib = memory_value;
      }

  unfoldable pub build_view_diagnosis : Overview f → Diagnosis
  build_view_diagnosis view = diagnosis_build f (diagnosis_input view)

  unfoldable pub overall_status : Overview f → OverallStatus
  overall_status view =
      if at_least f view.disk_percent 95 1
      then status_critical
      else if at_least f view.cpu_percent 90 1
          || at_least f view.memory_percent 90 1
          || at_least f view.disk_percent 85 1
          || at_least f (load_ratio view) 125 100
          || (view.host_ok && view.host.thermal_ok && at_least f view.host.thermal_c 90 1)
      then status_attention
      else status_healthy

  abbrev pub focus_lesson : DiagnosisFocus → ℕ
  focus_lesson cpu = teach_cpu
  focus_lesson memory = teach_memory
  focus_lesson disk = teach_disk
  focus_lesson load = teach_load
  focus_lesson healthy = teach_cpu

  unfoldable pub diagnosis_lesson : Overview f → ℕ
  diagnosis_lesson view = focus_lesson (build_view_diagnosis view).focus
