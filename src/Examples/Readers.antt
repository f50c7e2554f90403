-- ===== src/Examples/Readers.antt =====
-- The readers and the numbers of the machine.
use rookietop.Common.{[], ◌∷◌, ◌≤◌, ◌≡◌, refl, false, some, arith}
use rookietop.Libc.Chars.{codes, is_digit}
use rookietop.Libc.Files.{File, lines}
use rookietop.Cpu.{CpuSample, cpu_usage, cpu_parse_line}
use rookietop.Cpu.Usage.{cpu_usage-Advances}
use rookietop.Cpu.RoundTrip.{cpu_parse_line-cpu_line, cpu_line}
use rookietop.Disk.{Statvfs, DiskSample, blocks_to_bytes, disk_read_root}
use rookietop.Network.{network_read}
use rookietop.Network.Totals.{network_read_exact, fitting, received, sent}
use rookietop.Memory.{MemorySample, memory_parse, memory_read}
use rookietop.Memory.Entries.{entry, passed, text_of}
use rookietop.Memory.RoundTrip.{memory_parse-meminfo, meminfo, Layout, IsLayout}
use rookietop.Libc.Files.Lines.{is_one_line}
use rookietop.Libc.Fields.{row}
use rookietop.Libc.Decimal.{decimal, digits_below}
use Prim.Native.String.{String}
use rookietop.Libc.Chars.{strip_prefix}
use rookietop.Examples.Data.{naturals, good_file}

abbrev sample_before : CpuSample
sample_before = record {
  user = 10;
  nice = 0;
  system = 5;
  idle = 100;
  iowait = 3;
  irq = 0;
  softirq = 1;
  steal = 0;
}

abbrev sample_after : CpuSample
sample_after = record {
  user = 25;
  nice = 0;
  system = 10;
  idle = 175;
  iowait = 7;
  irq = 0;
  softirq = 2;
  steal = 0;
}

cpu_usage-Advances_example : (cpu_usage naturals sample_before sample_after ≡ some 21) × (21 ≤ 100)
cpu_usage-Advances_example =
    cpu_usage-Advances naturals sample_before sample_after (ground arith) (omega arith)
      (omega arith)

-- `cpu  100 2 30 400 5 6 7 8 9 10`
abbrev fixture_counters : CpuSample
fixture_counters = record {
  user = 100;
  nice = 2;
  system = 30;
  idle = 400;
  iowait = 5;
  irq = 6;
  softirq = 7;
  steal = 8;
}

fixture_line :
    cpu_line 1 fixture_counters (codes " 9 10\n") ≡ codes "cpu  100 2 30 400 5 6 7 8 9 10\n"
unfolding cpu_line row decimal digits_below
fixture_line = refl

cpu_parse_line-cpu_line_example :
    cpu_parse_line (cpu_line 1 fixture_counters (codes " 9 10\n")) ≡ some fixture_counters
unfolding is_digit
cpu_parse_line-cpu_line_example =
    cpu_parse_line-cpu_line 1 fixture_counters (codes " 9 10\n") (ground arith) refl

abbrev root_fs : Statvfs
root_fs = record { f_frsize = 4096; f_bsize = 512; f_blocks = 1000; f_bavail = 250 }

abbrev root_sample : DiskSample
root_sample = record { total_bytes = 4096000; available_bytes = 1024000 }

root_read : disk_read_root (some root_fs) ≡ some root_sample
unfolding disk_read_root blocks_to_bytes
root_read = refl

abbrev net_file : File
net_file =
    good_file
      "Inter-| Receive\n face |bytes\n    lo: 900 1 0 0 0 0 0 0 900 1 0 0 0 0 0 0\n  eth0: 1500 4 0 0 0 0 0 0 700 3 0 0 0 0 0 0\n wlan0: 20 1 0 0 0 0 0 0 30 1 0 0 0 0 0 0\n"

network_read_exact_example :
    network_read (some net_file)
    ≡ fitting (received (lines 512 net_file)) (sent (lines 512 net_file))
network_read_exact_example = network_read_exact net_file refl refl

-- tests/fixtures/proc_meminfo_valid.txt
abbrev memory_sample : MemorySample
memory_sample = record {
  total_kib = 8192000;
  available_kib = 2048000;
  swap_total_kib = 2097152;
  swap_free_kib = 1572864;
}

abbrev fixture_layout : Layout
fixture_layout = record {
  before_total = [];
  before_available = codes "MemFree:          512000 kB" ∷ [];
  before_swap_total =
      codes "Buffers:          128000 kB"
      ∷ codes "Cached:          1536000 kB"
      ∷ codes "SwapCached:            0 kB"
      ∷ [];
  before_swap_free = [];
  total_pad = 8;
  available_pad = 4;
  swap_total_pad = 7;
  swap_free_pad = 8;
}

fixture_layout-IsLayout : IsLayout fixture_layout
unfolding is_one_line strip_prefix
fixture_layout-IsLayout = record {
  passed_total = tt;
  passed_available = (passed refl refl refl refl refl (omega arith), tt);
  passed_swap_total = (
    passed refl refl refl refl refl (omega arith),
    (
      passed refl refl refl refl refl (omega arith),
      (passed refl refl refl refl refl (omega arith), tt),
    ),
  );
  passed_swap_free = tt;
  pads = (omega arith, omega arith, omega arith, omega arith);
}

abbrev fixture_meminfo : String
fixture_meminfo =
    "MemTotal:        8192000 kB\nMemFree:          512000 kB\nMemAvailable:    2048000 kB\nBuffers:          128000 kB\nCached:          1536000 kB\nSwapCached:            0 kB\nSwapTotal:       2097152 kB\nSwapFree:        1572864 kB\n"

fixture_content : meminfo fixture_layout memory_sample [] ≡ codes fixture_meminfo
unfolding meminfo text_of entry decimal digits_below
fixture_content = refl

memory_parse-meminfo_example :
    memory_parse (record {
      content = meminfo fixture_layout memory_sample [];
      read_error = false;
      close_error = false;
    })
    ≡ some memory_sample
memory_parse-meminfo_example =
    memory_parse-meminfo fixture_layout memory_sample [] false fixture_layout-IsLayout
      (ground arith) (ground arith)

abbrev meminfo_file : File
meminfo_file = record {
  content = meminfo fixture_layout memory_sample [];
  read_error = false;
  close_error = false;
}

meminfo_read : memory_read (some meminfo_file) ≡ some memory_sample
unfolding memory_read
meminfo_read = ground (
  arith,
  memory_parse-meminfo fixture_layout memory_sample [] false fixture_layout-IsLayout (ground arith)
      (ground arith),
)
