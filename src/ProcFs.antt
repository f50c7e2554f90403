-- ===== src/ProcFs.antt =====
-- What the process readers ask of the kernel: the entries of /proc and the files below it. It also
-- has parse_pid, which src/process.c, src/process_cpu.c and src/process_list.c each define alike.
use rookietop.Common.{
  ℕ, Bool, ◌||◌, not, List, ◌∷◌, ◌++◌, Option, some, ltb, leb, ◌==◌, reject_if, length,
}
use rookietop.Libc.Chars.{Bytes, codes}
use rookietop.Libc.Decimal.{decimal}
use rookietop.Libc.Numbers.{strtol, int_max}
use rookietop.Libc.Files.{File}

-- The names that readdir returns in turn, whether it ends by an error, and whether closedir fails.
pub record Directory : Type 0 where
  pub entries : List Bytes
  pub read_error : Bool
  pub close_error : Bool

-- `none` stands for an opendir or an fopen that fails.
pub record ProcFs : Type 0 where
  pub proc_dir : Option Directory
  pub open_file : Bytes → Option File

-- `snprintf(path, 64, "/proc/%d/leaf", pid)`, which must fit, and fopen
unfoldable pub open_proc : ProcFs → ℕ → Bytes → Option File
open_proc fs pid leaf =
    let path = codes "/proc/" ++ (decimal pid ++ (b'/' ∷ leaf)) in
    reject_if (leb 64 (length path)) (fs.open_file path)

unfoldable pub parse_pid : Bytes → Option ℕ
parse_pid text =
    let r = strtol text in
    reject_if (length text == 0) (
      reject_if
        (r.range_error
          || not (length r.rest == 0)
          || (r.negative || r.magnitude == 0)
          || ltb int_max r.magnitude)
        (some r.magnitude))
