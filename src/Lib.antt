-- ===== src/Lib.antt =====
-- A model of RookieTop, a monitor for Linux machines that explains what it shows, and the proofs
-- about it.
--
-- The program reads the files of /proc and asks statvfs about the root file system; it takes two
-- samples and shows what changed between them; it lists the processes, lets the user search them,
-- opens one, and sends it SIGTERM or SIGKILL once the user confirms; and it explains the numbers in
-- short lessons. The files of the model and the code they follow:
--   Libc        the parts of the C library that the code uses: characters, strtol, strtoull, the
--               conversions of sscanf and printf, fgets, `int`; with `double` and qsort as
--               interfaces
--   Reading     the three results of the functions that look at one line
--   Cpu         src/cpu.c: the counters of /proc/stat and the share that is busy
--   Memory      src/memory.c: /proc/meminfo
--   Network     src/network.c: /proc/net/dev
--   Disk        src/disk.c: the capacity of the root file system
--   Host        src/host.c: the name, the uptime, the load and the temperature of the machine
--   ProcFs      the entries of /proc and the files below it, and parse_pid
--   Top         insert_top of src/process.c and src/process_cpu.c
--   Growing     the arrays that grow while src/process_cpu.c and src/process_list.c walk /proc
--   Search      the binary search by pid of src/process_cpu.c and src/main.c
--   Process     src/process.c: the processes that use most memory
--   ProcessCpu  src/process_cpu.c: one line of /proc/<pid>/stat (Parse), the snapshot of the
--               counters (Snapshot), the shares since then (Since)
--   ProcessList src/process_list.c: all rows, the details of one process, the signal
--   Query       src/process_query.c: the search by name or pid
--   Diagnosis   src/diagnosis.c: the focus and the advice
--   Teaching    src/teaching.c: the lessons and the words for the states
--   Overview    struct overview of src/main.c, its diagnosis and its status
--   Sampling    collect_overview and sample_process_rows of src/main.c
--   App         src/main.c: the state of run_interactive (State), the sort orders and the selection
--               (Rows), what a key does (Actions), the screens (Handlers), one round of the loop
--               (Step), the graphs' history (History)
--   Render      the functions of src/main.c that print: bars and history (Meters), texts in lines
--               (Wrap), the rows of the process list (Window, Processes), and the screens (Compact,
--               Dashboard, Details, Learning)
--   Main        run_monitor and main of src/main.c
--   Terminal    src/terminal_input.c: the bytes of the terminal and the keys; and the settings of
--               the terminal from run_interactive to the exit (Session)
--   Common      the names and lemmas that the others share
--   Examples    the theorems at concrete inputs
-- Sampling calls the readers, App takes what Sampling returns, Render prints what App and Sampling
-- hold, a round of App draws a screen of Render before it reads the key, and Main puts Sampling and
-- Render together.
--
-- How the code is read. A C string is the list of its bytes, and a file the bytes it holds with what
-- ferror and fclose say. A function that fills `*out` and returns 0 or -1 returns an Option; one
-- that returns 0, 1 or -1 for a line returns a Reading; one that prints returns the bytes. On natural
-- numbers subtraction stops at 0, so the tests that keep it from wrapping are part of the model; a
-- row or a column of the screen that may be negative is an integer (ℤ). Sums of 64-bit numbers are
-- taken modulo 2 ^ 64. A pid is a natural number, and one that is not positive is 0; a number of
-- cores that is not positive is 0. `long` and size_t have 64 bits.
--
-- Parameters. The allocations are a function from the number of items to whether they succeed;
-- qsort is a function of the comparison and the list, of which some theorems assume that it keeps
-- the items and sorts them by every consistent comparison (IsQsort); kill(2) is a function from the
-- call to its answer. A `double` is any type with the operations that the code uses, reading and
-- printing it included (Float); some theorems assume that the values that are not a NaN compare as
-- numbers do and that a comparison with a NaN fails (IsOrdered), or that a printed number holds no
-- escape character (PrintsPlain). The files of /proc are functions from paths to contents, so that
-- two reads in one function see the same /proc; a sample has one /proc for each walk over it
-- (Sources), and a round of the loop one from before the wait for a key and one after it. The bytes
-- of a file end where a read of it fails. Whether nanosleep, signal, atexit, tcgetattr and tcsetattr
-- succeed, the size of the terminal, and whether it has colours, are arguments.
--
-- Fuel. Search.search_loop counts its rounds, one more than there are items, which is enough:
-- search-Decides excludes the outcome `fault`. Render.Wrap.wrap counts lines, as many as the text has
-- bytes, which is enough for every width but 0. All other loops are recursion on their input.
--
-- Not modelled: NULL arguments; the loop of wait_ns over interrupted sleeps, of which only the
-- result is an argument; the answer of ioctl for the size of the terminal; the signals that set
-- stop_requested; the unit tests and the scripts. A round takes its samples, the key and the size of the
-- terminal as its input (Frame). A table of an overview that could not be read keeps zero cells, which
-- nothing reads.
pub mod Common
pub mod Libc
pub mod Reading
pub mod Cpu
pub mod Diagnosis
pub mod Disk
pub mod Network
pub mod Main
pub mod Memory
pub mod Top
pub mod Growing
pub mod Host
pub mod Render
pub mod Sampling
pub mod Search
pub mod ProcFs
pub mod Process
pub mod ProcessCpu
pub mod ProcessList
pub mod Query
pub mod Overview
pub mod App
pub mod Teaching
pub mod Terminal
pub mod Examples
