-- ===== src/Teaching.antt =====
-- src/teaching.c: the lessons, and the words for the states of a process.
use rookietop.Common.{
  ℕ, ltb, leb, not, ◌||◌, ◌==◌, if◌then◌else◌, List, [], ◌∷◌, Option, none, some, get_elem?,
}
use rookietop.Libc.Chars.{Bytes, codes}
pub mod Lessons

-- enum teaching_concept
abbrev pub teach_cpu : ℕ
teach_cpu = 0

abbrev pub teach_memory : ℕ
teach_memory = 1

abbrev pub teach_load : ℕ
teach_load = 2

abbrev pub teach_process : ℕ
teach_process = 3

abbrev pub teach_pid : ℕ
teach_pid = 4

abbrev pub teach_process_state : ℕ
teach_process_state = 5

abbrev pub teach_signals : ℕ
teach_signals = 6

abbrev pub teach_disk : ℕ
teach_disk = 7

abbrev pub teach_network : ℕ
teach_network = 8

abbrev pub teach_count : ℕ
teach_count = 9

pub record TeachingTopic : Type 0 where
  pub title : Bytes
  pub summary : Bytes
  pub what : Bytes
  pub why : Bytes
  pub how : Bytes
  pub try_it : Bytes
  pub source : Bytes

unfoldable pub cpu_topic : TeachingTopic
cpu_topic = record {
  title = codes "CPU usage";
  summary = codes "How busy your processors are right now.";
  what = codes "CPU usage shows how busy your processors were during a short slice of time.";
  why =
      codes
        "Brief spikes are normal. It becomes interesting when CPU stays busy long enough that work starts waiting or the machine feels slow.";
  how =
      codes
        "Linux does not store a ready-made value such as 'CPU = 42%'. It keeps cumulative CPU-time counters, and RookieTop compares two samples to calculate the percentage.";
  try_it =
      codes
        "Run `yes > /dev/null` in another terminal. Watch CPU rise, then stop the command with Ctrl+C.";
  source = codes "/proc/stat";
}

unfoldable pub memory_topic : TeachingTopic
memory_topic = record {
  title = codes "Linux memory";
  summary = codes "Why a lot of used RAM is not automatically bad.";
  what =
      codes "RAM keeps programs and useful data close to the CPU so Linux can reach them quickly.";
  why =
      codes
        "Linux also uses spare RAM as cache. That is useful, not wasted. The more important question is how much memory is still readily available when programs need it.";
  how =
      codes
        "RookieTop reads MemAvailable instead of treating MemFree as all usable memory. This keeps reclaimable cache from looking like a memory problem.";
  try_it =
      codes
        "Run `grep -E 'MemTotal|MemAvailable|MemFree|Cached' /proc/meminfo` and compare the values with RookieTop.";
  source = codes "/proc/meminfo";
}

unfoldable pub load_topic : TeachingTopic
load_topic = record {
  title = codes "Load average";
  summary = codes "How much work is ready or waiting, not another CPU percent.";
  what =
      codes
        "Load average is a clue about how much work is ready to run or stuck waiting in certain kernel states over time.";
  why =
      codes
        "The same load number means different things on different machines. A load of 2 is easy for many CPUs but can be significant on a 2-CPU VM.";
  how =
      codes
        "RookieTop reads Linux load values and compares the one-minute value with your number of online CPUs instead of converting load into a fake percentage.";
  try_it =
      codes
        "Run `cat /proc/loadavg` and `nproc`, then compare both with the values shown by RookieTop.";
  source = codes "/proc/loadavg + sysconf(_SC_NPROCESSORS_ONLN)";
}

unfoldable pub process_topic : TeachingTopic
process_topic = record {
  title = codes "Processes";
  summary = codes "The running programs and background work behind system activity.";
  what =
      codes
        "A process is one running instance of a program. Linux tracks its identity, memory, state, threads, and other resources separately.";
  why =
      codes
        "When CPU or memory looks unusual, processes help answer the next question: which running program is actually contributing to it?";
  how =
      codes
        "Linux creates a directory under /proc for each process. RookieTop reads the few fields it needs directly instead of launching `ps` behind the scenes.";
  try_it =
      codes
        "Run `sleep 300 &`, note the PID printed by your shell, then find that same process in RookieTop.";
  source = codes "/proc/<pid>/status + /proc/<pid>/stat + /proc/<pid>/cmdline";
}

unfoldable pub pid_topic : TeachingTopic
pid_topic = record {
  title = codes "PID";
  summary = codes "The number Linux is using for one running process right now.";
  what =
      codes
        "PID means Process ID. It is the number Linux uses to refer to a running process at a particular moment.";
  why =
      codes
        "A PID is not permanent. Linux can reuse the same number after a process exits, so safe process actions need more than the number alone.";
  how =
      codes
        "Before RookieTop sends a signal, it checks both PID and process start time. If that identity changed, RookieTop refuses the action.";
  try_it = codes "Run `echo $$` to see your shell's PID, then inspect `/proc/$$/status`.";
  source = codes "/proc/<pid>/stat field 22 (starttime)";
}

unfoldable pub process_state_topic : TeachingTopic
process_state_topic = record {
  title = codes "Process state";
  summary = codes "Why Sleeping is normal for most background processes.";
  what =
      codes
        "Linux gives each process a short state such as running, sleeping, waiting on I/O, stopped, or zombie.";
  why =
      codes
        "Most healthy services spend a lot of time sleeping because they have nothing to do until input, a timer, network traffic, or another event arrives.";
  how =
      codes
        "RookieTop reads Linux's state code from procfs and turns common codes into plain-language labels.";
  try_it =
      codes
        "Watch a quiet service and a busy command such as `yes`. Their states can change as their work changes.";
  source = codes "/proc/<pid>/stat + /proc/<pid>/status";
}

unfoldable pub signals_topic : TeachingTopic
signals_topic = record {
  title = codes "Stopping a process";
  summary = codes "The difference between asking a process to exit and killing it immediately.";
  what =
      codes
        "Linux signals are small messages sent to processes. SIGTERM asks a process to exit; SIGKILL tells the kernel to end it immediately.";
  why =
      codes
        "A normal stop gives software a chance to finish work and clean up. A force kill skips that chance, so it should be a fallback rather than the first move.";
  how =
      codes
        "RookieTop calls kill(2) directly. `k` sends SIGTERM after confirmation. Uppercase `K` is a separate, more dangerous SIGKILL action.";
  try_it =
      codes
        "Start `sleep 300`, find it in Process Explorer, and use Safe Stop. SIGTERM should be enough.";
  source = codes "kill(2), SIGTERM, SIGKILL";
}

unfoldable pub disk_topic : TeachingTopic
disk_topic = record {
  title = codes "Filesystem space";
  summary = codes "How much room remains on the root filesystem.";
  what =
      codes
        "Filesystem usage shows how much storage is occupied and how much room remains for new files.";
  why =
      codes
        "Running out of root space can cause surprisingly unrelated failures: logs stop writing, updates fail, databases cannot grow, and applications cannot save files.";
  how =
      codes
        "RookieTop asks the operating system for root-filesystem capacity directly instead of running and parsing `df`.";
  try_it = codes "Run `df -h /` and compare the root filesystem values with RookieTop.";
  source = codes "statvfs(\"/\")";
}

unfoldable pub network_topic : TeachingTopic
network_topic = record {
  title = codes "Network throughput";
  summary = codes "How quickly data is entering and leaving this machine.";
  what =
      codes
        "Network throughput shows the current receive and transmit rate for traffic RookieTop can observe on the machine.";
  why =
      codes
        "A download, backup, package update, or busy service can explain network activity even when CPU use is modest.";
  how =
      codes
        "Linux keeps cumulative receive and transmit byte counters. RookieTop compares two samples and divides the byte change by elapsed time.";
  try_it =
      codes
        "Download a normal file or run a package update in another terminal and watch the receive rate change.";
  source = codes "/proc/net/dev + CLOCK_MONOTONIC";
}

unfoldable pub topics : List TeachingTopic
topics =
    cpu_topic ∷ memory_topic ∷ load_topic ∷ process_topic ∷ pid_topic ∷ process_state_topic
    ∷ signals_topic ∷ disk_topic ∷ network_topic ∷ []

-- `none` is NULL.
unfoldable pub teaching_get : ℕ → Option TeachingTopic
teaching_get concept = if leb teach_count concept then none else get_elem? topics concept

unfoldable pub teaching_state_name : ℕ → Bytes
teaching_state_name state =
    if state == b'R'
    then codes "Running"
    else if state == b'S'
    then codes "Sleeping"
    else if state == b'D'
    then codes "Waiting I/O"
    else if state == b'T' || state == b't'
    then codes "Stopped"
    else if state == b'Z'
    then codes "Zombie"
    else if state == b'I'
    then codes "Idle"
    else codes "Other"

unfoldable pub teaching_state_explanation : ℕ → Bytes
teaching_state_explanation state =
    if state == b'R'
    then codes "Ready to run or using CPU right now."
    else if state == b'S'
    then codes "Waiting for work or an event. This is normal for many background processes."
    else if state == b'D'
    then codes "Waiting on kernel or I/O work that cannot be interrupted yet."
    else if state == b'T' || state == b't'
    then codes "Paused or being traced, so normal work is not running right now."
    else if state == b'Z'
    then codes "Already exited, but its parent has not collected the exit result yet."
    else if state == b'I'
    then codes "An idle kernel task with no work to run right now."
    else codes "Linux reports a state RookieTop does not explain yet."

abbrev pub teaching_count : ℕ
teaching_count = teach_count
