-- ===== src/Host/Read.antt =====
-- host_read on a machine that answers: what it takes over, and its bounds.
use rookietop.Common.{
  ◌≡◌, ◌<◌, ◌-◌, refl, false, Option, none, some, arith, >>=-eq-some, >>=-elim, reject_if, ltb,
  length, take, length-take,
}
use mathlib.Core.Path.{subst}
use mathlib.Core.Option.{some-injective}
use rookietop.Libc.Chars.{Bytes}
use rookietop.Libc.Files.{File}
use rookietop.Libc.Float.{Float}
use rookietop.Host.{
  Machine, HostInfo, read_thermal, host_read, host_parse_uptime, host_parse_loadavg, host_base,
  read_uptime, read_loadavg, host_text_max,
}

module _ (f : Float) where
  open f use {Double, literal, lt, le}

  -- The members that read_thermal leaves alone.
  abbrev SameBase : HostInfo f → HostInfo f → Type 0
  SameBase a b =
      (a.hostname ≡ b.hostname)
      × (a.kernel_release ≡ b.kernel_release)
      × (a.cores ≡ b.cores)
      × (a.uptime_seconds ≡ b.uptime_seconds)
      × (a.load1 ≡ b.load1)
      × (a.load5 ≡ b.load5)
      × (a.load15 ≡ b.load15)

  read_thermal-SameBase :
      (machine : Machine) (out : HostInfo f) → SameBase (read_thermal f machine out) out
  unfolding read_thermal
  read_thermal-SameBase machine out = ground arith

  host_parse_uptime-eq-some :
      (file : File) {uptime : Double}
      → host_parse_uptime f file ≡ some uptime
      → lt uptime (literal 0 1) ≡ false
  unfolding host_parse_uptime
  host_parse_uptime-eq-some file h =
      let ((uptime, rest), scanned, h1) = >>=-eq-some (f.scan file.content) _ h in ground arith

  -- None of the three loads is below 0.
  abbrev pub AreLoads : Double × Double × Double → Type 0
  AreLoads (load1, load5, load15) =
      (lt load1 (literal 0 1) ≡ false)
      × (lt load5 (literal 0 1) ≡ false)
      × (lt load15 (literal 0 1) ≡ false)

  host_parse_loadavg-eq-some :
      (file : File) {loads : Double × Double × Double}
      → host_parse_loadavg f file ≡ some loads
      → AreLoads loads
  unfolding host_parse_loadavg
  host_parse_loadavg-eq-some file h =
      let ((load1, rest1), _, h1) = >>=-eq-some (f.scan file.content) _ h in
      let ((load5, rest5), _, h2) = >>=-eq-some (f.scan rest1) _ h1 in
      let ((load15, rest15), _, h3) = >>=-eq-some (f.scan rest5) _ h2 in
      (ground arith, ground arith, ground arith)

  read_uptime-eq-some :
      (source : Option File) {uptime : Double}
      → read_uptime f source ≡ some uptime
      → lt uptime (literal 0 1) ≡ false
  unfolding read_uptime
  read_uptime-eq-some none h = cc
  read_uptime-eq-some (some file) h = host_parse_uptime-eq-some file (ground arith)

  read_loadavg-eq-some :
      (source : Option File) {loads : Double × Double × Double}
      → read_loadavg f source ≡ some loads
      → AreLoads loads
  unfolding read_loadavg
  read_loadavg-eq-some none h = cc
  read_loadavg-eq-some (some file) h = host_parse_loadavg-eq-some file (ground arith)

  abbrev IsInfo : Machine → HostInfo f → Type 0
  IsInfo machine info =
      (0 < info.cores)
      × (info.cores ≡ machine.cores)
      × (length info.hostname < host_text_max)
      × (length info.kernel_release < host_text_max)
      × (lt info.uptime_seconds (literal 0 1) ≡ false)
      × AreLoads (info.load1, info.load5, info.load15)

  SameBase-IsInfo :
      (machine : Machine) (a b : HostInfo f) → SameBase a b → IsInfo machine b → IsInfo machine a
  SameBase-IsInfo machine a b same i = ground arith

  fits : (s : Bytes) → length (take (host_text_max - 1) s) < host_text_max
  fits s = omega (arith, length-take 63 s)

  -- What host_read returns has at least one core, the number that the machine reports; the name
  -- and the kernel fit their buffers; and neither the uptime nor a load is below 0.
  pub host_read-eq-some :
      (machine : Machine) {info : HostInfo f}
      → host_read f machine ≡ some info
      → (0 < info.cores)
        × (info.cores ≡ machine.cores)
        × (length info.hostname < host_text_max)
        × (length info.kernel_release < host_text_max)
        × (lt info.uptime_seconds (literal 0 1) ≡ false)
        × AreLoads (info.load1, info.load5, info.load15)
  unfolding host_read
  host_read-eq-some machine {info} h =
      let base = host_base f machine in
      >>=-elim machine.gethostname _ h (λ hostname _ h1.
        >>=-elim machine.uname_release _ h1 (λ release _ h2.
          >>=-elim (reject_if (ltb machine.cores 1) (some (tt {0}))) _ h2 (λ _ positive h3.
            >>=-elim (read_uptime f machine.uptime) _ h3 (λ uptime up h4.
              >>=-elim (read_loadavg f machine.loadavg) _ h4 (λ loads load h5.
                subst (IsInfo machine) (some-injective _ info h5) (
                  SameBase-IsInfo machine
                    (read_thermal f machine (base hostname release uptime loads))
                    (base hostname release uptime loads)
                    (read_thermal-SameBase machine (base hostname release uptime loads))
                    (
                      ground arith,
                      refl,
                      fits hostname,
                      fits release,
                      read_uptime-eq-some machine.uptime up,
                      read_loadavg-eq-some machine.loadavg load,
                    )))))))
