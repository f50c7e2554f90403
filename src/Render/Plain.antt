-- ===== src/Render/Plain.antt =====
-- Bytes that start no escape sequence.
use rookietop.Common.{
  ℕ, Bool, true, false, ◌≡◌, refl, not, ◌&&◌, List, [], ◌∷◌, ◌++◌, arith, replicate, Bool-cases,
  inl, inr, take, zero, suc, ◌==◌, sym,
}
use mathlib.Core.Path.{subst}
use rookietop.Libc.Chars.{Bytes}
use rookietop.Libc.Float.{Float}
use rookietop.Diagnosis.{
  DiagnosisFocus, DiagnosisInput, Diagnosis, healthy, cpu, memory, disk, load, name_of, has_name,
  headline_text, disk_text, memory_text, cpu_text, load_text, healthy_text, at_least,
  diagnosis_build,
}
use rookietop.Diagnosis.Whole.{detail_text, diagnosis_build-diagnosed}
use rookietop.Overview.{OverallStatus, status_critical, status_attention, status_healthy}
use rookietop.Libc.Format.{printed}
use rookietop.Render.{esc}
use rookietop.Render.Meters.{status_text, cpu_status, memory_status, disk_status}

-- No byte starts an escape sequence.
unfoldable pub is_plain : Bytes → Bool
is_plain [] = true
is_plain (c ∷ cs) = not (c == esc) && is_plain cs

pub record IsPlain (s : Bytes) : Type 0 where
  pub plain : is_plain s ≡ true

pub IsPlain-append : {s t : Bytes} → IsPlain s → IsPlain t → IsPlain (s ++ t)
unfolding is_plain
IsPlain-append {s = []} h k = k
IsPlain-append {s = c ∷ cs} {t = t} h k =
    let rest = IsPlain-append {s = cs} {t = t} (record { plain = ground (arith, h.plain) }) k in
    record { plain = ground (arith, h.plain, rest.plain) }

pub IsPlain-take : (n : ℕ) {s : Bytes} → IsPlain s → IsPlain (take n s)
unfolding is_plain
IsPlain-take zero h = record { plain = refl }
IsPlain-take (suc n) {s = []} h = record { plain = refl }
IsPlain-take (suc n) {s = c ∷ cs} h =
    let rest = IsPlain-take n {s = cs} (record { plain = ground (arith, h.plain) }) in
    record { plain = ground (arith, h.plain, rest.plain) }

pub IsPlain-replicate : (n c : ℕ) → (c == esc) ≡ false → IsPlain (replicate n c)
unfolding is_plain
IsPlain-replicate zero c h = record { plain = refl }
IsPlain-replicate (suc n) c h =
    let rest = IsPlain-replicate n c h in record { plain = ground (arith, rest.plain) }

pub plain : {s : Bytes} → is_plain s ≡ true → IsPlain s
plain h = record { plain = h }

pub record ArePlain (pieces : List Bytes) : Type 0 where
  pub all_plain : IsPlain (printed pieces)

pub printed-IsPlain : {pieces : List Bytes} → ArePlain pieces → IsPlain (printed pieces)
printed-IsPlain h = h.all_plain

infixr 4 ◌&◌
pub ◌&◌ :
    {piece : Bytes} {rest : List Bytes} → IsPlain piece → ArePlain rest → ArePlain (piece ∷ rest)
unfolding printed
h & k = record { all_plain = IsPlain-append h k.all_plain }

pub no_more : ArePlain []
unfolding printed is_plain
no_more = record { all_plain = plain refl }

pub status_text-IsPlain : (status : OverallStatus) → IsPlain (status_text status)
unfolding is_plain
status_text-IsPlain status_critical = record { plain = refl }
status_text-IsPlain status_attention = record { plain = refl }
status_text-IsPlain status_healthy = record { plain = refl }

headline_text-IsPlain : (focus : DiagnosisFocus) → IsPlain (headline_text focus)
unfolding is_plain headline_text
headline_text-IsPlain disk = record { plain = refl }
headline_text-IsPlain memory = record { plain = refl }
headline_text-IsPlain cpu = record { plain = refl }
headline_text-IsPlain load = record { plain = refl }
headline_text-IsPlain healthy = record { plain = refl }

module _ (f : Float) where
  open f use {Double, literal, lt, fixed}

  -- printf prints no escape character for `%.nf`.
  pub record PrintsPlain : Type 0 where
    pub fixed_plain : (n : ℕ) (a : Double) → IsPlain (fixed n a)

  -- The names in a diagnosis are plain.
  pub record HasPlainNames (input : DiagnosisInput f) : Type 0 where
    pub cpu_name : IsPlain (name_of input.top_cpu_name)
    pub memory_name : IsPlain (name_of input.top_memory_name)

  pub cpu_status-IsPlain : (usage : Double) → IsPlain (cpu_status f usage)
  unfolding is_plain cpu_status
  cpu_status-IsPlain usage = record { plain = ground arith }

  pub memory_status-IsPlain : (usage : Double) → IsPlain (memory_status f usage)
  unfolding is_plain memory_status
  memory_status-IsPlain usage = record { plain = ground arith }

  pub disk_status-IsPlain : (usage : Double) → IsPlain (disk_status f usage)
  unfolding is_plain disk_status
  disk_status-IsPlain usage = record { plain = ground arith }

  module _ (p : PrintsPlain) (input : DiagnosisInput f) (names : HasPlainNames input) where
    disk_text-IsPlain : IsPlain (disk_text f input)
    unfolding disk_text is_plain
    disk_text-IsPlain = printed-IsPlain (plain refl & p.fixed_plain 1 _ & plain refl & no_more)

    memory_text-IsPlain : IsPlain (memory_text f input)
    unfolding memory_text is_plain
    memory_text-IsPlain = elim (Bool-cases (has_name input.top_memory_name)) [
      | inl named ↦ rw named (
          printed-IsPlain (
            p.fixed_plain 1 _
            & plain refl
            & names.memory_name
            & plain refl
            & p.fixed_plain 1 _
            & plain refl
            & no_more))
      | inr nameless ↦ rw nameless (printed-IsPlain (p.fixed_plain 1 _ & plain refl & no_more))
    ]

    cpu_text-IsPlain : IsPlain (cpu_text f input)
    unfolding cpu_text is_plain
    cpu_text-IsPlain =
        elim (Bool-cases (has_name input.top_cpu_name && at_least f input.top_cpu_percent 15 1)) [
          | inl named ↦ rw named (
              printed-IsPlain
                (names.cpu_name & plain refl & p.fixed_plain 1 _ & plain refl & no_more))
          | inr nameless ↦ rw nameless (plain refl)
        ]

    load_text-IsPlain : IsPlain (load_text f input)
    unfolding load_text is_plain
    load_text-IsPlain = elim (Bool-cases (lt input.cpu_percent (literal 70 1))) [
      | inl idle ↦ rw idle (plain refl)
      | inr busy ↦ rw busy (plain refl)
    ]

    detail_text-IsPlain : (focus : DiagnosisFocus) → IsPlain (detail_text f input focus)
    unfolding healthy_text is_plain
    detail_text-IsPlain disk = disk_text-IsPlain
    detail_text-IsPlain memory = memory_text-IsPlain
    detail_text-IsPlain cpu = cpu_text-IsPlain
    detail_text-IsPlain load = load_text-IsPlain
    detail_text-IsPlain healthy = plain refl

    pub diagnosis_build-IsPlain :
        let d = diagnosis_build f input in IsPlain d.headline × IsPlain d.detail
    diagnosis_build-IsPlain =
        let d = diagnosis_build f input in
        let e = sym (diagnosis_build-diagnosed f input) in
        (
          subst (λ (x : Diagnosis). IsPlain x.headline) e
              (IsPlain-take 127 (headline_text-IsPlain d.focus)),
          subst (λ (x : Diagnosis). IsPlain x.detail) e
              (IsPlain-take 255 (detail_text-IsPlain d.focus)),
        )
