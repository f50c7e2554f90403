-- ===== src/Host/Thermal.antt =====
-- The temperature that read_thermal reports.
use rookietop.Common.{
  ℕ, ◌≡◌, refl, true, false, List, [], ◌∷◌, Option, none, some, ◌⊎◌, inl, inr, Bool-cases,
  Option-cases, arith, ◌∙◌,
}
use mathlib.Core.Path.{subst}
use rookietop.Libc.Chars.{Bytes}
use rookietop.Libc.Files.{File}
use rookietop.Libc.Float.{Float, IsOrdered}
use rookietop.Host.{
  Machine, HostInfo, Hottest, degrees, read_zone, zone_type, offer_zone, read_zones, no_zone,
  read_thermal,
}

module _ (f : Float) (open_file : Bytes → Option File) where
  open f use {Double, literal, le}

  -- No entry is a zone with a temperature.
  abbrev pub NoZones : List Bytes → Type 0
  NoZones [] = Unit
  NoZones (entry ∷ entries) = (read_zone f open_file entry ≡ none) × NoZones entries

  -- `limit` is at least as hot as this reading.
  abbrev Covers : Double → Option ℕ → Type 0
  Covers limit none = Unit
  Covers limit (some m) = le (degrees f m) limit ≡ true

  abbrev pub CoversAll : Double → List Bytes → Type 0
  CoversAll limit [] = Unit
  CoversAll limit (entry ∷ entries) =
      Covers limit (read_zone f open_file entry) × CoversAll limit entries

  -- `h` is what the zone of one of the entries gives.
  abbrev pub IsOneOf : Hottest f → List Bytes → Type 0
  IsOneOf h [] = ⊥
  IsOneOf h (entry ∷ entries) =
      ((m : ℕ) × (read_zone f open_file entry ≡ some m)
        × (h ≡ record { hottest = degrees f m; hottest_type = zone_type f open_file entry }))
      ⊎ IsOneOf h entries

module _ (f : Float) (ordered : IsOrdered f) (open_file : Bytes → Option File) where
  open f use {Double, literal, le}

  Covers-le :
      (a b : Double) (o : Option ℕ)
      → le a b ≡ true
      → Covers f open_file a o
      → Covers f open_file b o
  Covers-le a b none h c = tt
  Covers-le a b (some m) h c = ordered.trans (degrees f m) a b c h

  module _ (warm : (m : ℕ) → le (literal 0 1) (degrees f m) ≡ true) where
    degrees_number : (m : ℕ) → le (degrees f m) (degrees f m) ≡ true
    degrees_number m = (ordered.le_numbers (literal 0 1) (degrees f m) (warm m)).1

    offer_zone-Covers :
        (h : Hottest f) (entry : Bytes)
        → le h.hottest h.hottest ≡ true
        → let r = offer_zone f open_file h entry in
          (le h.hottest r.hottest ≡ true)
          × Covers f open_file r.hottest (read_zone f open_file entry)
          × ((r ≡ h) ⊎ IsOneOf f open_file r (entry ∷ []))
    unfolding offer_zone
    offer_zone-Covers h entry n = elim (Option-cases (read_zone f open_file entry)) [
      | inl e ↦ rw (e, offer_zone) (n, tt, inl refl)
      | inr (m, e) ↦ elim (Bool-cases (le (degrees f m) h.hottest)) [
        | inl cooler ↦ rw (e, cooler, offer_zone) (n, cooler, inl refl)
        | inr hotter ↦
            let above : le h.hottest (degrees f m) ≡ true =
              ground (arith, ordered.total h.hottest (degrees f m) n (degrees_number m)) in
            rw (e, hotter, offer_zone) (above, degrees_number m, inr (inl (m, refl, refl)))
      ]
    ]

    read_zones-CoversAll :
        (h : Hottest f) (entries : List Bytes)
        → le h.hottest h.hottest ≡ true
        → let r = read_zones f open_file h entries in
          (le h.hottest r.hottest ≡ true)
          × CoversAll f open_file r.hottest entries
          × ((r ≡ h) ⊎ IsOneOf f open_file r entries)
    unfolding read_zones
    read_zones-CoversAll h [] n = (n, tt, inl refl)
    read_zones-CoversAll h (entry ∷ entries) n =
        let first = offer_zone f open_file h entry in
        let r = read_zones f open_file first entries in
        let (above, covers, from) = offer_zone-Covers h entry n in
        let (above_rest, covers_rest, from_rest) =
          read_zones-CoversAll first entries (ordered.le_numbers h.hottest first.hottest above).1 in
        let origin : (r ≡ h) ⊎ IsOneOf f open_file r (entry ∷ entries) = elim from_rest [
          | inr later ↦ inr (inr later)
          | inl same ↦ elim from [
            | inl none_yet ↦ inl (same ∙ none_yet)
            | inr (inl (m, e, k)) ↦ inr (inl (m, e, same ∙ k))
            | inr (inr impossible) ↦ absurd impossible
          ]
        ] in
        (
          ordered.trans h.hottest first.hottest r.hottest above above_rest,
          (
            Covers-le first.hottest r.hottest (read_zone f open_file entry) above_rest covers,
            covers_rest,
          ),
          origin,
        )

  CoversAll-NoZones :
      (limit : Double) (entries : List Bytes)
      → ((m : ℕ) → le (degrees f m) limit ≡ false)
      → CoversAll f open_file limit entries
      → NoZones f open_file entries
  CoversAll-NoZones limit [] cold c = tt
  CoversAll-NoZones limit (entry ∷ entries) cold (first, rest) = (
    elim (Option-cases (read_zone f open_file entry)) [
      | inl e ↦ e
      | inr (m, e) ↦
          let covered = subst (Covers f open_file limit) e first in ground (arith, cold m)
    ],
    CoversAll-NoZones limit entries cold rest,
  )

  IsOneOf-warm :
      (h : Hottest f) (entries : List Bytes)
      → ((m : ℕ) → le (literal 0 1) (degrees f m) ≡ true)
      → IsOneOf f open_file h entries
      → le (literal 0 1) h.hottest ≡ true
  IsOneOf-warm h [] warm one = absurd one
  IsOneOf-warm h (entry ∷ entries) warm (inl (m, e, k)) = rw k (warm m)
  IsOneOf-warm h (entry ∷ entries) warm (inr later) = IsOneOf-warm h entries warm later

module _ (f : Float) where
  open f use {literal, le, negate}

  -- Where the doubles that are not a NaN compare as numbers do, a comparison with a NaN fails, -1.0
  -- is below 0.0, and every temperature is at least 0.0 and above -1.0: read_thermal on a directory
  -- that can be listed changes nothing if no entry is a zone with a temperature from 0 to 200
  -- degrees; else it stores the temperature of a zone that is at least as hot as all others, and what
  -- its type file leaves in the array that held "thermal".
  pub read_thermal-IsOneOf :
      (ordered : IsOrdered f) (machine : Machine) (out : HostInfo f) (entries : List Bytes)
      → machine.thermal_dir ≡ some entries
      → ((m : ℕ) → le (degrees f m) (negate (literal 1 1)) ≡ false)
      → ((m : ℕ) → le (literal 0 1) (degrees f m) ≡ true)
      → le (literal 0 1) (negate (literal 1 1)) ≡ false
      → le (negate (literal 1 1)) (literal 0 1) ≡ true
      → (NoZones f machine.open_file entries × (read_thermal f machine out ≡ out))
        ⊎ ((h : Hottest f) × IsOneOf f machine.open_file h entries
            × CoversAll f machine.open_file h.hottest entries
            × (read_thermal f machine out ≡ record out {
              thermal_ok = true;
              thermal_c = h.hottest;
              thermal_type = h.hottest_type;
            }))
  unfolding read_thermal
  read_thermal-IsOneOf ordered machine out entries listed cold warm below minus =
      let h = read_zones f machine.open_file (no_zone f) entries in
      let (above, covers, origin) =
        read_zones-CoversAll f ordered machine.open_file warm (no_zone f) entries
          (ordered.le_numbers (negate (literal 1 1)) (literal 0 1) minus).0 in
      elim origin [
        | inl none_found ↦ inl (
          CoversAll-NoZones f ordered machine.open_file (negate (literal 1 1)) entries cold (
              subst (λ (r : Hottest f). CoversAll f machine.open_file r.hottest entries) none_found
                covers),
          rw (listed, none_found, below, read_thermal) refl,
        )
        | inr one ↦ inr (
          h,
          one,
          covers,
          rw (listed, IsOneOf-warm f ordered machine.open_file h entries warm one, read_thermal)
              refl,
        )
      ]
