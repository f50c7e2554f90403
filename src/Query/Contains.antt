-- ===== src/Query/Contains.antt =====
-- The search in a name finds exactly the texts that the name holds, in either case of letters.
use rookietop.Common.{ℕ, true, [], ◌∷◌, ◌++◌, map, ◌≡◌, refl, arith, ◌↔◌, inl, inr, ap, Bool-cases}
use rookietop.Libc.Chars.{Bytes, to_lower}
use rookietop.Query.{matches_here, matches_from, contains_case_insensitive}

-- The text is `before`, then `middle`, which differs from the query in the case of letters at most,
-- then `after`.
pub record Occurs (text query : Bytes) : Type 0 where
  pub before : Bytes
  pub middle : Bytes
  pub after : Bytes
  pub splits : text ≡ before ++ (middle ++ after)
  pub same : map to_lower middle ≡ map to_lower query

matches_here_sound :
    (text query : Bytes)
    → matches_here text query ≡ true
    → (middle : Bytes) × (after : Bytes) × (text ≡ middle ++ after)
      × (map to_lower middle ≡ map to_lower query)
unfolding matches_here
matches_here_sound text [] h = ([], text, refl, refl)
matches_here_sound [] (r ∷ rs) h = cc
matches_here_sound (l ∷ ls) (r ∷ rs) h =
    let same : to_lower l ≡ to_lower r = ground arith in
    let (middle, after, splits, rest) = matches_here_sound ls rs (ground arith) in
    (l ∷ middle, after, ap (◌∷◌ l) splits, ground arith)

matches_here_complete :
    (middle after query : Bytes)
    → map to_lower middle ≡ map to_lower query
    → matches_here (middle ++ after) query ≡ true
unfolding matches_here
matches_here_complete middle after [] h = refl
matches_here_complete [] after (r ∷ rs) h = cc
matches_here_complete (m ∷ ms) after (r ∷ rs) h = ground (arith, matches_here_complete ms after rs)

Occurs-behind : (c : ℕ) (text query : Bytes) → Occurs text query → Occurs (c ∷ text) query
Occurs-behind c text query o = record {
  before = c ∷ o.before;
  middle = o.middle;
  after = o.after;
  splits = ap (◌∷◌ c) o.splits;
  same = o.same;
}

matches_from-Occurs : (text query : Bytes) → matches_from text query ≡ true → Occurs text query
unfolding matches_from
matches_from-Occurs [] query h = cc
matches_from-Occurs (c ∷ cs) query h = elim (Bool-cases (matches_here (c ∷ cs) query)) [
  | inl here ↦
      let (middle, after, splits, same) = matches_here_sound (c ∷ cs) query here in
      record { before = []; middle = middle; after = after; splits = splits; same = same }
  | inr later ↦ Occurs-behind c cs query (matches_from-Occurs cs query (ground arith))
]

Occurs-matches_from :
    (before middle after query : Bytes) (q : ℕ) (qs : Bytes)
    → query ≡ q ∷ qs
    → map to_lower middle ≡ map to_lower query
    → matches_from (before ++ (middle ++ after)) query ≡ true
unfolding matches_from
Occurs-matches_from [] [] after query q qs e h = cc
Occurs-matches_from [] (m ∷ ms) after query q qs e h =
    ground (arith, matches_here_complete (m ∷ ms) after query h)
Occurs-matches_from (b ∷ bs) middle after query q qs e h =
    ground (arith, Occurs-matches_from bs middle after query q qs e h)

-- contains_case_insensitive says whether the query occurs somewhere in the text, letters compared
-- without their case.
pub contains_case_insensitive_iff :
    (text query : Bytes) → (contains_case_insensitive text query ≡ true) ↔ Occurs text query
unfolding contains_case_insensitive
contains_case_insensitive_iff text [] =
    (λ h. record { before = []; middle = []; after = text; splits = refl; same = refl }, λ o. refl)
contains_case_insensitive_iff text (q ∷ qs) = (
  λ h. matches_from-Occurs text (q ∷ qs) (ground arith),
  λ o.
      let found = Occurs-matches_from o.before o.middle o.after (q ∷ qs) q qs refl o.same in
      rw (o.splits) (ground arith),
)
