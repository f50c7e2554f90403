-- ===== src/App/Order.antt =====
-- The comparisons that sort_processes gives to qsort are orders, and the lessons form a cycle.
use rookietop.Common.{◌<◌, ◌≡◌, ◌≢◌, ◌⊎◌, inl, inr, sym, refl, [], ◌∷◌, some, arith}
use mathlib.Core.Path.{subst}
use rookietop.Libc.Chars.{Bytes}
use rookietop.Libc.Float.{Float}
use rookietop.Teaching.{teach_count}
use rookietop.ProcessList.{ProcessRow}
use rookietop.App.State.{AppState, Frame, ProcessSort, sort_memory, sort_cpu, sort_pid, sort_name}
use rookietop.Libc.Sort.{Sign, negative, equal, positive, opposite, compare_number}
use rookietop.App.Rows.{strcmp, compare_pid, compare_memory, compare_name, comparison}
use rookietop.App.Handlers.{on_learn_topic}

strcmp-opposite : (s t : Bytes) → strcmp t s ≡ opposite (strcmp s t)
unfolding strcmp
strcmp-opposite [] [] = refl
strcmp-opposite [] (t ∷ ts) = refl
strcmp-opposite (s ∷ ss) [] = refl
strcmp-opposite (s ∷ ss) (t ∷ ts) = ground (arith, strcmp-opposite ss ts)

strcmp_trans :
    (s t u : Bytes) → strcmp s t ≡ negative → strcmp t u ≡ negative → strcmp s u ≡ negative
unfolding strcmp
strcmp_trans [] [] u h k = ground (arith, h)
strcmp_trans [] (t ∷ ts) [] h k = ground (arith, k)
strcmp_trans [] (t ∷ ts) (u ∷ us) h k = refl
strcmp_trans (s ∷ ss) [] u h k = ground (arith, h)
strcmp_trans (s ∷ ss) (t ∷ ts) [] h k = ground (arith, k)
strcmp_trans (s ∷ ss) (t ∷ ts) (u ∷ us) h k = ground (arith, strcmp_trans ss ts us)

strcmp-equal : (s t : Bytes) → strcmp s t ≡ equal → s ≡ t
unfolding strcmp
strcmp-equal [] [] h = refl
strcmp-equal [] (t ∷ ts) h = ground (arith, h)
strcmp-equal (s ∷ ss) [] h = ground (arith, h)
strcmp-equal (s ∷ ss) (t ∷ ts) h = ground (arith, strcmp-equal ss ts)

Sign-cases : (s : Sign) → (s ≡ negative) ⊎ ((s ≡ equal) ⊎ (s ≡ positive))
Sign-cases negative = inl refl
Sign-cases equal = inr (inl refl)
Sign-cases positive = inr (inr refl)

module _ (f : Float) where
  -- What qsort needs of a comparison of rows, and that it tells processes apart.
  pub record IsComparison (compare : ProcessRow f → ProcessRow f → Sign) : Type 0 where
    pub flips : (a b : ProcessRow f) → compare b a ≡ opposite (compare a b)
    pub trans :
        (a b c : ProcessRow f)
        → compare a b ≡ negative
        → compare b c ≡ negative
        → compare a c ≡ negative
    pub distinct : (a b : ProcessRow f) → compare a b ≡ equal → a.pid ≡ b.pid

  compare_memory-IsComparison : IsComparison (compare_memory f)
  unfolding compare_memory compare_number
  compare_memory-IsComparison = record {
    flips = λ a b. ground arith;
    trans = λ a b c h k. ground arith;
    distinct = λ a b h. ground arith;
  }

  compare_pid-IsComparison : IsComparison (compare_pid f)
  unfolding compare_pid compare_number
  compare_pid-IsComparison = record {
    flips = λ a b. ground arith;
    trans = λ a b c h k. ground arith;
    distinct = λ a b h. ground arith;
  }

  compare_name_trans :
      (a b c : ProcessRow f)
      → compare_name f a b ≡ negative
      → compare_name f b c ≡ negative
      → compare_name f a c ≡ negative
  unfolding compare_name compare_pid compare_number
  compare_name_trans a b c h k = elim (Sign-cases (strcmp a.name b.name)) [
    | inl less ↦ elim (Sign-cases (strcmp b.name c.name)) [
      | inl less' ↦ ground (arith, strcmp_trans a.name b.name c.name less less')
      | inr (inl same') ↦
          let moved =
            subst (λ n. strcmp a.name n ≡ negative) (strcmp-equal b.name c.name same') less in
          ground (arith, moved)
      | inr (inr more') ↦ ground (arith, k)
    ]
    | inr (inl same) ↦
        let moved =
          subst (λ n. strcmp n c.name ≡ strcmp b.name c.name)
            (sym (strcmp-equal a.name b.name same)) refl in
        ground (arith, moved, h, k)
    | inr (inr more) ↦ ground (arith, h)
  ]

  compare_name-IsComparison : IsComparison (compare_name f)
  unfolding compare_name compare_pid compare_number
  compare_name-IsComparison = record {
    flips = λ a b. ground (arith, strcmp-opposite a.name b.name);
    trans = λ a b c h k. compare_name_trans a b c h k;
    distinct = λ a b h. ground arith;
  }

  -- The comparisons by memory, by pid and by name are orders, as qsort needs: each is the opposite
  -- of the comparison the other way round and transitive, and finds only rows of the same pid equal.
  pub comparison-IsComparison :
      (sort : ProcessSort) → sort ≢ sort_cpu → IsComparison (comparison f sort)
  comparison-IsComparison sort_memory h = compare_memory-IsComparison
  comparison-IsComparison sort_cpu h = absurd (h refl)
  comparison-IsComparison sort_pid h = compare_pid-IsComparison
  comparison-IsComparison sort_name h = compare_name-IsComparison

  -- On the lesson screen, the key b after the key n comes back to the lesson, in place of any of
  -- the teach_count lessons.
  pub on_learn_topic-back :
      (next back : Frame f) (state : AppState f)
      → next.key ≡ some b'n'
      → back.key ≡ some b'b'
      → state.lesson < teach_count
      → let there = (on_learn_topic f next state).state in
        ((on_learn_topic f back there).state).lesson ≡ state.lesson
  unfolding on_learn_topic
  on_learn_topic-back next back state n b h = ground arith
