-- ===== src/App/History/Recent.antt =====
-- The history holds the most recent samples, oldest first.
use rookietop.Common.{
  ℕ, suc, ◌+◌, ◌-◌, ◌≤◌, ◌<◌, ◌≡◌, List, [], ◌∷◌, ◌++◌, ltb, length, drop, set, take, Bool-cases,
  inl, inr, arith, ap, sym, ◌∙◌, length-append, length-take, length-drop, length-set, take-set,
  take-append, take-length, drop-append, drop-drop, map,
}
use mathlib.Core.List.{append_assoc, append-nil}
use rookietop.Top.{memmove}
use rookietop.App.History.{MetricHistory, history_max, history_push, shift}

module _ {A : Type 0} where
  -- The items of an array that are in use.
  unfoldable pub recent : ℕ → List A → List A
  recent count cells = take count cells

  -- The last `history_max` items of a list.
  unfoldable pub last : List A → List A
  last items = drop (length items - history_max) items

  pub record IsHistory (history : MetricHistory A) : Type 0 where
    pub cpu_cells : length history.cpu ≡ history_max
    pub memory_cells : length history.memory ≡ history_max
    pub in_range : history.count ≤ history_max

  recent-set :
      (count : ℕ) (cells : List A) (value : A)
      → count < history_max
      → length cells ≡ history_max
      → recent (count + 1) (set cells count value) ≡ last (recent count cells ++ value ∷ [])
  unfolding recent last
  recent-set count cells value h l =
      let few : length (take count cells ++ value ∷ []) - 90 ≡ 0 =
        omega (arith, length-append (take count cells) (value ∷ []), length-take count cells) in
      let next : count + 1 ≡ suc count = omega arith in
      rw (few, next) (take-set count cells value (omega arith))

  shift-last :
      (m : ℕ) (cells : List A) (value : A)
      → length cells ≡ suc m
      → take (suc m) (set (memmove 0 1 m cells) m value) ≡ drop 1 (take (suc m) cells ++ value ∷ [])
  unfolding memmove
  shift-last m [] value l = absurd (omega arith)
  shift-last m (c ∷ cells) value l =
      let same : take m cells ≡ cells = take-length m cells (omega arith) in
      let kept : length (drop m (c ∷ cells)) ≡ 1 = omega (arith, length-drop m (c ∷ cells)) in
      let roomy : m < length (take m cells ++ drop m (c ∷ cells)) =
        omega (arith, length-append (take m cells) (drop m (c ∷ cells)), length-take m cells) in
      let zero_add : 0 + m ≡ m = omega arith in
      rw zero_add (
        take-set m (take m cells ++ drop m (c ∷ cells)) value roomy
        ∙ ap (λ l. l ++ value ∷ [])
            (take-append m cells (drop m (c ∷ cells)) (omega arith) ∙ sym same))

  recent-shift :
      (cells : List A) (value : A)
      → length cells ≡ history_max
      → recent history_max (shift cells value) ≡ last (recent history_max cells ++ value ∷ [])
  unfolding recent last shift
  recent-shift cells value l =
      let over : length (take 90 cells ++ value ∷ []) - 90 ≡ 1 =
        omega (arith, length-append (take 90 cells) (value ∷ []), length-take 90 cells) in
      rw over (shift-last 89 cells value l)

  length-shift :
      (cells : List A) (value : A)
      → length cells ≡ history_max
      → length (shift cells value) ≡ history_max
  unfolding shift memmove
  length-shift cells value l = omega (
    arith,
    length-set (memmove 0 1 89 cells) 89 value,
    length-append (take 89 (drop 1 cells)) (drop 89 cells),
    length-take 89 (drop 1 cells),
    length-drop 1 cells,
    length-drop 89 cells,
  )

  -- history_push keeps the shape of the history.
  pub history_push-IsHistory :
      (history : MetricHistory A) (cpu memory : A)
      → IsHistory history
      → IsHistory (history_push history cpu memory)
  unfolding history_push
  history_push-IsHistory history cpu memory ok = record {
    cpu_cells = ground (
      arith,
      ok.cpu_cells,
      length-set history.cpu history.count cpu,
      length-shift history.cpu cpu ok.cpu_cells,
    );
    memory_cells = ground (
      arith,
      ok.memory_cells,
      length-set history.memory history.count memory,
      length-shift history.memory memory ok.memory_cells,
    );
    in_range = ground (arith, ok.in_range);
  }

  history_push-recent :
      (history : MetricHistory A) (cpu memory : A)
      → IsHistory history
      → let next = history_push history cpu memory in
        (recent next.count next.cpu ≡ last (recent history.count history.cpu ++ cpu ∷ []))
        × (recent next.count next.memory
            ≡ last (recent history.count history.memory ++ memory ∷ []))
  unfolding history_push
  history_push-recent history cpu memory ok = elim (Bool-cases (ltb history.count history_max)) [
    | inl room ↦ rw room (
      recent-set history.count history.cpu cpu (ground arith) ok.cpu_cells,
      recent-set history.count history.memory memory (ground arith) ok.memory_cells,
    )
    | inr full ↦
        let count : history.count ≡ history_max = ground (arith, ok.in_range) in
        rw (full, count)
          (
            recent-shift history.cpu cpu ok.cpu_cells,
            recent-shift history.memory memory ok.memory_cells,
          )
  ]

  last-append :
      (items : List A) (value : A) → last (last items ++ value ∷ []) ≡ last (items ++ value ∷ [])
  unfolding last
  last-append items value =
      let k = length items - 90 in
      let moved = drop-append k items (value ∷ []) (omega arith) in
      ap (drop (length (drop k items ++ value ∷ []) - 90)) (sym moved)
      ∙ drop-drop (length (drop k items ++ value ∷ []) - 90) k (length (items ++ value ∷ []) - 90)
          (items ++ value ∷ [])
          (omega (
            arith,
            length-append (drop k items) (value ∷ []),
            length-append items (value ∷ []),
            length-drop k items,
          ))

  -- The history after a list of samples, each pushed in turn.
  unfoldable pub history_push_all : List (A × A) → MetricHistory A → MetricHistory A
  history_push_all [] history = history
  history_push_all ((cpu, memory) ∷ rest) history =
      history_push_all rest (history_push history cpu memory)

  -- After any samples, each pushed in turn on a history that holds the last history_max of those
  -- before them, history_push leaves the last history_max of all the samples, oldest first.
  pub history_push_all-recent :
      (samples : List (A × A)) (before_cpu before_memory : List A) (history : MetricHistory A)
      → IsHistory history
      → recent history.count history.cpu ≡ last before_cpu
      → recent history.count history.memory ≡ last before_memory
      → let after = history_push_all samples history in
        IsHistory after
        × (recent after.count after.cpu ≡ last (before_cpu ++ map (λ s. s.0) samples))
        × (recent after.count after.memory ≡ last (before_memory ++ map (λ s. s.1) samples))
  unfolding history_push_all
  history_push_all-recent [] before_cpu before_memory history ok c m =
      rw (append-nil before_cpu, append-nil before_memory) (ok, c, m)
  history_push_all-recent ((cpu, memory) ∷ rest) before_cpu before_memory history ok c m =
      let (next_c, next_m) = history_push-recent history cpu memory ok in
      let (ok', all_c, all_m) =
        history_push_all-recent rest (before_cpu ++ cpu ∷ []) (before_memory ++ memory ∷ [])
          (history_push history cpu memory) (history_push-IsHistory history cpu memory ok)
          (next_c ∙ ap (λ l. last (l ++ cpu ∷ [])) c ∙ last-append before_cpu cpu)
          (next_m ∙ ap (λ l. last (l ++ memory ∷ [])) m ∙ last-append before_memory memory) in
      (
        ok',
        all_c ∙ ap last (append_assoc before_cpu (cpu ∷ []) (map (λ s. s.0) rest)),
        all_m ∙ ap last (append_assoc before_memory (memory ∷ []) (map (λ s. s.1) rest)),
      )
