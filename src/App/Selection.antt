-- ===== src/App/Selection.antt =====
-- What align_selection does to the selection of the process screen.
use rookietop.Common.{
  ℕ, zero, suc, ◌-◌, ◌<◌, ◌≡◌, refl, false, ◌&&◌, List, [], ◌∷◌, none, some, ltb, leb, ◌==◌, length,
  get_elem?, arith, if◌then◌else◌, ◌⊎◌, inl, inr, Option-cases, Bool-cases,
}
use rookietop.Libc.Float.{Float}
use rookietop.ProcessList.{ProcessRow}
use rookietop.App.State.{AppState}
use rookietop.App.Rows.{find_row, select_row, align_selection}

module _ (f : Float) where
  -- The selection names the row that it points to.
  pub record Selects (state : AppState f) (rows : List (ProcessRow f)) (row : ProcessRow f)
      : Type 0 where
    pub inside : state.selected < length rows
    pub cell : get_elem? rows state.selected ≡ some row
    pub same_pid : state.selected_pid ≡ row.pid
    pub same_starttime : state.selected_starttime ≡ row.starttime

  -- No row is the process with this pid and start time.
  pub NoRow : ℕ → ℕ → List (ProcessRow f) → Type 0
  NoRow pid starttime [] = Unit
  NoRow pid starttime (row ∷ rest) =
      ((row.pid == pid && row.starttime == starttime) ≡ false) × NoRow pid starttime rest

  find_row-eq-some :
      (pid starttime : ℕ) (rows : List (ProcessRow f)) (i : ℕ)
      → find_row f pid starttime rows ≡ some i
      → (row : ProcessRow f) × (i < length rows)
        × (get_elem? rows i ≡ some row)
        × (pid ≡ row.pid)
        × (starttime ≡ row.starttime)
  unfolding find_row
  find_row-eq-some pid starttime [] i h = cc
  find_row-eq-some pid starttime (row ∷ rest) zero h =
      (row, omega arith, refl, ground arith, ground arith)
  find_row-eq-some pid starttime (row ∷ rest) (suc i) h =
      let later : find_row f pid starttime rest ≡ some i = ground arith in
      let (found, inside, cell, same_pid, same_starttime) =
        find_row-eq-some pid starttime rest i later in
      (found, omega arith, cell, same_pid, same_starttime)

  find_row-eq-none :
      (pid starttime : ℕ) (rows : List (ProcessRow f))
      → find_row f pid starttime rows ≡ none
      → NoRow pid starttime rows
  unfolding find_row NoRow
  find_row-eq-none pid starttime [] h = tt
  find_row-eq-none pid starttime (row ∷ rest) h =
      (ground arith, find_row-eq-none pid starttime rest (ground arith))

  get_elem?-lt :
      (rows : List (ProcessRow f)) (i : ℕ)
      → i < length rows
      → (row : ProcessRow f) × (get_elem? rows i ≡ some row)
  get_elem?-lt [] i h = absurd (omega arith)
  get_elem?-lt (row ∷ rest) zero h = (row, refl)
  get_elem?-lt (row ∷ rest) (suc i) h = get_elem?-lt rest i (omega arith)

  select_row-Selects :
      (rows : List (ProcessRow f)) (state : AppState f)
      → state.selected < length rows
      → (row : ProcessRow f) × Selects (select_row f state rows) rows row
  unfolding select_row
  select_row-Selects rows state h =
      let (row, cell) = get_elem?-lt rows state.selected h in
      (
        row,
        rw (cell, select_row)
            (record { inside = h; cell = cell; same_pid = refl; same_starttime = refl }),
      )

  -- With a row to show, align_selection leaves a selection inside the rows that names the row it
  -- points to; if a process was selected before, it stays with that process, wherever its row now is,
  -- unless no row is that process.
  pub align_selection-Selects :
      (state : AppState f) (rows : List (ProcessRow f))
      → 0 < length rows
      → let aligned = align_selection f state rows in
        ((row : ProcessRow f) × Selects aligned rows row)
        × ((state.selected_pid ≡ 0)
            ⊎ (((aligned.selected_pid ≡ state.selected_pid)
                  × (aligned.selected_starttime ≡ state.selected_starttime))
                ⊎ NoRow state.selected_pid state.selected_starttime rows))
  unfolding align_selection
  align_selection-Selects state [] h = absurd (omega arith)
  align_selection-Selects state (row ∷ rest) h =
      let rows = row ∷ rest in
      let clamped : AppState f =
        if leb (length rows) state.selected
        then record state { selected = length rows - 1 }
        else state in
      let inside : clamped.selected < length rows = ground arith in
      let chosen = select_row-Selects rows clamped inside in
      elim (Bool-cases (ltb 0 state.selected_pid)) [
        | inr no_pid ↦ rw no_pid (chosen, inl (ground arith))
        | inl positive_pid ↦
            elim (Option-cases (find_row f state.selected_pid state.selected_starttime rows)) [
              | inl e ↦ rw (positive_pid, e) (chosen, inr (inr (find_row-eq-none _ _ rows e)))
              | inr (i, e) ↦
                  let (found, within, cell, same_pid, same_starttime) =
                    find_row-eq-some _ _ rows i e in
                  rw (positive_pid, e)
                    (
                      (
                        found,
                        record {
                          inside = within;
                          cell = cell;
                          same_pid = same_pid;
                          same_starttime = same_starttime;
                        },
                      ),
                      inr (inl (refl, refl)),
                    )
            ]
      ]
