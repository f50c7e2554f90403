-- ===== src/App/Lessons.antt =====
-- The lessons that the interactive program shows.
use rookietop.Common.{ℕ, ◌≡◌, some}
use rookietop.Libc.Float.{Float}
use rookietop.ProcessList.{KillAnswer, KillCall}
use rookietop.Teaching.{TeachingTopic, teaching_get}
use rookietop.Teaching.Lessons.{IsTold, teaching_get-IsTold}
use rookietop.App.State.{AppState}
use rookietop.App.Rows.{Qsort}
use rookietop.App.Reachable.{Reaches, Reaches-IsValid}

module _ (f : Float) (qsort : Qsort f) (kill : KillCall → KillAnswer) (own_pid : ℕ) where
  -- In every state that the loop reaches, the lesson and the choice of the menu are lessons that
  -- teaching_get has, with no empty text, so the screens that show them are never given NULL.
  pub Reaches-IsTold :
      {state : AppState f}
      → Reaches f qsort kill own_pid state
      → ((topic : TeachingTopic) × (teaching_get state.lesson ≡ some topic) × IsTold topic)
        × ((topic : TeachingTopic) × (teaching_get state.learn_selected ≡ some topic)
            × IsTold topic)
  Reaches-IsTold {state} reached =
      let parts = (Reaches-IsValid f qsort kill own_pid reached).parts in
      (
        teaching_get-IsTold state.lesson parts.a_lesson,
        teaching_get-IsTold state.learn_selected parts.a_choice,
      )
