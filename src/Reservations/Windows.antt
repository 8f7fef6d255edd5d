-- ===== src/Reservations/Windows.antt =====
-- The usage window rows: creation on demand, and the update of a row.
use conexus.Prelude.{
  ℕ, zero, suc, ◌&&◌, Bool, true, false, Option, none, some, List, [], ◌∷◌, ◌++◌, ◌==◌,
}
use conexus.Clock.{DateTime, Window, stamp}
use conexus.Table.{find_where, update_row}
use conexus.Result.{Result, ok, raise, window_not_allocated}
use conexus.Models.{WindowKind, daily, monthly, UsageWindow}

abbrev pub kind_eq : WindowKind → WindowKind → Bool
kind_eq daily daily = true
kind_eq monthly monthly = true
kind_eq _ _ = false

-- The columns of the unique constraint on usage windows.
abbrev pub is_window : ℕ → WindowKind → DateTime → UsageWindow → Bool
is_window project_id kind start w =
    w.project_id == project_id && kind_eq w.window_kind kind && stamp w.window_start == stamp start

abbrev pub new_window : ℕ → ℕ → WindowKind → Window → UsageWindow
new_window id project_id kind w = record {
  id = id;
  project_id = project_id;
  window_kind = kind;
  window_start = w.start;
  window_end = w.end;
  request_count_reserved = 0;
  request_count_completed = 0;
  token_count_reserved = 0;
  token_count_completed = 0;
  cost_reserved = 0;
  cost_completed = 0;
}

-- `INSERT ... ON CONFLICT DO NOTHING` on the unique columns
unfoldable pub insert_window : UsageWindow → List UsageWindow → List UsageWindow
unfolding find_where
insert_window w ws = elim (find_where (is_window w.project_id w.window_kind w.window_start) ws) [
  | some _ ↦ ws
  | none ↦ ws ++ w ∷ []
]

-- The attempts left come first; the source makes 16.
unfoldable pub get_or_create_window :
    ℕ
    → (ℕ → ℕ)
    → ℕ
    → WindowKind
    → Window
    → List UsageWindow
    → Result (UsageWindow × List UsageWindow)
unfolding insert_window
get_or_create_window zero draw project_id kind w ws = raise window_not_allocated
get_or_create_window (suc attempts) draw project_id kind w ws =
    elim (find_where (is_window project_id kind w.start) ws) [
      | some row ↦ ok (row, ws)
      | none ↦
          let ws' = insert_window (new_window (draw attempts) project_id kind w) ws in
          elim (find_where (is_window project_id kind w.start) ws') [
            | some row ↦ ok (row, ws')
            | none ↦ get_or_create_window attempts draw project_id kind w ws'
          ]
    ]

-- A change of a window that may be absent.
abbrev pub update_optional :
    Option ℕ → (UsageWindow → UsageWindow) → List UsageWindow → List UsageWindow
update_optional none f ws = ws
update_optional (some k) f ws = update_row UsageWindow.id k f ws
