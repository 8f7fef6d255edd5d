-- ===== src/Reservations/OnWindow.antt =====
-- Which window a row is: the columns of the unique constraint, which no update of counters changes.
use conexus.Prelude.{ℕ, ◌≡◌, true, Option, none, some, List, Bool-cases, ◌==◌, ◌∙◌, inl, inr}
use conexus.Clock.{Window}
use conexus.Table.{find_row, update_row}
use conexus.Table.Laws.{find_row-update_row}
use conexus.Models.{UsageWindow, WindowKind}
use conexus.Reservations.Windows.{is_window, update_optional}

-- Row `id` is the window of the project, the kind and the start.
abbrev pub OnWindow : ℕ → WindowKind → Window → ℕ → List UsageWindow → Type 0
OnWindow project_id kind w id ws =
    (row : UsageWindow) × (find_row UsageWindow.id id ws ≡ some row)
    × (is_window project_id kind w.start row ≡ true)

pub OnWindow-update_row :
    (p : ℕ) (kind : WindowKind) (w : Window) (k id : ℕ) (f : UsageWindow → UsageWindow)
    (ws : List UsageWindow)
    → ((x : UsageWindow) → (f x).id ≡ x.id)
    → ((x : UsageWindow) → is_window p kind w.start (f x) ≡ is_window p kind w.start x)
    → OnWindow p kind w id ws
    → OnWindow p kind w id (update_row UsageWindow.id k f ws)
OnWindow-update_row p kind w k id f ws same keeps (row, found, window) =
    elim (Bool-cases (k == id)) [
      | inl e ↦ (
        f row,
        rw (find_row-update_row UsageWindow.id k id f ws same, e, found),
        keeps row ∙ window,
      )
      | inr e ↦ (row, rw (find_row-update_row UsageWindow.id k id f ws same, e) found, window)
    ]

pub OnWindow-update_optional :
    (p : ℕ) (kind : WindowKind) (w : Window) (o : Option ℕ) (id : ℕ) (f : UsageWindow → UsageWindow)
    (ws : List UsageWindow)
    → ((x : UsageWindow) → (f x).id ≡ x.id)
    → ((x : UsageWindow) → is_window p kind w.start (f x) ≡ is_window p kind w.start x)
    → OnWindow p kind w id ws
    → OnWindow p kind w id (update_optional o f ws)
OnWindow-update_optional p kind w none id f ws same keeps on = on
OnWindow-update_optional p kind w (some k) id f ws same keeps on =
    OnWindow-update_row p kind w k id f ws same keeps on
