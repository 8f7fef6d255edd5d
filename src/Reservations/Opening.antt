-- ===== src/Reservations/Opening.antt =====
-- Creating a usage window on demand: the first attempt returns the row, and a new row counts nothing.
use conexus.Prelude.{
  ℕ, suc, ◌≡◌, ◌≢◌, refl, Bool, true, none, some, List, [], ◌∷◌, ◌++◌, arith, Option-cases, inl,
  inr, ◌⊎◌, ==_refl,
}
use conexus.Clock.{Window, stamp}
use conexus.Result.{ok}
use conexus.Table.{find_row, find_where}
use conexus.Table.Laws.{find_row-append, holds-find_where}
use conexus.Table.Keys.{Distinct, append-Distinct, find_row-find_where}
use conexus.Models.{WindowKind, daily, monthly, UsageWindow}
use conexus.Reservations.Windows.{is_window, new_window, get_or_create_window}
use conexus.Reservations.Ledger.{counter}

find_where-append_new {ℓ} :
    {A : Type ℓ} (p : A → Bool) (xs : List A) (x : A)
    → find_where p xs ≡ none
    → p x ≡ true
    → find_where p (xs ++ x ∷ []) ≡ some x
unfolding find_where
find_where-append_new p [] x h q = ground arith
find_where-append_new p (y ∷ xs) x h q = ground (arith, find_where-append_new p xs x)

is_window-new :
    (id p : ℕ) (k : WindowKind) (w : Window) → is_window p k w.start (new_window id p k w) ≡ true
is_window-new id p daily w = ground (arith, ==_refl p, ==_refl (stamp w.start))
is_window-new id p monthly w = ground (arith, ==_refl p, ==_refl (stamp w.start))

-- The window of a project, a kind and a start is there after the first attempt: either the row that
-- was there, with the table unchanged, or a new row that was added, all of whose counters are 0.
pub get_or_create_cases :
    (n : ℕ) (draw : ℕ → ℕ) (p : ℕ) (k : WindowKind) (w : Window) (ws : List UsageWindow)
    → ((row : UsageWindow) × (find_where (is_window p k w.start) ws ≡ some row)
        × (get_or_create_window (suc n) draw p k w ws ≡ ok (row, ws)))
      ⊎ (get_or_create_window (suc n) draw p k w ws
          ≡ ok (new_window (draw n) p k w, ws ++ new_window (draw n) p k w ∷ []))
unfolding get_or_create_window
get_or_create_cases n draw p k w ws = elim (Option-cases (find_where (is_window p k w.start) ws)) [
  | inr (row, found) ↦ inl (row, found, rw (found, get_or_create_window))
  | inl missing ↦
      let new = new_window (draw n) p k w in
      inr (
        ground (
          arith,
          missing,
          find_where-append_new (is_window p k w.start) ws new missing
              (is_window-new (draw n) p k w),
        ))
]

find_row-append_new :
    (ws : List UsageWindow) (new : UsageWindow)
    → find_row UsageWindow.id new.id ws ≡ none
    → find_row UsageWindow.id new.id (ws ++ new ∷ []) ≡ some new
unfolding find_row
find_row-append_new ws new fresh =
    ground (arith, find_row-append UsageWindow.id new.id ws (new ∷ []), ==_refl new.id)

-- What the caller gets: the row under its id, and a table that counts as before.
pub record Opened (p : ℕ) (k : WindowKind) (w : Window) (ws : List UsageWindow) (row : UsageWindow)
    (ws' : List UsageWindow) : Type 0 where
  pub there : find_row UsageWindow.id row.id ws' ≡ some row
  pub window : is_window p k w.start row ≡ true
  pub counts :
      (count : UsageWindow → ℕ)
      → ((id : ℕ) → count (new_window id p k w) ≡ 0)
      → (j : ℕ) → counter count j ws' ≡ counter count j ws
  pub distinct : Distinct UsageWindow.id ws'
  pub keeps :
      (j : ℕ) (x : UsageWindow)
      → find_row UsageWindow.id j ws ≡ some x
      → find_row UsageWindow.id j ws' ≡ some x

find_row-append_some :
    (j : ℕ) (ws : List UsageWindow) (new x : UsageWindow)
    → find_row UsageWindow.id j ws ≡ some x
    → find_row UsageWindow.id j (ws ++ new ∷ []) ≡ some x
find_row-append_some j ws new x e = ground (arith, find_row-append UsageWindow.id j ws (new ∷ []))

counter-append_zero :
    (count : UsageWindow → ℕ) (j : ℕ) (ws : List UsageWindow) (new : UsageWindow)
    → count new ≡ 0
    → counter count j (ws ++ new ∷ []) ≡ counter count j ws
unfolding counter find_row
counter-append_zero count j ws new z =
    ground (arith, find_row-append UsageWindow.id j ws (new ∷ []))

pub get_or_create-Opened :
    (n : ℕ) (draw : ℕ → ℕ) (p : ℕ) (k : WindowKind) (w : Window) (ws ws' : List UsageWindow)
    (row : UsageWindow)
    → Distinct UsageWindow.id ws
    → find_row UsageWindow.id (draw n) ws ≡ none
    → get_or_create_window (suc n) draw p k w ws ≡ ok (row, ws')
    → Opened p k w ws row ws'
get_or_create-Opened n draw p k w ws ws' row distinct fresh h =
    elim (get_or_create_cases n draw p k w ws) [
      | inl (row0, found, e) ↦
          let same_row : row ≡ row0 = ground arith in
          let same_ws : ws' ≡ ws = ground arith in
          rw (same_row, same_ws)
            (record {
              there =
                  find_row-find_where UsageWindow.id (is_window p k w.start) ws row0 distinct found;
              window = holds-find_where (is_window p k w.start) ws row0 found;
              counts = λ count z j. refl;
              distinct = distinct;
              keeps = λ j x e. e;
            })
      | inr e ↦
          let new = new_window (draw n) p k w in
          let same_row : row ≡ new = ground arith in
          let same_ws : ws' ≡ ws ++ new ∷ [] = ground arith in
          rw (same_row, same_ws)
            (record {
              there = find_row-append_new ws new fresh;
              window = is_window-new (draw n) p k w;
              counts = λ count z j. counter-append_zero count j ws new (z (draw n));
              distinct = append-Distinct UsageWindow.id ws new fresh distinct;
              keeps = λ j x. find_row-append_some j ws new x;
            })
    ]

-- The source's loop never runs out of attempts.
pub get_or_create_returns :
    (n : ℕ) (draw : ℕ → ℕ) (p : ℕ) (k : WindowKind) (w : Window) (ws : List UsageWindow)
    → (row : UsageWindow) × (ws' : List UsageWindow) × (get_or_create_window (suc n) draw p k w ws
        ≡ ok (row, ws'))
get_or_create_returns n draw p k w ws = elim (get_or_create_cases n draw p k w ws) [
  | inl (row, _, e) ↦ (row, ws, e)
  | inr e ↦ (new_window (draw n) p k w, ws ++ new_window (draw n) p k w ∷ [], e)
]

-- An id that is new, and is not the one drawn, stays new.
pub get_or_create-fresh :
    (n : ℕ) (draw : ℕ → ℕ) (p : ℕ) (k : WindowKind) (w : Window) (ws ws' : List UsageWindow)
    (row : UsageWindow) (j : ℕ)
    → find_row UsageWindow.id j ws ≡ none
    → draw n ≢ j
    → get_or_create_window (suc n) draw p k w ws ≡ ok (row, ws')
    → find_row UsageWindow.id j ws' ≡ none
unfolding find_row
get_or_create-fresh n draw p k w ws ws' row j fresh apart h =
    elim (get_or_create_cases n draw p k w ws) [
      | inl (row0, found, e) ↦ let same_ws : ws' ≡ ws = ground arith in rw same_ws fresh
      | inr e ↦
          let new = new_window (draw n) p k w in
          let same_ws : ws' ≡ ws ++ new ∷ [] = ground arith in
          rw same_ws (ground (arith, find_row-append UsageWindow.id j ws (new ∷ [])))
    ]
