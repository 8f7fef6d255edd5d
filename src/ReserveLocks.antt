-- ===== src/ReserveLocks.antt =====
-- `_project_reserve_lock` of backend/app/services/gateway_setup.py: the table of the locks of the
-- projects, in the order of their last use, with whether each is held.
pub mod Eviction
use conexus.Prelude.{
  ℕ, zero, suc, Bool, true, false, Option, none, some, List, [], ◌∷◌, ◌++◌, length, leb, ◌==◌,
  if◌then◌else◌,
}

abbrev pub Locks : Type 0
Locks = List (ℕ × Bool)

-- `_project_reserve_locks.get(project_id)`
unfoldable pub get_lock : ℕ → Locks → Option Bool
get_lock k [] = none
get_lock k ((j, held) ∷ rest) = if j == k then some held else get_lock k rest

unfoldable pub remove_lock : ℕ → Locks → Locks
remove_lock k [] = []
remove_lock k ((j, held) ∷ rest) = if j == k then rest else (j, held) ∷ remove_lock k rest

-- The `for` loop: the first lock that is not held goes.
unfoldable pub evict_free : Locks → Option Locks
evict_free [] = none
evict_free ((j, held) ∷ rest) =
    let more = evict_free rest in
    if held then elim more [ none ↦ none | some rest' ↦ some ((j, held) ∷ rest') ] else some rest

-- `popitem(last=False)`, and the reinsertion of a lock that is held.
unfoldable pub rotate : Locks → Locks
rotate [] = []
rotate ((j, held) ∷ rest) = if held then rest ++ (j, held) ∷ [] else rest

-- The `while` loop, on fuel; `none` when the fuel runs out.
unfoldable pub make_room : ℕ → ℕ → Locks → Option Locks
unfolding evict_free rotate
make_room zero max_entries ls = none
make_room (suc fuel) max_entries ls =
    let next : Locks = elim (evict_free ls) [ some fewer ↦ fewer | none ↦ rotate ls ] in
    let rest = make_room fuel max_entries next in
    if leb max_entries (length ls) then rest else some ls

unfoldable pub project_reserve_lock : ℕ → ℕ → ℕ → Locks → Option Locks
unfolding get_lock remove_lock make_room
project_reserve_lock fuel max_entries project_id ls = elim (get_lock project_id ls) [
  | some held ↦ some (remove_lock project_id ls ++ (project_id, held) ∷ [])
  | none ↦ elim (make_room fuel max_entries ls) [
    | none ↦ none
    | some room ↦ some (room ++ (project_id, false) ∷ [])
  ]
]
