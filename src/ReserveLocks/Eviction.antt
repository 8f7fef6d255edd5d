-- ===== src/ReserveLocks/Eviction.antt =====
-- When the table makes room, and when it never does.
use conexus.Prelude.{
  ℕ, zero, suc, ◌+◌, ◌≤◌, ◌≡◌, ◌⊎◌, Bool, true, false, none, some, [], ◌∷◌, ◌++◌, length, leb,
  length-append, refl, arith, All, All-append, Bool-cases, Option-cases, inl, inr, is_some, ◌<◌,
}
use conexus.ReserveLocks.{
  Locks, get_lock, remove_lock, evict_free, rotate, make_room, project_reserve_lock,
}

abbrev pub AllHeld : Locks → Type 0
AllHeld = All (λ lock. lock.1 ≡ true)

evict_free-held : (ls : Locks) → AllHeld ls → evict_free ls ≡ none
unfolding evict_free
evict_free-held [] h = ground arith
evict_free-held ((j, held) ∷ rest) h = ground (arith, h.0, evict_free-held rest h.1)

length-rotate_held : (ls : Locks) → AllHeld ls → length (rotate ls) ≡ length ls
unfolding rotate
length-rotate_held [] h = ground arith
length-rotate_held ((j, held) ∷ rest) h = ground (arith, h.0, length-append rest ((j, held) ∷ []))

rotate-AllHeld : (ls : Locks) → AllHeld ls → AllHeld (rotate ls)
unfolding rotate
rotate-AllHeld [] h = tt
rotate-AllHeld ((j, held) ∷ rest) h =
    rw h.0 (All-append (λ lock. lock.1 ≡ true) rest ((j, true) ∷ []) h.1 (refl, tt))

-- At the cap with every lock held, the loop that makes room runs out of any fuel: it never ends.
make_room_stuck :
    (fuel max_entries : ℕ) (ls : Locks)
    → AllHeld ls
    → max_entries ≤ length ls
    → make_room fuel max_entries ls ≡ none
unfolding make_room
make_room_stuck zero max_entries ls held full = ground arith
make_room_stuck (suc fuel) max_entries ls held full = ground (
  arith,
  evict_free-held ls held,
  make_room_stuck fuel max_entries (rotate ls) (rotate-AllHeld ls held)
      (omega (arith, length-rotate_held ls held)),
)

length-evict_free : (ls fewer : Locks) → evict_free ls ≡ some fewer → length fewer + 1 ≡ length ls
unfolding evict_free
length-evict_free [] fewer h = ground arith
length-evict_free ((j, false) ∷ rest) fewer h = ground arith
length-evict_free ((j, true) ∷ rest) fewer h = elim (Option-cases (evict_free rest)) [
  | inl none_free ↦ ground arith
  | inr (rest', found) ↦ ground (arith, length-evict_free rest rest' found)
]

length-remove_lock :
    (k : ℕ) (ls : Locks) (held : Bool)
    → get_lock k ls ≡ some held
    → length (remove_lock k ls) + 1 ≡ length ls
unfolding get_lock remove_lock
length-remove_lock k [] held h = ground arith
length-remove_lock k ((j, b) ∷ rest) held h = ground (arith, length-remove_lock k rest held)

-- What lets the loop end.
abbrev pub HasRoom : ℕ → ℕ → Locks → Type 0
HasRoom max_entries k ls =
    (is_some (get_lock k ls) ≡ true) ⊎ (is_some (evict_free ls) ≡ true) ⊎ (length ls < max_entries)

make_room_returns :
    (fuel max_entries : ℕ) (ls : Locks)
    → 1 ≤ max_entries
    → length ls ≤ max_entries
    → (is_some (evict_free ls) ≡ true) ⊎ (length ls < max_entries)
    → (room : Locks) × (make_room (suc (suc fuel)) max_entries ls ≡ some room)
      × (length room < max_entries)
unfolding make_room
make_room_returns fuel max_entries ls positive bounded h =
    elim (Bool-cases (leb max_entries (length ls))) [
      | inr below ↦ (ls, rw below refl, ground arith)
      | inl full ↦ elim (Option-cases (evict_free ls)) [
        | inl all_held ↦ absurd (ground arith)
        | inr (fewer, evicted) ↦
            let shorter = length-evict_free ls fewer evicted in
            (fewer, ground (arith, shorter), omega (arith, shorter))
      ]
    ]

-- Within the cap, if the project's lock is there, or some lock is not held, or there is space, then
-- `_project_reserve_lock` returns after at most two rounds of its loop and the table stays within the
-- cap.
pub reserve_lock_returns :
    (fuel max_entries k : ℕ) (ls : Locks)
    → 1 ≤ max_entries
    → length ls ≤ max_entries
    → HasRoom max_entries k ls
    → (ls' : Locks) × (project_reserve_lock (suc (suc fuel)) max_entries k ls ≡ some ls')
      × (length ls' ≤ max_entries)
unfolding project_reserve_lock
reserve_lock_returns fuel max_entries k ls positive bounded h =
    elim (Option-cases (get_lock k ls)) [
      | inr (held, there) ↦
          let moved = remove_lock k ls ++ (k, held) ∷ [] in
          (
            moved,
            ground arith,
            omega (
              arith,
              length-remove_lock k ls held there,
              length-append (remove_lock k ls) ((k, held) ∷ []),
            ),
          )
      | inl absent ↦
          let (room, made, fits) =
            make_room_returns fuel max_entries ls positive bounded (ground (arith, h)) in
          (
            room ++ (k, false) ∷ [],
            ground arith,
            omega (arith, fits, length-append room ((k, false) ∷ [])),
          )
    ]

-- At the cap with every lock held, `_project_reserve_lock` does not return for a project without a
-- lock, whatever the fuel: its loop never ends.
pub reserve_lock_never_returns :
    (fuel max_entries k : ℕ) (ls : Locks)
    → AllHeld ls
    → max_entries ≤ length ls
    → get_lock k ls ≡ none
    → project_reserve_lock fuel max_entries k ls ≡ none
unfolding project_reserve_lock
reserve_lock_never_returns fuel max_entries k ls held full absent =
    ground (arith, make_room_stuck fuel max_entries ls held full)
