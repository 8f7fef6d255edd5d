-- ===== src/Text/Splitting.antt =====
-- Python's `s.split(c)` for a separator of one character, and its laws.
use conexus.Prelude.{
  ℕ, ◌≡◌, refl, Bool, true, not, ◌&&◌, List, [], ◌∷◌, ◌++◌, arith, ◌==◌, ==_refl, if◌then◌else◌,
}
use conexus.Text.{Text}

abbrev pub cons_head : ℕ → List Text → List Text
cons_head d [] = (d ∷ []) ∷ []
cons_head d (x ∷ xs) = (d ∷ x) ∷ xs

-- `s.split(c)`
unfoldable pub split : ℕ → Text → List Text
split c [] = [] ∷ []
split c (d ∷ s) = let rest = split c s in if d == c then [] ∷ rest else cons_head d rest

-- `c not in s`
unfoldable pub lacks : ℕ → Text → Bool
lacks c [] = true
lacks c (d ∷ s) = not (d == c) && lacks c s

pub split-append : (c : ℕ) (s t : Text) → lacks c s ≡ true → split c (s ++ c ∷ t) ≡ s ∷ split c t
unfolding split lacks
split-append c [] t h = rw (==_refl c) refl
split-append c (d ∷ s) t h = ground (arith, split-append c s t)

pub split-lacks : (c : ℕ) (s : Text) → lacks c s ≡ true → split c s ≡ s ∷ []
unfolding split lacks
split-lacks c [] h = refl
split-lacks c (d ∷ s) h = ground (arith, split-lacks c s)
