-- ===== src/Text/Decimal.antt =====
-- Python's `str(n)` and `int(s)` in base ten. `int` takes white space around the number and a sign;
-- the underscores that it takes between digits are left out.
use conexus.Prelude.{
  ℕ, zero, suc, ◌+◌, ◌-◌, ◌*◌, ◌/◌, ◌%◌, ◌<◌, ◌≡◌, refl, ℤ, pos, negsuc, Bool, true, false, ◌&&◌,
  Option, none, some, [], ◌∷◌, leb, ltb, ◌==◌, if◌then◌else◌, arith, inl, inr, Bool-cases,
}
use conexus.Text.{Text, strip, lstrip, rstrip, keep_space, is_space, is_blank}
use conexus.Text.Splitting.{lacks}

-- The digits of a number in front of a text.
unfoldable pub digits : ℕ → ℕ → Text → Text
digits zero n t = t
digits (suc fuel) n t =
    let rest = digits fuel (n / 10) ((n % 10 + b'0') ∷ t) in
    if ltb n 10 then (n + b'0') ∷ t else rest

-- `str(n)`: a number has fewer digits than `n + 1`.
unfoldable pub decimal : ℕ → Text
decimal n = digits (suc n) n []

abbrev pub is_digit : ℕ → Bool
is_digit c = leb b'0' c && leb c b'9'

unfoldable pub read_digits : ℕ → Text → Option ℕ
read_digits n [] = some n
read_digits n (c ∷ s) =
    let rest = read_digits (n * 10 + (c - b'0')) s in if is_digit c then rest else none

abbrev pub negated : Option ℕ → Option ℤ
negated none = none
negated (some zero) = some (pos 0)
negated (some (suc n)) = some (negsuc n)

abbrev pub positive : Option ℕ → Option ℤ
positive none = none
positive (some n) = some (pos n)

abbrev pub read_natural : Text → Option ℕ
read_natural [] = none
read_natural (c ∷ s) = read_digits 0 (c ∷ s)

unfoldable pub read_signed : Text → Option ℤ
unfolding read_digits
read_signed [] = none
read_signed (c ∷ s) =
    if c == b'-'
    then negated (read_natural s)
    else if c == b'+'
    then positive (read_natural s)
    else positive (read_natural (c ∷ s))

-- `int(s)`, none for a `ValueError`
unfoldable pub read_int : Text → Option ℤ
unfolding read_signed
read_int s = read_signed (strip s)

-- Only digits, with one at least.
abbrev pub all_digits : Text → Bool
all_digits [] = true
all_digits (c ∷ s) = is_digit c && all_digits s

digits-all : (fuel n : ℕ) (t : Text) → all_digits t ≡ true → all_digits (digits fuel n t) ≡ true
unfolding digits
digits-all zero n t h = h
digits-all (suc fuel) n t h =
    let deeper = digits-all fuel (n / 10) ((n % 10 + b'0') ∷ t) (ground (arith, h)) in
    ground (arith, h, deeper)

read_digits-digits :
    (fuel n : ℕ) (t : Text) → n < fuel → read_digits 0 (digits fuel n t) ≡ read_digits n t
unfolding digits read_digits
read_digits-digits zero n t h = ground (arith, h)
read_digits-digits (suc fuel) n t h = elim (Bool-cases (ltb n 10)) [
  | inl small ↦ ground (arith, small)
  | inr large ↦
      let deeper =
        read_digits-digits fuel (n / 10) ((n % 10 + b'0') ∷ t) (ground (arith, large, h)) in
      let digit : is_digit (n % 10 + b'0') ≡ true = ground arith in
      let whole : n / 10 * 10 + (n % 10 + b'0' - b'0') ≡ n = omega arith in
      rw (large, deeper) (rw (digit, whole) refl)
]

pub lacks-digits : (c : ℕ) (t : Text) → is_digit c ≡ false → all_digits t ≡ true → lacks c t ≡ true
unfolding lacks
lacks-digits c [] h a = refl
lacks-digits c (d ∷ t) h a = ground (arith, h, a, lacks-digits c t)

lstrip-digits : (t : Text) → all_digits t ≡ true → lstrip t ≡ t
unfolding lstrip is_space
lstrip-digits [] h = refl
lstrip-digits (c ∷ t) h = ground (arith, h)

keep_space-digit : (c : ℕ) (t : Text) → is_digit c ≡ true → keep_space c t ≡ c ∷ t
unfolding is_space
keep_space-digit c [] h = ground (arith, h)
keep_space-digit c (d ∷ t) h = refl

rstrip-digits : (t : Text) → all_digits t ≡ true → rstrip t ≡ t
unfolding rstrip is_space
rstrip-digits [] h = refl
rstrip-digits (c ∷ t) h =
    rw (rstrip-digits t (ground (arith, h))) (keep_space-digit c t (ground (arith, h)))

strip-digits : (t : Text) → all_digits t ≡ true → strip t ≡ t
unfolding strip
strip-digits t h = rw (rstrip-digits t h) (lstrip-digits t h)

digits-not_blank : (fuel n : ℕ) (t : Text) → is_blank t ≡ false → is_blank (digits fuel n t) ≡ false
unfolding digits
digits-not_blank zero n t h = h
digits-not_blank (suc fuel) n t h =
    ground (arith, digits-not_blank fuel (n / 10) ((n % 10 + b'0') ∷ t) refl)

decimal-not_blank : (n : ℕ) → is_blank (decimal n) ≡ false
unfolding decimal digits
decimal-not_blank n = ground (arith, digits-not_blank n (n / 10) ((n % 10 + b'0') ∷ []) refl)

read_signed-digits :
    (t : Text)
    → all_digits t ≡ true
    → is_blank t ≡ false
    → read_signed t ≡ positive (read_digits 0 t)
unfolding read_signed
read_signed-digits [] h b = ground (arith, b)
read_signed-digits (c ∷ t) h b = ground (arith, h)

pub all_digits-decimal : (n : ℕ) → all_digits (decimal n) ≡ true
unfolding decimal
all_digits-decimal n = digits-all (suc n) n [] refl

read_digits-decimal : (n : ℕ) → read_digits 0 (decimal n) ≡ some n
unfolding decimal read_digits
read_digits-decimal n = read_digits-digits (suc n) n [] (omega arith)

-- `int(str(n)) == n`
pub read_int-decimal : (n : ℕ) → read_int (decimal n) ≡ some (pos n)
unfolding read_int
read_int-decimal n =
    let all = all_digits-decimal n in
    rw
      (
        strip-digits (decimal n) all,
        read_signed-digits (decimal n) all (decimal-not_blank n),
        read_digits-decimal n,
      )
      refl
