-- ===== src/Audit/Redacting.antt =====
-- No value under a redacted key is kept, at any depth, and the depth is bounded.
use conexus.Prelude.{
  if◌then◌else◌, ℕ, suc, ◌+◌, ◌-◌, ◌≤◌, ◌≡◌, refl, Bool, Bool-cases, true, false, ◌&&◌, ◌||◌, not,
  max, ltb, arith, inl, inr,
}
use conexus.Text.{codes, text_eq}
use conexus.Audit.{
  Json, null, boolean, number, text, datetime, other_object, array, object, Items, no_items, item,
  Fields, no_fields, field, is_redact_key, truncated, sanitize_json_value, sanitize_items,
  sanitize_fields,
}

-- The text that replaces a value.
abbrev pub is_placeholder : Json → Bool
is_placeholder (text s) = text_eq s (codes "[redacted]")
is_placeholder _ = false

-- Every value under a redacted key is the placeholder.
unfoldable mutual
  pub is_clean : Json → Bool
  is_clean (array xs) = clean_items xs
  is_clean (object fs) = clean_fields fs
  is_clean _ = true

  pub clean_items : Items → Bool
  clean_items no_items = true
  clean_items (item v xs) = is_clean v && clean_items xs

  pub clean_fields : Fields → Bool
  clean_fields no_fields = true
  clean_fields (field key v fs) =
      (not (is_redact_key key) || is_placeholder v) && is_clean v && clean_fields fs

-- How deep lists and objects are nested.
unfoldable mutual
  pub depth_of : Json → ℕ
  depth_of (array xs) = suc (depth_of_items xs)
  depth_of (object fs) = suc (depth_of_fields fs)
  depth_of _ = 0

  pub depth_of_items : Items → ℕ
  depth_of_items no_items = 0
  depth_of_items (item v xs) = max (depth_of v) (depth_of_items xs)

  pub depth_of_fields : Fields → ℕ
  depth_of_fields no_fields = 0
  depth_of_fields (field key v fs) = max (depth_of v) (depth_of_fields fs)

mutual
  unfolding is_clean sanitize_json_value text_eq

  sanitize_clean : (d : ℕ) (v : Json) → is_clean (sanitize_json_value d v) ≡ true
  sanitize_clean d null = ground arith
  sanitize_clean d (boolean b) = ground arith
  sanitize_clean d (number s) = ground arith
  sanitize_clean d (text s) = ground arith
  sanitize_clean d (datetime s) = ground arith
  sanitize_clean d (other_object s) = ground arith
  sanitize_clean d (array xs) = ground (arith, sanitize_clean_items d 200 xs)
  sanitize_clean d (object fs) = ground (arith, sanitize_clean_fields d fs)

  sanitize_clean_items : (d left : ℕ) (xs : Items) → clean_items (sanitize_items d left xs) ≡ true
  sanitize_clean_items d left no_items = refl
  sanitize_clean_items d left (item v xs) =
      ground (arith, sanitize_clean (suc d) v, sanitize_clean_items d (left - 1) xs)

  sanitize_clean_fields : (d : ℕ) (fs : Fields) → clean_fields (sanitize_fields d fs) ≡ true
  sanitize_clean_fields d no_fields = refl
  sanitize_clean_fields d (field key v fs) = elim (Bool-cases (is_redact_key key)) [
    | inl e ↦ rw e (sanitize_clean_fields d fs)
    | inr e ↦ rw (e, sanitize_clean (suc d) v) (sanitize_clean_fields d fs)
  ]

shallow : (d : ℕ) → ltb 6 d ≡ false → d ≤ 6
shallow d h = ground arith

-- A value below the limit of the depth.
cut_off :
    (d : ℕ) (v : Json)
    → d ≤ 7
    → (ltb 6 d ≡ false → depth_of v + d ≤ 7)
    → depth_of (if ltb 6 d then truncated else v) + d ≤ 7
unfolding depth_of
cut_off d v le h = elim (Bool-cases (ltb 6 d)) [
  | inl e ↦ rw e (omega (arith, le))
  | inr e ↦ rw e (h e)
]

mutual
  unfolding depth_of sanitize_json_value

  sanitize_depth : (d : ℕ) (v : Json) → d ≤ 7 → depth_of (sanitize_json_value d v) + d ≤ 7
  sanitize_depth d null le = cut_off d null le (λ e. omega (arith, le))
  sanitize_depth d (boolean b) le = cut_off d (boolean b) le (λ e. omega (arith, le))
  sanitize_depth d (number s) le = cut_off d (number s) le (λ e. omega (arith, le))
  sanitize_depth d (text s) le = cut_off d (text s) le (λ e. omega (arith, le))
  sanitize_depth d (datetime s) le = cut_off d (text s) le (λ e. omega (arith, le))
  sanitize_depth d (other_object s) le = cut_off d (text s) le (λ e. omega (arith, le))
  sanitize_depth d (array xs) le =
      cut_off d (array (sanitize_items d 200 xs)) le
        (λ e. omega (arith, sanitize_depth_items d 200 xs (shallow d e)))
  sanitize_depth d (object fs) le =
      cut_off d (object (sanitize_fields d fs)) le
        (λ e. omega (arith, sanitize_depth_fields d fs (shallow d e)))

  sanitize_depth_items :
      (d left : ℕ) (xs : Items) → d ≤ 6 → depth_of_items (sanitize_items d left xs) + suc d ≤ 7
  sanitize_depth_items d left no_items le = omega (arith, le)
  sanitize_depth_items d left (item v xs) le =
      ground (
        arith,
        sanitize_depth (suc d) v (omega (arith, le)),
        sanitize_depth_items d (left - 1) xs le,
      )

  sanitize_depth_fields :
      (d : ℕ) (fs : Fields) → d ≤ 6 → depth_of_fields (sanitize_fields d fs) + suc d ≤ 7
  sanitize_depth_fields d no_fields le = omega (arith, le)
  sanitize_depth_fields d (field key v fs) le = elim (Bool-cases (is_redact_key key)) [
    | inl e ↦ rw e (omega (arith, sanitize_depth_fields d fs le))
    | inr e ↦
        rw e (
          omega
            (arith, sanitize_depth (suc d) v (omega (arith, le)), sanitize_depth_fields d fs le))
  ]

-- What `_sanitize_json_value` makes of any metadata has the placeholder under every redacted key, at
-- any depth, and nests lists and objects at most seven deep.
pub sanitized_is_clean :
    (v : Json)
    → (is_clean (sanitize_json_value 0 v) ≡ true) × (depth_of (sanitize_json_value 0 v) ≤ 7)
sanitized_is_clean v = (sanitize_clean 0 v, omega (arith, sanitize_depth 0 v (omega arith)))
