-- ===== src/Gateway/Sharing.antt =====
-- The share of a domain's requests that its canary serves.
use conexus.Prelude.{
  ℕ, zero, suc, ◌+◌, ◌≤◌, ◌≡◌, Bool, true, false, Option, none, some, ◌&&◌, if◌then◌else◌,
}
use conexus.Text.{Text, text_eq}
use conexus.Models.{Activation, Db}
use conexus.Profiles.{active_row, canary_row}
use conexus.Gateway.Association.{Association, resolve_adapter_profile_association}

-- The number of the buckets below `n` that meet a condition.
abbrev pub count_below : ℕ → (ℕ → Bool) → ℕ
count_below zero p = 0
count_below (suc n) p = (if p n then 1 else 0) + count_below n p

abbrev same_text : Option Text → Text → Bool
same_text none t = false
same_text (some s) t = text_eq s t

-- The request is tagged with this gateway profile and this adaptation mode.
abbrev pub is_tagged : Text → Text → Option Association → Bool
is_tagged gateway_profile_id mode none = false
is_tagged gateway_profile_id mode (some w) =
    same_text w.gateway_profile_id gateway_profile_id && same_text w.adaptation_mode mode

module _ (domain : Text) (db : Db) (a c : Activation) (p : ℕ) (at_a : active_row domain db ≡ some a)
    (at_c : canary_row domain db ≡ some c) (percent : c.canary_percent ≡ some p) (low : 1 ≤ p)
    (high : p ≤ 50) where
  abbrev served : ℕ → Option Association
  served bucket = resolve_adapter_profile_association true bucket (some domain) none db
