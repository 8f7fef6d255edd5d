-- ===== src/Profiles/Unique.antt =====
-- No endpoint gives a domain a second active profile or a second canary.
use conexus.Prelude.{ℕ, ◌≡◌, Option-cases, inl, inr, Option, none, some, arith}
use conexus.Text.{Text}
use conexus.Clock.{DateTime}
use conexus.Http.{response, response_steps}
use conexus.Models.{AdapterProfile, Activation, Db}
use conexus.Profiles.{
  set_canary, ActivationResponse, activate_canary, get_profile_or_404, canary_over,
}
use conexus.Profiles.Promotion.{
  rolled, promote_over, promote, rollback_to, rollback, promote_from, rollback_from, truthy,
}
use conexus.Profiles.Rows.{
  IsUnique, add_activation-IsUnique, update_row-IsUnique, rolled-Leaves, set_canary-Leaves,
  retire_active-IsUnique, end_canaries-IsUnique, retire_canaries-IsUnique,
}

pub promote_over-IsUnique :
    (now : DateTime) (id : ℕ) (domain g : Text) (o : Option Activation) (db db' : Db)
    (answer : ActivationResponse)
    → IsUnique db.activations
    → promote_over now id domain g o db ≡ response (answer, db')
    → IsUnique db'.activations
unfolding promote_over
promote_over-IsUnique now id domain g o db db' answer unique h =
    let steps = response_steps _ _ _ h in
    let kept =
      add_activation-IsUnique _ _ steps.0
        (end_canaries-IsUnique now domain g _ (retire_active-IsUnique o db.activations unique))
        steps.1 in
    ground (arith, kept, steps.2)

promote_from-IsUnique :
    (now : DateTime) (id : ℕ) (domain g : Text) (o : Option Activation) (db db' : Db)
    (answer : ActivationResponse)
    → IsUnique db.activations
    → promote_from now id domain g o db ≡ response (answer, db')
    → IsUnique db'.activations
unfolding promote_from
promote_from-IsUnique now id domain g none db db' answer unique h =
    promote_over-IsUnique now id domain g none db db' answer unique h
promote_from-IsUnique now id domain g (some a) db db' answer unique h =
    ground (arith, unique, promote_over-IsUnique now id domain g (some a) db db' answer unique)

rollback_to-IsUnique :
    (now : DateTime) (id : ℕ) (domain g : Text) (a : Activation) (previous : Text) (db db' : Db)
    (answer : ActivationResponse)
    → IsUnique db.activations
    → rollback_to now id domain g a previous db ≡ response (answer, db')
    → IsUnique db'.activations
unfolding rollback_to
rollback_to-IsUnique now id domain g a previous db db' answer unique h =
    let steps = response_steps _ _ _ h in
    let kept =
      add_activation-IsUnique _ _ steps.0
        (retire_canaries-IsUnique domain _
          (update_row-IsUnique a.id (rolled now) db.activations (rolled-Leaves now) unique))
        steps.1 in
    ground (arith, kept, steps.2)

rollback_from-IsUnique :
    (now : DateTime) (id : ℕ) (domain g : Text) (o : Option Activation) (db db' : Db)
    (answer : ActivationResponse)
    → IsUnique db.activations
    → rollback_from now id domain g o db ≡ response (answer, db')
    → IsUnique db'.activations
unfolding rollback_from
rollback_from-IsUnique now id domain g none db db' answer unique h = ground arith
rollback_from-IsUnique now id domain g (some a) db db' answer unique h =
    elim (Option-cases (truthy a.previous_gateway_profile_id)) [
      | inl e ↦ ground arith
      | inr (previous, e) ↦
          ground (arith, rollback_to-IsUnique now id domain g a previous db db' answer unique)
    ]

canary_over-IsUnique :
    (now : DateTime) (id : ℕ) (domain g : Text) (percent : ℕ) (metadata : Option Text)
    (o : Option Activation) (db db' : Db) (answer : ActivationResponse)
    → IsUnique db.activations
    → canary_over now id domain g percent metadata o db ≡ response (answer, db')
    → IsUnique db'.activations
unfolding canary_over
canary_over-IsUnique now id domain g percent metadata none db db' answer unique h =
    let steps = response_steps _ _ _ h in
    let kept = add_activation-IsUnique _ _ steps.0 unique steps.1 in ground (arith, kept, steps.2)
canary_over-IsUnique now id domain g percent metadata (some c) db db' answer unique h =
    let kept =
      update_row-IsUnique c.id (set_canary now percent metadata) db.activations
        (set_canary-Leaves now percent metadata) unique in
    ground (arith, kept)

-- The endpoints that change the activations, each with its answer.
pub data Change : Db → Db → Type 0 where
  activated_canary :
      (now : DateTime) (id : ℕ) (g : Text) (percent : ℕ) (metadata : Option Text) (db db' : Db)
      (answer : ActivationResponse)
      → activate_canary now id g percent metadata db ≡ response (answer, db')
      → Change db db'
  promoted_profile :
      (now : DateTime) (id : ℕ) (g : Text) (db db' : Db) (answer : ActivationResponse)
      → promote now id g db ≡ response (answer, db')
      → Change db db'
  rolled_profile :
      (now : DateTime) (id : ℕ) (g : Text) (db db' : Db) (answer : ActivationResponse)
      → rollback now id g db ≡ response (answer, db')
      → Change db db'

pub Change-IsUnique :
    (db db' : Db) → IsUnique db.activations → Change db db' → IsUnique db'.activations
unfolding promote rollback activate_canary
Change-IsUnique _ _ unique (activated_canary now id g percent metadata db db' answer h) =
    let steps = response_steps {A = AdapterProfile} (get_profile_or_404 g db) _ _ h in
    canary_over-IsUnique now id _ g percent metadata _ db db' _ unique steps.2
Change-IsUnique _ _ unique (promoted_profile now id g db db' answer h) =
    let steps = response_steps {A = AdapterProfile} (get_profile_or_404 g db) _ _ h in
    promote_from-IsUnique now id _ g _ db db' _ unique steps.2
Change-IsUnique _ _ unique (rolled_profile now id g db db' answer h) =
    let steps = response_steps {A = AdapterProfile} (get_profile_or_404 g db) _ _ h in
    rollback_from-IsUnique now id _ g _ db db' _ unique steps.2
