-- ===== src/Profiles/Restoring.antt =====
-- A promotion makes the profile active, and a rollback brings back the one that was.
use conexus.Prelude.{ℕ, ◌≡◌, refl, Option-cases, Bool-cases, false, inl, inr, none, some}
use conexus.Text.{Text, text_eq, is_blank}
use conexus.Text.Laws.{text_eq_refl, text_eq→eq}
use conexus.Clock.{DateTime}
use conexus.Http.{response}
use conexus.Table.{find_row}
use conexus.Table.Keys.{Distinct}
use conexus.Models.{AdapterProfile, Activation, Db}
use conexus.Profiles.{ActivationResponse, get_profile_or_404, active_row}
use conexus.Profiles.Promotion.{promote_from, promote, rollback_from, rollback, active_response}
use conexus.Profiles.Rows.{IsUnique}
use conexus.Profiles.Unique.{promote_over-IsUnique}
use conexus.Profiles.Promoting.{
  promote_over_lem, promoted_db, promoted_row, promoted_rows-Distinct, restored_db, restored_row,
  rollback_to_lem,
}

pub promote_of :
    (now : DateTime) (id : ℕ) (g : Text) (db : Db) (profile : AdapterProfile)
    → get_profile_or_404 g db ≡ response profile
    → promote now id g db
      ≡ promote_from now id profile.domain_key g (active_row profile.domain_key db) db
unfolding promote
promote_of now id g db profile h = rw h refl

pub rollback_of :
    (now : DateTime) (id : ℕ) (g : Text) (db : Db) (profile : AdapterProfile)
    → get_profile_or_404 g db ≡ response profile
    → rollback now id g db
      ≡ rollback_from now id profile.domain_key g (active_row profile.domain_key db) db
unfolding rollback
rollback_of now id g db profile h = rw h refl

-- With one active and one canary row a domain at most and ids that differ, the promotion of a known
-- profile answers, without a conflict, and the profile is then the active one of its domain.
pub promote_makes_active :
    (now : DateTime) (id : ℕ) (g : Text) (db : Db) (profile : AdapterProfile)
    → IsUnique db.activations
    → Distinct Activation.id db.activations
    → get_profile_or_404 g db ≡ response profile
    → (answer : ActivationResponse) × (db' : Db) × (row : Activation) × (promote now id g db
        ≡ response (answer, db'))
      × (active_row profile.domain_key db' ≡ some row)
      × (row.gateway_profile_id ≡ g)
unfolding promote_from
promote_makes_active now id g db profile unique distinct known =
    let domain : Text = profile.domain_key in
    elim (Option-cases (active_row domain db)) [
      | inl e ↦
          let (done, found) =
            promote_over_lem now id domain g none db (unique domain).0 distinct e in
          (
            active_response domain g none,
            promoted_db now id domain g none db,
            promoted_row now id domain g none db,
            rw (promote_of now id g db profile known, e) done,
            found,
            refl,
          )
      | inr (a, e) ↦ elim (Bool-cases (text_eq a.gateway_profile_id g)) [
        | inl same ↦ (
          active_response domain g a.previous_gateway_profile_id,
          db,
          a,
          rw (promote_of now id g db profile known, e, same) refl,
          e,
          text_eq→eq a.gateway_profile_id g same,
        )
        | inr other ↦
            let (done, found) =
              promote_over_lem now id domain g (some a) db (unique domain).0 distinct e in
            (
              active_response domain g (some a.gateway_profile_id),
              promoted_db now id domain g (some a) db,
              promoted_row now id domain g (some a) db,
              rw (promote_of now id g db profile known, e, other) done,
              found,
              refl,
            )
      ]
    ]

-- With one active and one canary row a domain at most and ids that differ, when a known profile is
-- promoted under a new id over another one that is active and has a name, the promotion answers, the
-- rollback that follows answers too, and the profile that was active before is active again.
pub rollback_restores :
    (now later : DateTime) (id id' : ℕ) (g : Text) (db : Db) (profile : AdapterProfile)
    (a : Activation)
    → IsUnique db.activations
    → Distinct Activation.id db.activations
    → find_row Activation.id id db.activations ≡ none
    → get_profile_or_404 g db ≡ response profile
    → active_row profile.domain_key db ≡ some a
    → text_eq a.gateway_profile_id g ≡ false
    → is_blank a.gateway_profile_id ≡ false
    → (answer : ActivationResponse) × (answer' : ActivationResponse) × (db' : Db) × (db'' : Db)
      × (row : Activation) × (promote now id g db ≡ response (answer, db'))
      × (rollback later id' g db' ≡ response (answer', db''))
      × (active_row profile.domain_key db'' ≡ some row)
      × (row.gateway_profile_id ≡ a.gateway_profile_id)
unfolding promote_from rollback_from get_profile_or_404
rollback_restores now later id id' g db profile a unique distinct fresh known e other named =
    let domain : Text = profile.domain_key in
    let (done, found) = promote_over_lem now id domain g (some a) db (unique domain).0 distinct e in
    let promoted = promoted_db now id domain g (some a) db in
    let row = promoted_row now id domain g (some a) db in
    let still = promoted_rows-Distinct now id domain g (some a) db distinct fresh in
    let unique' = promote_over-IsUnique now id domain g (some a) db promoted _ unique done in
    let (done', found') =
      rollback_to_lem later id' domain g row a.gateway_profile_id promoted (unique' domain).0 still
        found in
    (
      active_response domain g (some a.gateway_profile_id),
      active_response domain a.gateway_profile_id none,
      promoted,
      restored_db later id' domain g row a.gateway_profile_id promoted,
      restored_row later id' domain g row a.gateway_profile_id promoted,
      rw (promote_of now id g db profile known, e, other) done,
      rw (rollback_of later id' g promoted profile known, found, text_eq_refl g, named) done',
      found',
      refl,
    )
