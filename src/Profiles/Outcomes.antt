-- ===== src/Profiles/Outcomes.antt =====
-- The outcome of one request that changes the activations: an answer keeps the ids apart and clears
-- the canaries, and no exception is a conflict.
use conexus.Prelude.{
  List, sum_by-append, ℕ, ◌≡◌, refl, ◌∙◌, sym, Option, Option-cases, Bool-cases, inl, inr, ◌⊎◌,
  none, some, arith, [], ◌∷◌, ◌++◌,
}
use conexus.Text.{Text, codes, text_eq}
use conexus.Clock.{DateTime}
use conexus.Http.{Http, response, exception}
use conexus.Table.{find_row, find_where, update_row}
use conexus.Table.Keys.{Distinct, update_row-Distinct, append-Distinct}
use conexus.Table.Latest.{indicator, count-latest_where}
use conexus.Models.{AdapterProfile, Activation, canary, active, Db}
use conexus.Profiles.{
  ActivationResponse, get_profile_or_404, active_row, canary_row, conflict, has_status,
  new_activation, set_canary, by_gateway, canary_over, activate_canary, canary_response, with_entry,
}
use conexus.Profiles.Promotion.{
  end_canary, retire_canary, end_canaries, retire_canaries, retire_active, rolled, promote_from,
  promote, rollback_from, rollback, truthy, active_response,
}
use conexus.Profiles.Rows.{rows_of, IsUnique}
use conexus.Profiles.Promoting.{
  adds_row, promote_over_lem, promoted_db, promoted_row, restored_row, promoted_rows-Distinct,
  restored_db, restored_rows-Distinct, rollback_to_lem,
}

-- A request to one of the endpoints that change the activations.
pub data ActivationRequest : Type 0 where
  activate_request : Text → ℕ → Option Text → ActivationRequest
  promote_request rollback_request : Text → ActivationRequest

-- The endpoint of a request, with the time and the id of a new row.
abbrev pub serve : DateTime → ℕ → ActivationRequest → Db → Http (ActivationResponse × Db)
serve now id (activate_request g percent metadata) db = activate_canary now id g percent metadata db
serve now id (promote_request g) db = promote now id g db
serve now id (rollback_request g) db = rollback now id g db

-- An answer is about a canary, or changes nothing, or leaves the domain without a canary.
abbrev pub ClearsCanaries : Db → ActivationResponse → Db → Type 0
ClearsCanaries db answer db' =
    (answer.status ≡ canary) ⊎ (db' ≡ db) ⊎ (rows_of answer.domain_key canary db'.activations ≡ 0)

end_canary-clears :
    (now : DateTime) (domain g : Text) (rows : List Activation)
    → rows_of domain canary (end_canaries now domain g rows) ≡ 0
unfolding end_canary has_status
end_canary-clears now domain g [] = refl
end_canary-clears now domain g (r ∷ rows) = ground (arith, end_canary-clears now domain g rows)

retire_canary-clears :
    (domain : Text) (rows : List Activation)
    → rows_of domain canary (retire_canaries domain rows) ≡ 0
unfolding retire_canary has_status
retire_canary-clears domain [] = refl
retire_canary-clears domain (r ∷ rows) = ground (arith, retire_canary-clears domain rows)

-- An active row that is added is no canary.
append-clears :
    (domain : Text) (rows : List Activation) (row : Activation)
    → row.status ≡ active
    → rows_of domain canary rows ≡ 0
    → rows_of domain canary (rows ++ row ∷ []) ≡ 0
unfolding has_status
append-clears domain rows row is_active none_there = ground (
  arith,
  sum_by-append (indicator (has_status domain canary)) rows (row ∷ []),
  is_active,
  none_there,
)

abbrev pub IsFine : Db → Http (ActivationResponse × Db) → Type 0
IsFine db m =
    ((answer : ActivationResponse) × (db' : Db) × (m ≡ response (answer, db'))
      × Distinct Activation.id db'.activations
      × ClearsCanaries db answer db')
    ⊎ ((code : ℕ) × (detail : Text) × (m ≡ exception code detail) × ¬ (m ≡ exception 409 conflict))

profile_cases :
    (g : Text) (db : Db)
    → ((profile : AdapterProfile) × (get_profile_or_404 g db ≡ response profile))
      ⊎ (get_profile_or_404 g db ≡ exception 404 (codes "gateway profile not found"))
unfolding get_profile_or_404
profile_cases g db = elim (Option-cases (find_where (by_gateway g) db.profiles)) [
  | inl missing ↦ inr (rw (get_profile_or_404, missing) refl)
  | inr (row, found) ↦ inl (row, rw (get_profile_or_404, found) refl)
]

-- An exception that is no conflict.
other_exception :
    (db : Db) (m : Http (ActivationResponse × Db)) (code : ℕ) (detail : Text)
    → m ≡ exception code detail
    → ¬ (◌≡◌ {A = Http (ActivationResponse × Db)} (exception code detail) (exception 409 conflict))
    → IsFine db m
other_exception db m code detail is differs =
    inr (code, detail, is, λ clash. differs (sym is ∙ clash))

module _ (now : DateTime) (id : ℕ) (db : Db) (unique : IsUnique db.activations)
    (distinct : Distinct Activation.id db.activations)
    (fresh : find_row Activation.id id db.activations ≡ none) where
  promote-IsFine :
      (domain g : Text) (o : Option Activation)
      → active_row domain db ≡ o
      → IsFine db (promote_from now id domain g o db)
  unfolding promote_from
  promote-IsFine domain g none e = inl (
    active_response domain g none,
    promoted_db now id domain g none db,
    (promote_over_lem now id domain g none db (unique domain).0 distinct e).0,
    promoted_rows-Distinct now id domain g none db distinct fresh,
    inr (
        inr (
          append-clears domain _ (promoted_row now id domain g none db) refl
            (end_canary-clears now domain g db.activations))),
  )
  promote-IsFine domain g (some a) e = elim (Bool-cases (text_eq a.gateway_profile_id g)) [
    | inl same ↦ inl (
      active_response domain g a.previous_gateway_profile_id,
      db,
      rw same refl,
      distinct,
      inr (inl refl),
    )
    | inr other ↦ inl (
      active_response domain g (some a.gateway_profile_id),
      promoted_db now id domain g (some a) db,
      rw other (promote_over_lem now id domain g (some a) db (unique domain).0 distinct e).0,
      promoted_rows-Distinct now id domain g (some a) db distinct fresh,
      inr (
          inr (
            append-clears domain _ (promoted_row now id domain g (some a) db) refl
              (end_canary-clears now domain g (retire_active (some a) db.activations)))),
    )
  ]

  rollback-IsFine :
      (domain g : Text) (o : Option Activation)
      → active_row domain db ≡ o
      → IsFine db (rollback_from now id domain g o db)
  unfolding rollback_from
  rollback-IsFine domain g none e =
      other_exception db _ 404 (codes "active profile not found") refl (λ clash. ground arith)
  rollback-IsFine domain g (some a) e = elim (Bool-cases (text_eq a.gateway_profile_id g)) [
    | inl same ↦ elim (Option-cases (truthy a.previous_gateway_profile_id)) [
      | inl nothing ↦
          other_exception db _ 409 (codes "no previous profile to roll back to")
            (rw (same, nothing) refl) (λ clash. ground arith)
      | inr (previous, there) ↦ inl (
        active_response domain previous none,
        restored_db now id domain g a previous db,
        rw (same, there)
            (rollback_to_lem now id domain g a previous db (unique domain).0 distinct e).0,
        restored_rows-Distinct now id domain g a previous db distinct fresh,
        inr (
            inr (
              append-clears domain _ (restored_row now id domain g a previous db) refl (
                retire_canary-clears domain
                  (update_row Activation.id a.id (rolled now) db.activations)))),
      )
    ]
    | inr other ↦
        other_exception db _ 404 (codes "active profile not found") (rw other refl)
          (λ clash. ground arith)
  ]

  canary-IsFine :
      (domain g : Text) (percent : ℕ) (metadata : Option Text) (o : Option Activation)
      → canary_row domain db ≡ o
      → IsFine db (canary_over now id domain g percent metadata o db)
  unfolding canary_over canary_row has_status
  canary-IsFine domain g percent metadata none e =
      let row : Activation = record (new_activation id now domain g canary (some percent) none) {
        metadata_json = metadata;
      } in
      let zero =
        count-latest_where Activation.created_at (has_status domain canary) db.activations e in
      inl (
        canary_response domain g percent,
        with_entry (codes "gateway.adapter_profile.canary_activated") g (db.activations ++ row ∷ [])
            db,
        rw (adds_row row db.activations zero) refl,
        append-Distinct Activation.id db.activations row fresh distinct,
        inl refl,
      )
  canary-IsFine domain g percent metadata (some c) e =
      elim (Bool-cases (text_eq c.gateway_profile_id g)) [
        | inl same ↦ inl (
          canary_response domain g percent,
          with_entry (codes "gateway.adapter_profile.canary_activated") g
              (update_row Activation.id c.id (set_canary now percent metadata) db.activations) db,
          rw same refl,
          update_row-Distinct Activation.id c.id (set_canary now percent metadata) db.activations
              (λ r. refl) distinct,
          inl refl,
        )
        | inr other ↦
            other_exception db _ 409 (codes "domain already has a canary profile") (rw other refl)
              (λ clash. ground arith)
      ]

  pub serve-IsFine : (req : ActivationRequest) → IsFine db (serve now id req db)
  unfolding activate_canary promote rollback
  serve-IsFine (activate_request g percent metadata) = elim (profile_cases g db) [
    | inl (profile, known) ↦ rw known (canary-IsFine profile.domain_key g percent metadata _ refl)
    | inr unknown ↦
        other_exception db _ 404 (codes "gateway profile not found") (rw unknown refl)
          (λ clash. ground arith)
  ]
  serve-IsFine (promote_request g) = elim (profile_cases g db) [
    | inl (profile, known) ↦ rw known (promote-IsFine profile.domain_key g _ refl)
    | inr unknown ↦
        other_exception db _ 404 (codes "gateway profile not found") (rw unknown refl)
          (λ clash. ground arith)
  ]
  serve-IsFine (rollback_request g) = elim (profile_cases g db) [
    | inl (profile, known) ↦ rw known (rollback-IsFine profile.domain_key g _ refl)
    | inr unknown ↦
        other_exception db _ 404 (codes "gateway profile not found") (rw unknown refl)
          (λ clash. ground arith)
  ]
