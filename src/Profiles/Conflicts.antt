-- ===== src/Profiles/Conflicts.antt =====
-- The unique indexes of the activation table against the endpoints: they retire the rows that stand in
-- the way before they add one, so a flush finds no conflict.
use conexus.Prelude.{ap, ℕ, ◌≡◌, ◌∙◌, sym, inl, inr, none}
use conexus.Clock.{DateTime}
use conexus.Http.{Http, response, exception, response_inj, exception-not_response}
use conexus.Table.{find_row}
use conexus.Table.Keys.{Distinct}
use conexus.Models.{Activation, Db}
use conexus.Profiles.{ActivationResponse, conflict}
use conexus.Profiles.Rows.{IsUnique}
use conexus.Profiles.Unique.{
  Change, activated_canary, promoted_profile, rolled_profile, Change-IsUnique,
}
use conexus.Profiles.Outcomes.{
  ActivationRequest, activate_request, promote_request, rollback_request, serve, IsFine,
  ClearsCanaries, serve-IsFine,
}

-- A table that the endpoints leave in order: one active row and one canary of a domain at most, and
-- ids that differ.
pub record IsSound (db : Db) : Type 0 where
  pub unique : IsUnique db.activations
  pub distinct : Distinct Activation.id db.activations

-- Requests that were answered one after the other, each with a new id for the row it may add.
pub data Served : Db → Db → Type 0 where
  unserved : {db : Db} → Served db db
  served :
      {db db' db'' : Db}
      → Served db db'
      → (now : DateTime) (id : ℕ) (req : ActivationRequest) (answer : ActivationResponse)
      → find_row Activation.id id db'.activations ≡ none
      → serve now id req db' ≡ response (answer, db'')
      → Served db db''

changes :
    (now : DateTime) (id : ℕ) (req : ActivationRequest) (db db' : Db) (answer : ActivationResponse)
    → serve now id req db ≡ response (answer, db')
    → Change db db'
changes now id (activate_request g percent metadata) db db' answer h =
    activated_canary now id g percent metadata db db' answer h
changes now id (promote_request g) db db' answer h = promoted_profile now id g db db' answer h
changes now id (rollback_request g) db db' answer h = rolled_profile now id g db db' answer h

-- What a fine answer leaves.
answered_fine :
    (db : Db) (m : Http (ActivationResponse × Db)) (answer : ActivationResponse) (db' : Db)
    → IsFine db m
    → m ≡ response (answer, db')
    → Distinct Activation.id db'.activations × ClearsCanaries db answer db'
answered_fine db m answer db' (inl (answer', found, is, distinct, clears)) h =
    let same = response_inj (sym is ∙ h) in
    let same_db : found ≡ db' = ap (λ (x : ActivationResponse × Db). x.1) same in
    let same_answer : answer' ≡ answer = ap (λ (x : ActivationResponse × Db). x.0) same in
    rw (sym same_db, sym same_answer) (distinct, clears)
answered_fine db m answer db' (inr (code, detail, is, differs)) h =
    absurd (exception-not_response code detail (answer, db') (sym is ∙ h))

Served-IsSound : (db db' : Db) → IsSound db → Served db db' → IsSound db'
Served-IsSound db _ sound unserved = sound
Served-IsSound db _ sound (served {db'} {db''} before now id req answer fresh h) =
    let so_far = Served-IsSound db db' sound before in
    record {
      unique = Change-IsUnique db' db'' so_far.unique (changes now id req db' db'' answer h);
      distinct =
          (answered_fine db' _ answer db''
            (serve-IsFine now id db' so_far.unique so_far.distinct fresh req) h).0;
    }

-- What an outcome says: an answer leaves the domain as `ClearsCanaries` states, and an exception is no
-- conflict.
abbrev pub OutcomeIsRight : Db → Http (ActivationResponse × Db) → Type 0
OutcomeIsRight db (response (answer, db')) = ClearsCanaries db answer db'
OutcomeIsRight db (exception code detail) =
    ¬ (◌≡◌ {A = Http (ActivationResponse × Db)} (exception code detail) (exception 409 conflict))

fine_outcome : (db : Db) (m : Http (ActivationResponse × Db)) → IsFine db m → OutcomeIsRight db m
fine_outcome db m (inl (answer, db', is, distinct, clears)) = rw is clears
fine_outcome db m (inr (code, detail, is, differs)) = rw is (λ clash. differs (is ∙ clash))

-- From a table with one active row and one canary of a domain at most and ids that differ, after any
-- canary activations, promotions and rollbacks that were answered, each with a new id: the table is
-- such a table again, and a further one with a new id is not refused for a violation of the unique
-- indexes; if it is answered, the answer is about a canary, or nothing has changed, or the domain is
-- left without a canary.
pub requests_never_conflict :
    (db db' : Db) (now : DateTime) (id : ℕ) (req : ActivationRequest)
    → IsSound db
    → Served db db'
    → find_row Activation.id id db'.activations ≡ none
    → IsSound db' × OutcomeIsRight db' (serve now id req db')
requests_never_conflict db db' now id req sound before fresh =
    let kept = Served-IsSound db db' sound before in
    (kept, fine_outcome db' _ (serve-IsFine now id db' kept.unique kept.distinct fresh req))
