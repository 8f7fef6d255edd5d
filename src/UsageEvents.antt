-- ===== src/UsageEvents.antt =====
-- backend/app/services/usage_service.py: the usage ledger has at most one event for a request. The
-- metadata column is left out, and so is the branch for a concurrent insert, which transactions that
-- run one after another do not reach.
use conexus.Prelude.{
  ℕ, ◌+◌, ◌≡◌, Option, none, some, List, [], ◌∷◌, ◌++◌, arith, ==_refl, Option-cases, inl, inr,
}
use conexus.Text.{Text}
use conexus.Table.{find_row}
use conexus.Table.Laws.{find_row-append}
use conexus.Table.Keys.{Distinct, append-Distinct}
use conexus.Models.{GatewayRequest, UsageEvent, Db}

-- The arguments of `record_usage_event`.
pub record UsageArgs : Type 0 where
  pub provider : Text
  pub model : Text
  pub prompt_tokens : Option ℕ
  pub completion_tokens : Option ℕ
  pub cost_usd : Option ℕ

-- The new row, if the project and the usage are known.
abbrev usage_row :
    GatewayRequest → UsageArgs → Option ℕ → Option ℕ → Option ℕ → Option ℕ → Option UsageEvent
usage_row gr a (some project_id) (some prompt_tokens) (some completion_tokens) (some cost_usd) =
    some (record {
      gateway_request_id = gr.request_id;
      project_id = project_id;
      provider = a.provider;
      model = a.model;
      requested_model = gr.requested_model;
      prompt_tokens = prompt_tokens;
      completion_tokens = completion_tokens;
      total_tokens = prompt_tokens + completion_tokens;
      cost_usd = cost_usd;
    })
usage_row gr a _ _ _ _ = none

unfoldable pub new_event : GatewayRequest → UsageArgs → Option UsageEvent
new_event gr a = usage_row gr a gr.project_id a.prompt_tokens a.completion_tokens a.cost_usd

unfoldable pub record_usage_event : GatewayRequest → UsageArgs → Db → Option UsageEvent × Db
record_usage_event gr a db = elim (find_row UsageEvent.gateway_request_id gr.request_id db.events) [
  | some existing ↦ (some existing, db)
  | none ↦ elim (new_event gr a) [
    | none ↦ (none, db)
    | some row ↦ (some row, record db { events = db.events ++ row ∷ [] })
  ]
]

new_event-id :
    (gr : GatewayRequest) (a : UsageArgs) (e : UsageEvent)
    → new_event gr a ≡ some e
    → e.gateway_request_id ≡ gr.request_id
unfolding new_event
new_event-id gr a e h = ground arith

record_of_found :
    (gr : GatewayRequest) (a : UsageArgs) (db : Db) (e : UsageEvent)
    → find_row UsageEvent.gateway_request_id gr.request_id db.events ≡ some e
    → record_usage_event gr a db ≡ (some e, db)
unfolding record_usage_event
record_of_found gr a db e found = ground arith

find_row-append_event :
    (id : ℕ) (events : List UsageEvent) (row : UsageEvent)
    → row.gateway_request_id ≡ id
    → find_row UsageEvent.gateway_request_id id events ≡ none
    → find_row UsageEvent.gateway_request_id id (events ++ row ∷ []) ≡ some row
unfolding find_row
find_row-append_event id events row same missing =
    ground (arith, find_row-append UsageEvent.gateway_request_id id events (row ∷ []), ==_refl id)

-- `record_usage_event` keeps at most one event for each request, and once it has returned an event
-- for a request, a later call for that request returns the same event, whatever usage it reports,
-- and changes nothing.
pub usage_event_once :
    (gr : GatewayRequest) (a a' : UsageArgs) (db db' : Db) (e : UsageEvent)
    → Distinct UsageEvent.gateway_request_id db.events
    → record_usage_event gr a db ≡ (some e, db')
    → Distinct UsageEvent.gateway_request_id db'.events
      × (record_usage_event gr a' db' ≡ (some e, db'))
unfolding record_usage_event
usage_event_once gr a a' db db' e distinct h =
    elim (Option-cases (find_row UsageEvent.gateway_request_id gr.request_id db.events)) [
      | inr (existing, found) ↦
          let same_db : db' ≡ db = ground arith in
          let same : e ≡ existing = ground arith in
          rw (same_db, same) (distinct, record_of_found gr a' db existing found)
      | inl missing ↦ elim (Option-cases (new_event gr a)) [
        | inl incomplete ↦ absurd (ground arith)
        | inr (row, made) ↦
            let next : Db = record db { events = db.events ++ row ∷ [] } in
            let same_db : db' ≡ next = ground arith in
            let same : e ≡ row = ground arith in
            let id = new_event-id gr a row made in
            rw (same_db, same)
              (
                append-Distinct UsageEvent.gateway_request_id db.events row (rw id missing)
                    distinct,
                record_of_found gr a' next row
                    (find_row-append_event gr.request_id db.events row id missing),
              )
      ]
    ]
