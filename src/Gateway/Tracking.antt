-- ===== src/Gateway/Tracking.antt =====
-- The log row and the reservation of a request, through each step of the gateway.
use conexus.Prelude.{
  ◌∙◌, ℕ, ℤ, ◌≡◌, refl, true, Option, none, some, List, [], ◌∷◌, arith, inl, inr, ◌⊎◌, ==_refl,
}
use conexus.Text.{codes}
use conexus.Clock.{DateTime}
use conexus.Result.{ok}
use conexus.Table.{find_row, update_row}
use conexus.Table.Laws.{find_row-update_row, find_row-append}
use conexus.Models.{GatewayRequest, Db}
use conexus.RequestLog.{StartArgs, started, start_request}
use conexus.Reservations.Settlement.{closed, reconcile_gateway_request, end_reservation}
use conexus.Reservations.Ledger.{IsBalanced}
use conexus.Reservations.Balance.{reconcile-IsBalanced}
use conexus.Reservations.Endings.{reconcile_cases}
use conexus.Reservations.Once.{reconcile-closed}
use conexus.Reservations.Linked.{IsLinked, reconcile_total}
use conexus.Gateway.Setup.{reconcile_reservation}

-- The ledger is balanced, and the reservations' windows are there.
pub record IsSound (db : Db) : Type 0 where
  pub balanced : IsBalanced db
  pub linked : IsLinked db

-- The request has a row that names this reservation.
pub record Tracked (request_id : ℕ) (res : Option ℕ) (db : Db) : Type 0 where
  pub sound : IsSound db
  pub row : GatewayRequest
  pub found : find_row GatewayRequest.request_id request_id db.requests ≡ some row
  pub names : row.limit_reservation_id ≡ res

abbrev pub IsEnded : GatewayRequest → Type 0
IsEnded row = (row.status ≡ codes "completed") ⊎ (row.status ≡ codes "failed")

-- The row is completed or failed, and its reservation is not outstanding.
pub record Settled (request_id : ℕ) (res : Option ℕ) (db : Db) : Type 0 where
  pub tracked : Tracked request_id res db
  pub ended : IsEnded tracked.row
  pub released : (id : ℕ) → res ≡ some id → closed id db ≡ true

-- Changes of the log leave the ledger alone.
pub requests-IsSound :
    (db : Db) (rows : List GatewayRequest) → IsSound db → IsSound (record db { requests = rows })
requests-IsSound db rows s = record {
  balanced = record {
    requests = s.balanced.requests;
    tokens = s.balanced.tokens;
    cost = s.balanced.cost;
  };
  linked = s.linked;
}

requests-reconcile :
    (now : DateTime) (id : ℕ) (tokens cost : ℤ) (db db' : Db)
    → reconcile_gateway_request now id tokens cost db ≡ ok db'
    → db'.requests ≡ db.requests
unfolding end_reservation
requests-reconcile now id tokens cost db db' h =
    elim (reconcile_cases now id tokens cost db db' h) [
      | inl (_, same) ↦ rw same refl
      | inr e ↦ rw (e.after) refl
    ]

-- What reconciling leaves.
pub record Reconciled (now : DateTime) (res : Option ℕ) (tokens cost : ℤ) (db : Db) : Type 0 where
  pub after : Db
  pub returns : reconcile_reservation now res tokens cost db ≡ ok after
  pub sound : IsSound after
  pub requests : after.requests ≡ db.requests
  pub released : (id : ℕ) → res ≡ some id → closed id after ≡ true

pub reconciled :
    (now : DateTime) (res : Option ℕ) (tokens cost : ℤ) (db : Db)
    → IsSound db
    → Reconciled now res tokens cost db
unfolding reconcile_reservation
reconciled now none tokens cost db s = record {
  after = db;
  returns = refl;
  sound = s;
  requests = refl;
  released = λ id e. absurd (ground arith);
}
reconciled now (some id) tokens cost db s =
    let (after, returns, linked) = reconcile_total now id tokens cost db s.linked in
    record {
      after = after;
      returns = returns;
      sound = record {
        balanced = reconcile-IsBalanced now id tokens cost db after s.balanced returns;
        linked = linked;
      };
      requests = requests-reconcile now id tokens cost db after returns;
      released = λ k e.
          let same : k ≡ id = ground arith in
          rw same (reconcile-closed now id tokens cost db after returns);
    }

-- A new row is tracked, and started.
pub start_request-Tracked :
    (now : DateTime) (a : StartArgs) (db : Db)
    → find_row GatewayRequest.request_id a.request_id db.requests ≡ none
    → IsSound db
    → (t : Tracked a.request_id a.limit_reservation_id (start_request now a db)) × (t.row.status
        ≡ codes "started")
unfolding start_request find_row
start_request-Tracked now a db fresh s = (
  record {
    sound = requests-IsSound db (start_request now a db).requests s;
    row = started now a;
    found = ground (
      arith,
      fresh,
      ==_refl a.request_id,
      find_row-append GatewayRequest.request_id a.request_id db.requests (started now a ∷ []),
    );
    names = refl;
  },
  refl,
)

-- A row that is rewritten is read back.
updated_row :
    (id : ℕ) (f : GatewayRequest → GatewayRequest) (rows : List GatewayRequest)
    (row : GatewayRequest)
    → ((r : GatewayRequest) → (f r).request_id ≡ r.request_id)
    → find_row GatewayRequest.request_id id rows ≡ some row
    → find_row GatewayRequest.request_id id (update_row GatewayRequest.request_id id f rows)
      ≡ some (f row)
updated_row id f rows row same found =
    ground
      (arith, ==_refl id, found, find_row-update_row GatewayRequest.request_id id id f rows same)

-- A row that is rewritten to `f row`, where its reservation is not outstanding.
pub row-Settled :
    (id : ℕ) (res : Option ℕ) (db : Db) (f : GatewayRequest → GatewayRequest)
    (t : Tracked id res db)
    → ((r : GatewayRequest) → (f r).request_id ≡ r.request_id)
    → (f t.row).limit_reservation_id ≡ t.row.limit_reservation_id
    → IsEnded (f t.row)
    → (after : Db) → after.requests ≡ update_row GatewayRequest.request_id id f db.requests
    → IsSound after
    → ((k : ℕ) → res ≡ some k → closed k after ≡ true)
    → Settled id res after
row-Settled id res db f t same names ended after rows sound released = record {
  tracked = record {
    sound = sound;
    row = f t.row;
    found = rw rows (updated_row id f db.requests t.row same t.found);
    names = names ∙ t.names;
  };
  ended = ended;
  released = released;
}

-- The end of a request: its row is rewritten, and then the reservation reconciled.
pub ends-Settled :
    (id : ℕ) (res : Option ℕ) (db : Db) (f : GatewayRequest → GatewayRequest) (now : DateTime)
    (tokens cost : ℤ) (t : Tracked id res db)
    → ((r : GatewayRequest) → (f r).request_id ≡ r.request_id)
    → (f t.row).limit_reservation_id ≡ t.row.limit_reservation_id
    → IsEnded (f t.row)
    → (before : Db) → before.requests ≡ update_row GatewayRequest.request_id id f db.requests
    → IsSound before
    → (r : Reconciled now res tokens cost before) × Settled id res r.after
ends-Settled id res db f now tokens cost t same names ended before rows s =
    let r = reconciled now res tokens cost before s in
    (r, row-Settled id res db f t same names ended r.after (r.requests ∙ rows) r.sound r.released)
