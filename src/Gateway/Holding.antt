-- ===== src/Gateway/Holding.antt =====
-- The setup of a request: it starts with its row tracked, or ends with its row failed.
use conexus.Prelude.{
  ℕ, ◌≡◌, refl, true, false, none, some, arith, ap, Option-cases, Bool-cases, inl, inr, ◌∙◌,
}
use conexus.Result.{ok, ◌>>=◌, value_of_ok}
use conexus.Table.Keys.{Distinct}
use conexus.Models.{ProjectLimit, UsageWindow, Db}
use conexus.Limits.{is_hard, get_project_limits}
use conexus.Reservations.Admission.{
  LimitReservationResult, commit_reservation, reserve_gateway_request,
}
use conexus.Reservations.Admitting.{IsFresh}
use conexus.Reservations.Outcomes.{Admitted, reserve_cases}
use conexus.Reservations.Admitted.{Admitted-IsBalanced, id-admitted, new, new-found}
use conexus.Reservations.Ledger.{IsBalanced}
use conexus.Reservations.Settlement.{closed}
use conexus.Reservations.Relinking.{reserve_returns, admitted-IsLinked}
use conexus.Gateway.Setup.{
  ChatArgs, Hold, held, blocked_by, hold_of, reserve_args, reserve_hard_limit_or_raise,
}
use conexus.Gateway.Tracking.{IsSound}

-- What a reservation step leaves.
pub record Holds (a : ChatArgs) (db : Db) : Type 0 where
  pub hold : Hold
  pub after : Db
  pub returns : reserve_hard_limit_or_raise a db ≡ ok (hold, after)
  pub sound : IsSound after
  pub requests : after.requests ≡ db.requests
  pub outstanding : (id : ℕ) → hold ≡ held (some id) → closed id after ≡ false

Admitted-requests :
    (a : ChatArgs) (limits : ProjectLimit) (db db' : Db) (res : LimitReservationResult)
    → Admitted a.settings a.draws (reserve_args a limits) db db' res
    → (db'.requests ≡ db.requests) × (res.allowed ≡ true)
unfolding commit_reservation
Admitted-requests a limits db db' res m = (
  ap (λ (p : LimitReservationResult × Db). p.1.requests) m.committed.after,
  ap (λ (p : LimitReservationResult × Db). p.0.allowed) m.committed.after,
)

Admitted-outstanding :
    (a : ChatArgs) (limits : ProjectLimit) (db db' : Db) (res : LimitReservationResult)
    (b : IsBalanced db) (m : Admitted a.settings a.draws (reserve_args a limits) db db' res)
    → IsFresh a.draws db
    → (id : ℕ) → held (some a.draws.reservation_id) ≡ held (some id)
    → closed id db' ≡ false
unfolding closed new
Admitted-outstanding a limits db db' res b m fresh id e =
    let there =
      new-found a.settings a.draws (reserve_args a limits) db db' res b m fresh.reservation in
    let same : id ≡ a.draws.reservation_id = ground arith in rw (same, closed, there) refl

hard_hold :
    (a : ChatArgs) (limits : ProjectLimit) (db : Db)
    → Distinct UsageWindow.id db.windows
    → IsFresh a.draws db
    → IsSound db
    → is_hard limits.limit_mode ≡ true
    → (h : Hold) × (after : Db) × ((reserve_gateway_request a.settings a.draws
            (reserve_args a limits)
            db
          >>= λ r. hold_of r db)
        ≡ ok (h, after))
      × IsSound after
      × (after.requests ≡ db.requests)
      × ((id : ℕ) → h ≡ held (some id) → closed id after ≡ false)
hard_hold a limits db distinct fresh s hard =
    let ((res, db'), made) =
      value_of_ok (reserve_gateway_request a.settings a.draws (reserve_args a limits) db)
        (reserve_returns a.settings a.draws (reserve_args a limits) db) in
    elim (reserve_cases a.settings a.draws (reserve_args a limits) db db' res distinct fresh made) [
      | inl skipped ↦ absurd (ground (arith, skipped.soft))
      | inr (inl r) ↦
          let (b, because) = r.reason in
          (
            blocked_by b,
            db,
            rw (made, r.denied, because) refl,
            s,
            refl,
            λ id e. absurd (ground arith),
          )
      | inr (inr m) ↦
          let (rows, allowed) = Admitted-requests a limits db db' res m in
          let id = id-admitted a.settings a.draws (reserve_args a limits) db db' res s.balanced m in
          (
            held (some a.draws.reservation_id),
            db',
            rw (made, allowed, id) refl,
            record {
              balanced =
                  Admitted-IsBalanced a.settings a.draws (reserve_args a limits) db db' res
                    s.balanced m;
              linked =
                  admitted-IsLinked a.settings a.draws (reserve_args a limits) db db' res s.balanced
                    m s.linked;
            },
            rows,
            Admitted-outstanding a limits db db' res s.balanced m fresh,
          )
    ]

hard_eq :
    (a : ChatArgs) (limits : ProjectLimit) (db : Db)
    → get_project_limits a.project_id db.limits ≡ some limits
    → is_hard limits.limit_mode ≡ true
    → reserve_hard_limit_or_raise a db ≡ (
        reserve_gateway_request a.settings a.draws (reserve_args a limits) db >>= λ r. hold_of r db)
unfolding reserve_hard_limit_or_raise
hard_eq a limits db e hard = rw (reserve_hard_limit_or_raise, e, hard) refl

pub hold_returns :
    (a : ChatArgs) (db : Db)
    → Distinct UsageWindow.id db.windows
    → IsFresh a.draws db
    → IsSound db
    → Holds a db
unfolding reserve_hard_limit_or_raise
hold_returns a db distinct fresh s =
    elim (Option-cases (get_project_limits a.project_id db.limits)) [
      | inl e ↦ record {
        hold = held none;
        after = db;
        returns = rw (reserve_hard_limit_or_raise, e) refl;
        sound = s;
        requests = refl;
        outstanding = λ id e. absurd (ground arith);
      }
      | inr (limits, e) ↦ elim (Bool-cases (is_hard limits.limit_mode)) [
        | inr soft ↦ record {
          hold = held none;
          after = db;
          returns = rw (reserve_hard_limit_or_raise, e, soft) refl;
          sound = s;
          requests = refl;
          outstanding = λ id e. absurd (ground arith);
        }
        | inl hard ↦
            let (h, after, returns, sound, rows, outstanding) =
              hard_hold a limits db distinct fresh s hard in
            record {
              hold = h;
              after = after;
              returns = hard_eq a limits db e hard ∙ returns;
              sound = sound;
              requests = rows;
              outstanding = outstanding;
            }
      ]
    ]
