-- ===== src/Reservations.antt =====
-- backend/app/services/project_limit_reservation_service.py: a hard limit is enforced by reserving
-- request slots, tokens and cost on the usage windows of the day and the month before a call, and
-- by settling the reservation afterwards. Transactions run one after another, as the row locks of
-- PostgreSQL make them, and UUIDs are inputs.
pub mod Windows
pub mod Admission
pub mod Settlement
pub mod Endings
pub mod Ledger
pub mod Opening
pub mod Admitting
pub mod Outcomes
pub mod Committing
pub mod OnWindow
pub mod Admitted
pub mod Enforcement
pub mod Once
pub mod Linked
pub mod Relinking
pub mod Returning
pub mod Balance
