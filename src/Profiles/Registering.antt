-- ===== src/Profiles/Registering.antt =====
-- A profile is registered once for its external id.
use conexus.Prelude.{◌≡◌, refl, false, inl, inr, Option-cases, some, arith}
use conexus.Text.{Text, strip, is_blank}
use conexus.Text.Laws.{text_eq_refl}
use conexus.Clock.{DateTime}
use conexus.Http.{response}
use conexus.Table.{find_where}
use conexus.Table.Laws.{find_where-append}
use conexus.Models.{AdapterProfile, Db}
use conexus.Profiles.{
  RegisterBody, RegisterResponse, register_adapter_profile, registered, by_adapter, new_profile,
}

-- A registration that finds the row answers it.
found_again :
    (now : DateTime) (gwid : Text) (body : RegisterBody) (db : Db) (row : AdapterProfile)
    → is_blank (strip body.domain_key) ≡ false
    → is_blank (strip body.adapter_profile_id) ≡ false
    → find_where (by_adapter (strip body.adapter_profile_id)) db.profiles ≡ some row
    → register_adapter_profile now gwid body db ≡ response (registered row, db)
unfolding register_adapter_profile
found_again now gwid body db row h h' e = rw (h, h', e) refl

-- After a registration the row is there, and it is the one that was answered.
registers :
    (now : DateTime) (gwid : Text) (body : RegisterBody) (db db' : Db) (answer : RegisterResponse)
    → register_adapter_profile now gwid body db ≡ response (answer, db')
    → (is_blank (strip body.adapter_profile_id) ≡ false)
      × ((row : AdapterProfile) × (find_where
              (by_adapter (strip body.adapter_profile_id))
              db'.profiles
            ≡ some row)
          × (answer ≡ registered row))
unfolding register_adapter_profile
registers now gwid body db db' answer h =
    let id = strip body.adapter_profile_id in
    elim (Option-cases (find_where (by_adapter id) db.profiles)) [
      | inr (row, e) ↦ (ground arith, (row, ground arith, ground arith))
      | inl e ↦
          let row = new_profile gwid id (strip body.domain_key) now body in
          (
            ground arith,
            (
              row,
              ground (arith, find_where-append (by_adapter id) db.profiles row e (text_eq_refl id)),
              ground arith,
            ),
          )
    ]

-- Once a registration was answered, every registration with the same external id and a domain gets
-- the same answer and changes nothing.
pub register_once :
    (now later : DateTime) (gwid gwid' : Text) (body body' : RegisterBody) (db db' : Db)
    (answer : RegisterResponse)
    → register_adapter_profile now gwid body db ≡ response (answer, db')
    → strip body'.adapter_profile_id ≡ strip body.adapter_profile_id
    → is_blank (strip body'.domain_key) ≡ false
    → register_adapter_profile later gwid' body' db' ≡ response (answer, db')
register_once now later gwid gwid' body body' db db' answer h same named =
    let known = registers now gwid body db db' answer h in
    rw known.1.2
      (found_again later gwid' body' db' known.1.0 named (rw same known.0) (rw same known.1.1))
