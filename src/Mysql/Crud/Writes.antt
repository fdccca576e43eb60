-- ===== src/Mysql/Crud/Writes.antt =====
-- What `Create` and `UpdateIfStatus` of internal/store/mysql/mysql.go leave in the table.
use circle_wallet_service.Prelude.{
  ◌≡◌, refl, true, false, not, ◌&&◌, none, some, List, [], ◌∷◌, arith, String, ◌==◌, if◌then◌else◌,
  Option-cases, inl, inr, ok, err, is_set, Result-cases, ◌∙◌, ap,
}
use circle_wallet_service.Store.{TransactionRecord, idempotency_conflict}
use circle_wallet_service.Mysql.{Engine, Row, Database}
use circle_wallet_service.Mysql.Rows.{
  row_of, scan_record, columns, stored, scan_record-columns, row_of-columns, is_blank,
}
use circle_wallet_service.Mysql.Tables.{row_with, rows_that}
use circle_wallet_service.Mysql.Crud.{
  has_key, first_row, key_held, insert_row, create, scanned, get, get_by_idempotency_key,
}

insert_row-get :
    (engine : Engine) (db t : Database) (row : Row) (id : String)
    → insert_row engine db row ≡ ok t
    → get id t ≡ (if row.id == id then some (scan_record row) else get id db)
unfolding insert_row get scanned row_with
insert_row-get engine db t row id h = ground (arith, h)

-- A record that is created reads back as the columns keep it, and no other record changes.
pub create_keeps :
    (engine : Engine) (rec : TransactionRecord) (db t : Database)
    → create engine rec db ≡ ok t
    → (payload : String) × ((engine.json rec.payload_json ≡ some payload)
        × ((id : String)
            → get id t ≡ (if rec.id == id then some (stored engine rec payload) else get id db)))
unfolding create
create_keeps engine rec db t h = elim (Result-cases (row_of engine rec)) [
  | inr (e, f) ↦ absurd (ground (arith, h, f))
  | inl (row, f) ↦
      let (payload, (laid, is_row)) = row_of-columns engine rec f in
      (
        payload,
        (
          laid,
          λ id.
              insert_row-get engine db t row id (rw f at h)
              ∙ rw (is_row, scan_record-columns engine rec payload) (unfold columns in refl),
        ),
      )
]

other_holder :
    (engine : Engine) (key id : String) (rows : List Row) (r : Row)
    → row_with id rows ≡ none
    → first_row (rows_that (has_key engine key) rows) ≡ some r
    → is_set (first_row (rows_that (λ x. has_key engine key x && not (x.id == id)) rows)) ≡ true
unfolding first_row rows_that row_with
other_holder engine key id [] r new h = absurd (ground arith)
other_holder engine key id (x ∷ xs) r new h =
    ground (arith, new, h, other_holder engine key id xs r)

insert_row-taken :
    (engine : Engine) (db : Database) (row : Row) (key : String)
    → row.idempotency_key ≡ some key
    → row_with row.id db.transactions ≡ none
    → is_set
        (first_row (rows_that (λ x. has_key engine key x && not (x.id == row.id)) db.transactions))
      ≡ true
    → insert_row engine db row ≡ err idempotency_conflict
unfolding insert_row key_held
insert_row-taken engine db row key keyed new held = rw (insert_row, new, key_held, keyed, held) refl

-- A key that a lookup finds is refused for a new record, even one that differs from it only as far as the
-- collation does not tell.
pub create-taken :
    (engine : Engine) (rec found : TransactionRecord) (row : Row) (db : Database)
    → row_of engine rec ≡ ok row
    → row_with rec.id db.transactions ≡ none
    → is_blank rec.idempotency_key ≡ false
    → get_by_idempotency_key engine rec.idempotency_key db ≡ some found
    → create engine rec db ≡ err idempotency_conflict
unfolding create get_by_idempotency_key scanned
create-taken engine rec found row db takes new keyed finds =
    elim (Option-cases
      (first_row (rows_that (has_key engine rec.idempotency_key) db.transactions))) [
        | inl e ↦ absurd (ground (arith, finds, e))
        | inr (r, e) ↦
            let (payload, (_, is_row)) = row_of-columns engine rec takes in
            rw takes (
              insert_row-taken engine db row rec.idempotency_key
                (rw is_row (unfold columns in rw keyed refl)) (rw is_row (unfold columns in new))
                (rw is_row (
                  unfold columns in
                  other_holder engine rec.idempotency_key rec.id db.transactions r new e)))
      ]

insert_row-first :
    (engine : Engine) (db t : Database) (row : Row) (key wanted : String)
    → insert_row engine db row ≡ ok t
    → row.idempotency_key ≡ some key
    → engine.same_text key wanted ≡ true
    → first_row (rows_that (has_key engine wanted) t.transactions) ≡ some row
unfolding insert_row first_row rows_that has_key
insert_row-first engine db t row key wanted h keyed same =
    let head : t.transactions ≡ row ∷ db.transactions = ground (arith, h) in
    rw (head, keyed, same) refl

-- A record that is created under a key is what a lookup finds for each key that the collation takes for
-- the same.
pub create-get_by_idempotency_key :
    (engine : Engine) (rec : TransactionRecord) (wanted : String) (db t : Database)
    → create engine rec db ≡ ok t
    → is_blank rec.idempotency_key ≡ false
    → (wanted == "") ≡ false
    → engine.same_text rec.idempotency_key wanted ≡ true
    → (payload : String) × ((engine.json rec.payload_json ≡ some payload)
        × (get_by_idempotency_key engine wanted t ≡ some (stored engine rec payload)))
unfolding create get_by_idempotency_key scanned
create-get_by_idempotency_key engine rec wanted db t h keyed asked same =
    elim (Result-cases (row_of engine rec)) [
      | inr (e, f) ↦ absurd (ground (arith, h, f))
      | inl (row, f) ↦
          let (payload, (laid, is_row)) = row_of-columns engine rec f in
          let first =
            insert_row-first engine db t row rec.idempotency_key wanted (rw f at h)
              (rw is_row (unfold columns in rw keyed refl)) same in
          (
            payload,
            (
              laid,
              rw (asked, first) (rw is_row (ap some (scan_record-columns engine rec payload))),
            ),
          )
    ]
