-- ===== src/StateDb/Engine.antt =====
-- The SQLite engine as the program uses it: statements that run or fail, and one transaction.
-- What the engine decides (whether a statement fails, and the wall clock) is the parameter
-- `Engine`; worker/resume/sqlite_util.cpp's Transaction is modelled here.
use eml_to_pst.Base.{ℕ, suc, ◌≡◌, refl, Option, none, some, Option-cases, inl, inr}
use eml_to_pst.Base.Text.{codes}
use eml_to_pst.Base.Outcome.{Error, Result, ok, err, Status, make_error}
use eml_to_pst.Model.{FileTimeUtc}
use eml_to_pst.StateDb.Tables.{Tables}

-- `fault n` is the error of the n-th statement that is executed, if it fails; a statement that
-- fails changes nothing. `refused` is the error of a broken constraint, `clock n` the time.
pub record Engine : Type 0 where
  pub fault : ℕ → Option Error
  pub refused : Error
  pub clock : ℕ → FileTimeUtc

-- `saved` holds the tables at BEGIN while a transaction is open.
pub record Db : Type 0 where
  pub tables : Tables
  pub saved : Option Tables
  pub ticks : ℕ

abbrev pub M : Type 0 → Type 0
M A = Db → Result A × Db

abbrev pub pure : {A : Type 0} → A → M A
pure a db = (ok a, db)

abbrev pub fail : {A : Type 0} → Error → M A
fail e db = (err e, db)

abbrev pub after : {A B : Type 0} → Result A × Db → (A → M B) → Result B × Db
after (ok a, db) f = f a db
after (err e, db) f = (err e, db)

infixl 5 ◌>>=◌ ◌>>◌
abbrev pub ◌>>=◌ : {A B : Type 0} → M A → (A → M B) → M B
◌>>=◌ m f db = after (m db) f

abbrev pub ◌>>◌ : {B : Type 0} → M (Unit {0}) → M B → M B
◌>>◌ m next db = after (m db) (λ done. next)

abbrev pub tick : Db → Db
tick db = record db { ticks = suc db.ticks }

abbrev pub stepped : Engine → Option Error → Option (Tables × ℕ) → Db → Result ℕ × Db
stepped g (some e) _ db = (err e, tick db)
stepped g none none db = (err g.refused, tick db)
stepped g none (some (t, n)) db = (ok n, record db { tables = t; ticks = suc db.ticks })

-- One statement: reset, bind and step. The result is the number of rows that it changed.
unfoldable pub execute : Engine → (Tables → Option (Tables × ℕ)) → M ℕ
execute g change db = stepped g (g.fault db.ticks) (change db.tables) db

abbrev pub answered {ℓ} : {A : Type ℓ} → Option Error → Result A → Db → Result A × Db
answered (some e) _ db = (err e, tick db)
answered none r db = (r, tick db)

-- A statement that reads: prepare, then step over its rows.
unfoldable pub select {ℓ} : {A : Type ℓ} → Engine → (Tables → Result A) → Db → Result A × Db
select g read db = answered (g.fault db.ticks) (read db.tables) db

pub select-db {ℓ} :
    {A : Type ℓ} (g : Engine) (read : Tables → Result A) (db : Db) → (select g read db).1 ≡ tick db
unfolding select
select-db g read db = elim (Option-cases (g.fault db.ticks)) [
  | inl e ↦ rw e refl
  | inr (x, e) ↦ rw e refl
]

-- From whether the statement fails and whether a transaction is open.
abbrev pub open_transaction : Option Error → Option Tables → Db → Status × Db
open_transaction (some e) _ db = (err e, tick db)
open_transaction none none db = (ok tt, record db { saved = some db.tables; ticks = suc db.ticks })
open_transaction none (some t) db = (
  err (make_error (codes "sqlite3_exec") (codes "cannot start a transaction within a transaction")),
  tick db,
)

-- `Transaction::begin_immediate`
unfoldable pub begin_immediate : Engine → M (Unit {0})
begin_immediate g db = open_transaction (g.fault db.ticks) db.saved db

abbrev pub close_transaction : Option Error → Option Tables → Db → Status × Db
close_transaction _ none db =
    (err (make_error (codes "Transaction::commit") (codes "transaction is not active")), db)
close_transaction (some e) (some t) db = (err e, tick db)
close_transaction none (some t) db = (ok tt, record db { saved = none; ticks = suc db.ticks })

-- `Transaction::commit`
unfoldable pub commit : Engine → M (Unit {0})
commit g db = close_transaction (g.fault db.ticks) db.saved db

-- `Transaction::~Transaction` of a transaction that was not committed.
abbrev pub restore : Option Tables → Db → Db
restore none db = db
restore (some t) db = record db { tables = t; saved = none }

unfoldable pub rollback : Db → Db
rollback db = restore db.saved db
