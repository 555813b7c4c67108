-- ===== src/Db/Postgresql/Session/Clearing.antt =====
-- A result that is cleared twice.
use libzdb.Prelude.{ℕ, ◌<◌, ◌≡◌, refl, some, Text, err, sql_exception}
use libzdb.Util.StringBuffer.{questions, too_many, prepare4postgres}
use libzdb.Util.StringBuffer.Holding.{NoZero}
use libzdb.Util.StringBuffer.Appending.{new-Holds}
use libzdb.Util.StringBuffer.Preparing.{prepare-too_many}
use libzdb.Db.Postgresql.Adapter.{Libpq}
use libzdb.Db.Postgresql.Session.{Session, numbered, prepare_statement, execute}

module _ (q : Libpq) where
  numbered-too_many :
      (sql : Text)
      → NoZero sql
      → 99 < questions sql
      → numbered q sql ≡ some (err (sql_exception too_many))
  unfolding numbered prepare4postgres
  numbered-too_many sql n many =
      let (S, made, holds) = new-Holds q.junk sql n in
      rw (made, prepare-too_many q.junk b'$' S sql holds many, numbered, prepare4postgres) refl

  -- A statement with more than 99 parameters makes `_prepareStatement` throw when the result before is
  -- already cleared, and the connection still has that result: the statement that is executed next runs
  -- in a world in which it was cleared a second time.
  pub prepare_statement-execute :
      (C : Session q) (next : ℕ) (sql other : Text) (w : q.World)
      → NoZero sql
      → 99 < questions sql
      → let cleared = q.clear C.res w in
        (prepare_statement q C next sql w ≡ some (err (sql_exception too_many), C, next, cleared))
        × ((execute q C other cleared).2 ≡ (q.exec C.db other (q.clear C.res cleared)).1)
  unfolding prepare_statement execute
  prepare_statement-execute C next sql other w n many =
      (rw (numbered-too_many sql n many, prepare_statement) refl, refl)
