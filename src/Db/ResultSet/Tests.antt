-- ===== src/Db/ResultSet/Tests.antt =====
-- The theorems about columns by name, at the stub's result set.
use libzdb.Prelude.{Option, some, Text}
use libzdb.Util.Str.{lit}
use libzdb.Db.ResultSet.{column_count, get_index}
use libzdb.Db.ResultSet.ByName.{Finds, get_index-Finds}
use libzdb.Db.Stub.{result}

abbrev wanted : Option Text
wanted = some (lit "name")

get_index-Finds_example : Finds result wanted 1000 1 3 (get_index result wanted 1000)
unfolding column_count
get_index-Finds_example = get_index-Finds result wanted 1000
