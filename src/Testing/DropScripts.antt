-- ===== src/Testing/DropScripts.antt =====
-- The scripts of testing.go that drop the test tables, line by line.
use go_dbw.Prelude.{String, List, [], ◌∷◌}

abbrev pub test_query_drop_tables_sqlite : List String
test_query_drop_tables_sqlite =
    "" ∷ "begin;" ∷ "drop table if exists db_test_user;" ∷ "drop table if exists db_test_car;"
    ∷ "drop table if exists db_test_rental;" ∷ "drop table if exists db_test_scooter;" ∷ "commit;"
    ∷ "" ∷ []

abbrev pub test_query_drop_tables_postgres : List String
test_query_drop_tables_postgres =
    "" ∷ "begin;" ∷ "drop table if exists db_test_user cascade;"
    ∷ "drop table if exists db_test_car cascade;" ∷ "drop table if exists db_test_rental cascade;"
    ∷ "drop table if exists db_test_scooter cascade;" ∷ "drop domain if exists wt_public_id;"
    ∷ "drop domain if exists wt_private_id;" ∷ "drop domain if exists wt_timestamp;"
    ∷ "drop domain if exists wt_version;" ∷ "commit;" ∷ "\t" ∷ []
