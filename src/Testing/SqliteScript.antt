-- ===== src/Testing/SqliteScript.antt =====
-- The script of testing.go that creates the test tables of sqlite, line by line.
use go_dbw.Prelude.{String, List, [], ◌∷◌}

abbrev pub test_query_create_tables_sqlite : List String
test_query_create_tables_sqlite =
    "\t" ∷ "begin;" ∷ "" ∷ "create table if not exists db_test_user ("
    ∷ "  public_id text not null constraint db_test_user_pkey primary key,"
    ∷ "  create_time timestamp not null default current_timestamp,"
    ∷ "  update_time timestamp not null default current_timestamp," ∷ "  name text unique,"
    ∷ "  phone_number text," ∷ "  email text," ∷ "  version int default 1" ∷ ");" ∷ ""
    ∷ "create trigger update_time_column_db_test_user" ∷ "before update on db_test_user "
    ∷ "for each row " ∷ "when " ∷ "  new.public_id \t<> old.public_id or"
    ∷ "  new.name      \t<> old.name or" ∷ "  new.phone_number \t<> old.phone_number or"
    ∷ "  new.email     \t<> old.email or" ∷ "  new.version   \t<> old.version " ∷ "  begin"
    ∷ "    update db_test_user set update_time = datetime('now','localtime') where rowid == new.rowid;"
    ∷ "  end;" ∷ "" ∷ "create trigger immutable_columns_db_test_user"
    ∷ "before update on db_test_user " ∷ "for each row " ∷ "  when "
    ∷ "\tnew.create_time <> old.create_time" ∷ "\tbegin"
    ∷ "\t  select raise(abort, 'immutable column');" ∷ "\tend;" ∷ ""
    ∷ "create trigger default_create_time_column_db_test_user" ∷ "before insert on db_test_user"
    ∷ "for each row" ∷ "  begin"
    ∷ "\tupdate db_test_user set create_time = datetime('now','localtime') where rowid = new.rowid;"
    ∷ "  end;" ∷ "\t" ∷ "create trigger update_version_column_db_test_user"
    ∷ "after update on db_test_user" ∷ "for each row" ∷ "when "
    ∷ "  new.public_id \t<> old.public_id or" ∷ "  new.name      \t<> old.name or"
    ∷ "  new.phone_number  <> old.phone_number or" ∷ "  new.email     \t<> old.email" ∷ "  begin"
    ∷ "    update db_test_user set version = old.version + 1 where rowid = new.rowid;" ∷ "  end;"
    ∷ "  " ∷ "create table if not exists db_test_car ("
    ∷ "\tpublic_id text constraint db_test_car_pkey primary key,"
    ∷ "\tcreate_time timestamp not null default current_timestamp,"
    ∷ "\tupdate_time timestamp not null default current_timestamp," ∷ "\tname text unique,"
    ∷ "\tmodel text," ∷ "\tmpg smallint," ∷ "\tversion int default 1" ∷ ");" ∷ "  "
    ∷ "create trigger update_time_column_db_test_car" ∷ "before update on db_test_car"
    ∷ "for each row " ∷ "when " ∷ "  new.public_id \t<> old.public_id or"
    ∷ "  new.name      \t<> old.name or" ∷ "  new.model \t\t<> old.model or"
    ∷ "  new.mpg     \t\t<> old.mpg or" ∷ "  new.version   \t<> old.version " ∷ "  begin"
    ∷ "    update db_test_car set update_time = datetime('now','localtime') where rowid == new.rowid;"
    ∷ "  end;" ∷ "" ∷ "  create trigger default_create_time_column_db_test_car"
    ∷ "  before insert on db_test_car" ∷ "  for each row" ∷ "\tbegin"
    ∷ "\t  update db_test_car set create_time = datetime('now','localtime') where rowid = new.rowid;"
    ∷ "\tend;" ∷ "  " ∷ "create trigger update_version_column_db_test_car"
    ∷ "after update on db_test_car" ∷ "for each row" ∷ "when "
    ∷ "\tnew.public_id \t<> old.public_id or" ∷ "\tnew.name      \t<> old.name or"
    ∷ "\tnew.model  \t\t<> old.model or" ∷ "\tnew.mpg     \t<> old.mpg" ∷ "\tbegin"
    ∷ "\tupdate db_test_car set version = old.version + 1 where rowid = new.rowid;" ∷ "\tend;" ∷ ""
    ∷ "" ∷ "create table if not exists db_test_rental ("
    ∷ "\tuser_id text not null references db_test_user(public_id),"
    ∷ "\tcar_id  text not null references db_test_car(public_id),"
    ∷ "\tcreate_time timestamp not null default current_timestamp,"
    ∷ "\tupdate_time timestamp not null default current_timestamp," ∷ "\tname text unique,"
    ∷ "\tversion int default 1," ∷ "\tconstraint db_test_rental_pkey primary key(user_id, car_id)"
    ∷ "" ∷ ");" ∷ "" ∷ "create trigger update_time_column_db_test_rental"
    ∷ "before update on db_test_rental" ∷ "for each row " ∷ "when "
    ∷ "\tnew.user_id \t<> old.user_id or" ∷ "\tnew.car_id \t\t<> old.car_id or"
    ∷ "\tnew.name      \t<> old.name or" ∷ "\tnew.version   \t<> old.version " ∷ "\tbegin"
    ∷ "\t\tupdate db_test_rental set update_time = datetime('now','localtime') where rowid == new.rowid;"
    ∷ "\tend;" ∷ "\t  " ∷ "create trigger immutable_columns_db_test_rental"
    ∷ "before update on db_test_rental" ∷ "for each row " ∷ "when "
    ∷ "\tnew.create_time <> old.create_time" ∷ "\tbegin"
    ∷ "\t\tselect raise(abort, 'immutable column');" ∷ "\tend;" ∷ "\t  "
    ∷ "create trigger default_create_time_column_db_test_rental" ∷ "before insert on db_test_rental"
    ∷ "for each row" ∷ "begin"
    ∷ "\tupdate db_test_rental set create_time = datetime('now','localtime') where rowid = new.rowid;"
    ∷ "end;" ∷ "\t" ∷ "create trigger update_version_column_db_test_rental"
    ∷ "after update on db_test_rental" ∷ "for each row" ∷ "when "
    ∷ "\tnew.user_id \t<> old.user_id or" ∷ "\tnew.car_id \t\t<> old.car_id or"
    ∷ "\tnew.name      \t<> old.name or" ∷ "\tnew.version   \t<> old.version " ∷ "\tbegin"
    ∷ "\t\tupdate db_test_rental set version = old.version + 1 where rowid = new.rowid;" ∷ "\tend;"
    ∷ "" ∷ "create table if not exists db_test_scooter ("
    ∷ "\tprivate_id text constraint db_test_scooter_pkey primary key,"
    ∷ "\tcreate_time timestamp not null default current_timestamp,"
    ∷ "\tupdate_time timestamp not null default current_timestamp," ∷ "\tname text unique,"
    ∷ "\tmodel text," ∷ "\tmpg smallint," ∷ "\tversion int default 1" ∷ ");" ∷ ""
    ∷ "create trigger update_time_column_db_test_scooter" ∷ "before update on db_test_scooter"
    ∷ "for each row " ∷ "when " ∷ "  new.private_id \t<> old.private_id or"
    ∷ "  new.name      \t<> old.name or" ∷ "  new.model \t\t<> old.model or"
    ∷ "  new.mpg     \t\t<> old.mpg or" ∷ "  new.version   \t<> old.version " ∷ "  begin"
    ∷ "    update db_test_scooter set update_time = datetime('now','localtime') where rowid == new.rowid;"
    ∷ "  end;" ∷ "" ∷ "  create trigger default_create_time_column_db_test_scooter"
    ∷ "  before insert on db_test_scooter" ∷ "  for each row" ∷ "\tbegin"
    ∷ "\t  update db_test_scooter set create_time = datetime('now','localtime') where rowid = new.rowid;"
    ∷ "\tend;" ∷ "  " ∷ "create trigger update_version_column_db_test_scooter"
    ∷ "after update on db_test_scooter" ∷ "for each row" ∷ "when "
    ∷ "\tnew.private_id \t<> old.private_id or" ∷ "\tnew.name      \t<> old.name or"
    ∷ "\tnew.model  \t\t<> old.model or" ∷ "\tnew.mpg     \t<> old.mpg" ∷ "\tbegin"
    ∷ "\tupdate db_test_scooter set version = old.version + 1 where rowid = new.rowid;" ∷ "\tend;"
    ∷ "" ∷ "" ∷ "  commit;" ∷ "\t" ∷ []
