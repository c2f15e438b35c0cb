-- ===== src/Testing/PostgresScript.antt =====
-- The script of testing.go that creates the test tables of postgres, line by line.
use go_dbw.Prelude.{String, List, [], ◌∷◌}

abbrev pub test_query_create_tables_postgres : List String
test_query_create_tables_postgres =
    "" ∷ "begin;" ∷ "" ∷ "create domain wt_public_id as text" ∷ "check("
    ∷ "  length(trim(value)) > 10" ∷ ");" ∷ "comment on domain wt_public_id is"
    ∷ "'Random ID generated with github.com/hashicorp/go-secure-stdlib/base62';" ∷ ""
    ∷ "create domain wt_private_id as text" ∷ "not null" ∷ "check(" ∷ "  length(trim(value)) > 10"
    ∷ ");" ∷ "comment on domain wt_private_id is"
    ∷ "'Random ID generated with github.com/hashicorp/go-secure-stdlib/base62';" ∷ ""
    ∷ "drop domain if exists wt_timestamp;" ∷ "create domain wt_timestamp as"
    ∷ "  timestamp with time zone" ∷ "  default current_timestamp;"
    ∷ "comment on domain wt_timestamp is"
    ∷ "'Standard timestamp for all create_time and update_time columns';" ∷ ""
    ∷ "create or replace function" ∷ "  update_time_column()" ∷ "  returns trigger" ∷ "as $$"
    ∷ "begin" ∷ "  if row(new.*) is distinct from row(old.*) then" ∷ "    new.update_time = now();"
    ∷ "    return new;" ∷ "  else" ∷ "    return old;" ∷ "  end if;" ∷ "end;"
    ∷ "$$ language plpgsql;" ∷ "" ∷ "comment on function" ∷ "  update_time_column()" ∷ "is"
    ∷ "  'function used in before update triggers to properly set update_time columns';" ∷ "  "
    ∷ "create or replace function" ∷ "  default_create_time()" ∷ "  returns trigger" ∷ "as $$"
    ∷ "begin" ∷ "  if new.create_time is distinct from now() then"
    ∷ "    raise warning 'create_time cannot be set to %', new.create_time;"
    ∷ "    new.create_time = now();" ∷ "  end if;" ∷ "  return new;" ∷ "end;"
    ∷ "$$ language plpgsql;" ∷ "" ∷ "comment on function" ∷ "  default_create_time()" ∷ "is"
    ∷ "  'function used in before insert triggers to set create_time column to now';" ∷ "" ∷ ""
    ∷ "  create domain wt_version as bigint" ∷ "  default 1" ∷ "  not null" ∷ "  check("
    ∷ "   value > 0" ∷ "  );" ∷ "comment on domain wt_version is"
    ∷ "'standard column for row version';" ∷ ""
    ∷ "-- update_version_column() will increment the version column whenever row data"
    ∷ "-- is updated and should only be used in an update after trigger.  This function"
    ∷ "-- will overwrite any explicit updates to the version column. The function"
    ∷ "-- accepts an optional parameter of 'private_id' for the tables primary key."
    ∷ "create or replace function" ∷ "  update_version_column()" ∷ "  returns trigger" ∷ "as $$"
    ∷ "begin" ∷ "  if pg_trigger_depth() = 1 then"
    ∷ "    if row(new.*) is distinct from row(old.*) then" ∷ "      if tg_nargs = 0 then"
    ∷ "        execute format('update %I set version = $1 where public_id = $2', tg_relid::regclass) using old.version+1, new.public_id;"
    ∷ "        new.version = old.version + 1;" ∷ "        return new;" ∷ "      end if;"
    ∷ "      if tg_argv[0] = 'private_id' then"
    ∷ "        execute format('update %I set version = $1 where private_id = $2', tg_relid::regclass) using old.version+1, new.private_id;"
    ∷ "        new.version = old.version + 1;" ∷ "        return new;" ∷ "      end if;"
    ∷ "    end if;" ∷ "  end if;" ∷ "  return new;" ∷ "end;" ∷ "$$ language plpgsql;" ∷ ""
    ∷ "comment on function" ∷ "  update_version_column()" ∷ "is"
    ∷ "  'function used in after update triggers to properly set version columns';" ∷ ""
    ∷ "-- immutable_columns() will make the column names immutable which are passed as"
    ∷ "-- parameters when the trigger is created. It raises error code 23601 which is a"
    ∷ "-- class 23 integrity constraint violation: immutable column  "
    ∷ "create or replace function" ∷ "  immutable_columns()" ∷ "  returns trigger" ∷ "as $$"
    ∷ "declare " ∷ "\tcol_name text; " ∷ "\tnew_value text;" ∷ "\told_value text;" ∷ "begin"
    ∷ "  foreach col_name in array tg_argv loop"
    ∷ "    execute format('SELECT $1.%I', col_name) into new_value using new;"
    ∷ "    execute format('SELECT $1.%I', col_name) into old_value using old;"
    ∷ "  \tif new_value is distinct from old_value then"
    ∷ "      raise exception 'immutable column: %.%', tg_table_name, col_name using"
    ∷ "        errcode = '23601', " ∷ "        schema = tg_table_schema,"
    ∷ "        table = tg_table_name," ∷ "        column = col_name;" ∷ "  \tend if;"
    ∷ "  end loop;" ∷ "  return new;" ∷ "end;" ∷ "$$ language plpgsql;" ∷ "" ∷ "comment on function"
    ∷ "  immutable_columns()" ∷ "is"
    ∷ "  'function used in before update triggers to make columns immutable';" ∷ ""
    ∷ "-- ########################################################################################"
    ∷ "" ∷ "create table if not exists db_test_user ("
    ∷ "\tpublic_id wt_public_id constraint db_test_user_pkey primary key,"
    ∷ "\tcreate_time wt_timestamp," ∷ "\tupdate_time wt_timestamp," ∷ "\tname text unique,"
    ∷ "\tphone_number text," ∷ "\temail text," ∷ "\tversion wt_version" ∷ ");" ∷ "\t"
    ∷ "create trigger update_time_column " ∷ "before " ∷ "update on db_test_user "
    ∷ "\tfor each row execute procedure update_time_column();" ∷ ""
    ∷ "-- define the immutable fields for db_test_user" ∷ "create trigger immutable_columns"
    ∷ "before" ∷ "update on db_test_user"
    ∷ "\tfor each row execute procedure immutable_columns('create_time');" ∷ ""
    ∷ "create trigger default_create_time_column" ∷ "before" ∷ "insert on db_test_user "
    ∷ "\tfor each row execute procedure default_create_time();" ∷ ""
    ∷ "create trigger update_version_column" ∷ "after update on db_test_user"
    ∷ "\tfor each row execute procedure update_version_column();" ∷ ""
    ∷ "create table if not exists db_test_car ("
    ∷ "\tpublic_id wt_public_id constraint db_test_car_pkey primary key,"
    ∷ "\tcreate_time wt_timestamp," ∷ "\tupdate_time wt_timestamp," ∷ "\tname text unique,"
    ∷ "\tmodel text," ∷ "\tmpg smallint" ∷ ");" ∷ "\t" ∷ "create trigger update_time_column "
    ∷ "before " ∷ "update on db_test_car "
    ∷ "\tfor each row execute procedure update_time_column();" ∷ ""
    ∷ "-- define the immutable fields for db_test_car" ∷ "create trigger immutable_columns"
    ∷ "before" ∷ "update on db_test_car"
    ∷ "\tfor each row execute procedure immutable_columns('create_time');" ∷ ""
    ∷ "create trigger default_create_time_column" ∷ "before" ∷ "insert on db_test_car"
    ∷ "\tfor each row execute procedure default_create_time();" ∷ "" ∷ "\t"
    ∷ "create table if not exists db_test_rental ("
    ∷ "\tuser_id wt_public_id not null references db_test_user(public_id),"
    ∷ "\tcar_id wt_public_id not null references db_test_car(public_id),"
    ∷ "\tcreate_time wt_timestamp," ∷ "\tupdate_time wt_timestamp," ∷ "\tname text unique,"
    ∷ "\tversion wt_version," ∷ "\tconstraint db_test_rental_pkey primary key(user_id, car_id)"
    ∷ ");" ∷ "\t" ∷ "create trigger update_time_column " ∷ "before " ∷ "update on db_test_rental "
    ∷ "  for each row execute procedure update_time_column();" ∷ "\t"
    ∷ "-- define the immutable fields for db_test_rental" ∷ "create trigger immutable_columns"
    ∷ "before" ∷ "update on db_test_rental"
    ∷ " for each row execute procedure immutable_columns('create_time');" ∷ ""
    ∷ "create trigger default_create_time_column" ∷ "before" ∷ "insert on db_test_rental"
    ∷ " for each row execute procedure default_create_time();" ∷ ""
    ∷ "-- update_version_column() will increment the version column whenever row data"
    ∷ "-- is updated and should only be used in an update after trigger.  This function"
    ∷ "-- will overwrite any explicit updates to the version column. The function"
    ∷ "-- accepts an optional parameter of 'private_id' for the tables primary key."
    ∷ "create or replace function" ∷ "  update_rental_version_column()" ∷ "  returns trigger"
    ∷ "as $$" ∷ "begin" ∷ "  if pg_trigger_depth() = 1 then"
    ∷ "    if row(new.*) is distinct from row(old.*) then" ∷ "      if tg_nargs = 0 then"
    ∷ "        execute format('update %I set version = $1 where user_id = $2 and car_id = $3', tg_relid::regclass) using old.version+1, new.user_id, new.car_id;"
    ∷ "        new.version = old.version + 1;" ∷ "        return new;" ∷ "      end if;"
    ∷ "    end if;" ∷ "  end if;" ∷ "  return new;" ∷ "end;" ∷ "$$ language plpgsql;" ∷ ""
    ∷ "create trigger update_version_column" ∷ "after update on db_test_rental"
    ∷ "\tfor each row execute procedure update_rental_version_column();" ∷ ""
    ∷ "create table if not exists db_test_scooter ("
    ∷ "\tprivate_id wt_private_id constraint db_test_scooter_pkey primary key,"
    ∷ "\tcreate_time wt_timestamp," ∷ "\tupdate_time wt_timestamp," ∷ "\tname text unique,"
    ∷ "\tmodel text," ∷ "\tmpg smallint" ∷ ");" ∷ "" ∷ "create trigger update_time_column "
    ∷ "before update on db_test_scooter " ∷ "\tfor each row execute procedure update_time_column();"
    ∷ "" ∷ "" ∷ "-- define the immutable fields for db_test_scooter"
    ∷ "create trigger immutable_columns" ∷ "before update on db_test_scooter"
    ∷ "\tfor each row execute procedure immutable_columns('create_time');" ∷ ""
    ∷ "create trigger default_create_time_column" ∷ "before insert on db_test_scooter"
    ∷ "\tfor each row execute procedure default_create_time();  " ∷ "" ∷ "commit;" ∷ "\t" ∷ []
