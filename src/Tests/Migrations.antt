-- ===== src/Tests/Migrations.antt =====
-- The theorems about the migrations, at two files whose statements append to a list.
use go_tunnels.Shared.{
  ◌≡◌, All, refl, sym, ap, [], ◌∷◌, ◌++◌, none, some, false, List, Text, ℤ, pos, Option, codes,
  text_beq, ◌>>=◌,
}
use go_tunnels.Text.{parse_int}
use go_tunnels.Database.{rows_of, parse_version, Migration, Entry, Catalog, migrate, Problem}
use go_tunnels.Database.Again.{migrate_again}
use go_tunnels.Database.Migrated.{IsFileOf, entries_of, Reports, IsApplied, migrate-IsApplied}

-- A statement is a text.
abbrev append_sql : Text → List Text → Option (List Text)
append_sql sql tables = some (tables ++ sql ∷ [])

abbrev up_file : Text → Text → Entry
up_file name sql = record { name = name; is_dir = false; content = some sql }

abbrev two_files : Option (List Entry)
two_files = some (
    up_file (codes "0002_notes.up.sql") (codes "notes")
    ∷ up_file (codes "0001_init.up.sql") (codes "init")
    ∷ up_file (codes "0001_init.down.sql") (codes "drop")
    ∷ [])

-- A new database.
abbrev empty_catalog : Catalog (List Text)
empty_catalog = record { tables = []; schema_migrations = none; locked = false; trips = [] }

abbrev both : (List ℤ × Option Problem) × Catalog (List Text)
both = (
  (pos 1 ∷ pos 2 ∷ [], none),
  record {
    tables = codes "init" ∷ codes "notes" ∷ [];
    schema_migrations = some (
        record { version = pos 1; name = codes "0001_init.up.sql" }
        ∷ record { version = pos 2; name = codes "0002_notes.up.sql" }
        ∷ []);
    locked = false;
    trips = [];
  },
)

-- Both files are applied, in the order of their versions.
migrate-both : migrate append_sql two_files empty_catalog ≡ both
unfolding migrate text_beq parse_version parse_int ◌>>=◌
migrate-both = refl

migrate-IsApplied_example :
    let r = migrate append_sql two_files empty_catalog in
    (ran : List Migration) × All (IsFileOf (entries_of two_files)) ran
    × Reports ran r.0
    × IsApplied append_sql ran empty_catalog r.1
    × (r.1.locked ≡ false)
migrate-IsApplied_example = migrate-IsApplied append_sql two_files empty_catalog refl

migrate_again_example :
    ((migrate append_sql two_files both.1).0.0 ≡ [])
    × ((migrate append_sql two_files both.1).1.tables ≡ both.1.tables)
migrate_again_example =
    migrate_again append_sql two_files empty_catalog both.1 (ap (λ r. r.0.1) migrate-both)
      (sym (ap (λ r. rows_of r.1.schema_migrations) migrate-both))
