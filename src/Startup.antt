-- ===== src/Startup.antt =====
-- Holds that were open when the server started (gridraft/store.py), by ledger. They pause admission
-- until an operator has settled them.
use slipvolt.Base.{String, Bool, List, ◌++◌, map, any, str_eq, ◌&&◌, ◌||◌, if◌then◌else◌}
use slipvolt.Base.Result.{Result, ok, err, integrity_error}
use slipvolt.Db.{Db, Usage, MemberUsage, is_reserved}
use slipvolt.Db.Sql.{select}

-- `startup_reservations_pending('prepaid')`: the JOIN has a row
unfoldable pub prepaid_pending : Db → Bool
prepaid_pending db =
    any (λ id. any (λ (u : Usage). str_eq u.id id && is_reserved u.state) db.usage)
      db.startup_prepaid

-- `startup_reservations_pending('holder')`
unfoldable pub holder_pending : Db → Bool
holder_pending db =
    any (λ id. any (λ (u : MemberUsage). str_eq u.id id && is_reserved u.state) db.member_usage)
      db.startup_holder

-- The ids that the two INSERT ... SELECT statements copy.
abbrev pub open_prepaid : Db → List String
open_prepaid db = map (λ (u : Usage). u.id) (select (λ (u : Usage). is_reserved u.state) db.usage)

abbrev pub open_holder : Db → List String
open_holder db =
    map (λ (u : MemberUsage). u.id)
      (select (λ (u : MemberUsage). is_reserved u.state) db.member_usage)

abbrev shares : List String → List String → Bool
shares new old = any (λ id. any (str_eq id) old) new

-- `snapshot_startup_reservations`, under PRIMARY KEY(ledger,id)
unfoldable pub snapshot_startup_reservations : Db → Result Db
snapshot_startup_reservations db =
    if shares (open_prepaid db) db.startup_prepaid || shares (open_holder db) db.startup_holder
    then err integrity_error
    else ok (record db {
      startup_prepaid = db.startup_prepaid ++ open_prepaid db;
      startup_holder = db.startup_holder ++ open_holder db;
    })
