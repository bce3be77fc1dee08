-- ===== src/Storage/World.antt =====
-- What the storage service works on: the tables of crates/infra/migrations that it names, and the
-- libraries that it calls. The object store (opendal), the database's failures and its order on
-- texts, the generator of identifiers and the guess of a mime type are parameters.
use nasserver.Base.{ℕ, ◌+◌, String, Bool, Option, none, some, List}
use nasserver.Domain.{database, io, Result, ok, err, Attempt, done, failed, M}

-- `sys.users`
pub record User : Type 0 where
  pub id : String
  pub username : String

-- `sys.app_permissions`
pub record AppPermission : Type 0 where
  pub app_name : String
  pub username : String

-- `storage.cloud_files`. Its timestamps and its checksum are left out.
pub record CloudFile : Type 0 where
  pub id : String
  pub user_id : String
  pub name : String
  pub dir : String
  pub size : ℕ
  pub mime : String
  pub storage : String

-- `storage.trash_items`
pub record TrashItem : Type 0 where
  pub id : String
  pub user_id : String
  pub name : String
  pub original_dir : String
  pub is_dir : Bool
  pub size : ℕ
  pub mime : String
  pub deleted_at : ℕ
  pub blob_hash : Option String

pub record Db : Type 0 where
  pub users : List User
  pub app_permissions : List AppPermission
  pub cloud_files : List CloudFile
  pub trash_items : List TrashItem

abbrev pub Bytes : Type 0
Bytes = List ℕ

-- `opendal::Metadata`
pub record Metadata : Type 0 where
  pub is_dir : Bool
  pub is_file : Bool
  pub content_length : ℕ

-- `opendal::Entry`
pub record Entry : Type 0 where
  pub name : String
  pub metadata : Metadata

-- `users_by_name`, `order_by_name` and `order_by_dir` are the database's `order by`; `name_le` compares
-- two names in lower case.
-- The libraries, and the own files of the server: `local` reads one. A call that changes the object store returns the new store whether it succeeds or
-- not. The number that `fault`, `new_v4` and `now` take counts the statements, so each statement may
-- fail or not, and each identifier and each time may be another.
pub record Platform : Type 1 where
  pub Files : Type 0
  pub stat : String → Files → Attempt Metadata
  pub list : String → Files → Attempt (List Entry)
  pub read : String → Files → Attempt Bytes
  pub create_dir : String → Files → Attempt (Unit {0}) × Files
  pub delete : String → Files → Attempt (Unit {0}) × Files
  pub remove_all : String → Files → Attempt (Unit {0}) × Files
  pub rename : String → String → Files → Attempt (Unit {0}) × Files
  pub write : String → Bytes → Files → Attempt (Unit {0}) × Files
  pub local : String → Files → Attempt Bytes
  pub write_local : String → Bytes → Files → Attempt (Unit {0}) × Files
  pub remove_local : String → Files → Attempt (Unit {0}) × Files
  pub fault : ℕ → Option String
  pub violation : String
  pub row_not_found : String
  pub new_v4 : ℕ → String
  pub now : ℕ → ℕ
  pub mime : String → String
  pub users_by_name : List User → List String
  pub name_le : String → String → Bool
  pub order_by_name : List CloudFile → List CloudFile
  pub order_by_dir : List TrashItem → List TrashItem

module _ (P : Platform) where
  pub record World : Type 0 where
    pub db : Db
    pub files : P.Files
    pub tick : ℕ

  abbrev pub Op : Type 0 → Type 0
  Op A = M World A

  -- A statement that reads.
  abbrev pub query : {A : Type 0} → (Db → A) → Op A
  query f w = elim (P.fault w.tick) [
    | some message ↦ (err (database message), record w { tick = w.tick + 1 })
    | none ↦ (ok (f w.db), record w { tick = w.tick + 1 })
  ]

  -- What a statement that writes leaves: `none` where it would break a constraint.
  abbrev pub commit : Option Db → World → Result (Unit {0}) × World
  commit none w = (err (database P.violation), w)
  commit (some db) w = (ok tt, record w { db = db })

  -- A statement that writes. A failed statement changes no row.
  abbrev pub execute : (Db → Option Db) → Op (Unit {0})
  execute f w = elim (P.fault w.tick) [
    | some message ↦ (err (database message), record w { tick = w.tick + 1 })
    | none ↦ commit (f w.db) (record w { tick = w.tick + 1 })
  ]

  -- `Uuid::new_v4()`
  abbrev pub fresh : Op String
  fresh w = (ok (P.new_v4 w.tick), record w { tick = w.tick + 1 })

  -- `map_err(|e| Io(e.to_string()))`
  abbrev pub io_result : {A : Type 0} → Attempt A → Result A
  io_result (done a) = ok a
  io_result (failed message) = err (io message)

  -- A call of the object store that reads.
  abbrev pub inspect : {A : Type 0} → (P.Files → Attempt A) → Op A
  inspect f w = (io_result (f w.files), w)

  -- A call of the object store that writes.
  abbrev pub perform : (P.Files → Attempt (Unit {0}) × P.Files) → Op (Unit {0})
  perform f w = let (answer, files) = f w.files in (io_result answer, record w { files = files })
