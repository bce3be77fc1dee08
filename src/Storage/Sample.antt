-- ===== src/Storage/Sample.antt =====
-- A small installation of the storage service, for tests.
use nasserver.Base.{String, true, false, none, List, [], ◌∷◌}
use nasserver.Domain.{done}
use nasserver.Storage.World.{Db, Bytes, Platform, World}

-- A store is the list of its paths with their bytes.
abbrev pub Store : Type 0
Store = List (String × Bytes)

abbrev pub platform : Platform
platform = record {
  Files = Store;
  stat = λ path s. done (record { is_dir = false; is_file = true; content_length = 0 });
  list = λ path s. done [];
  read = λ path s. done [];
  create_dir = λ path s. (done tt, s);
  delete = λ path s. (done tt, s);
  remove_all = λ path s. (done tt, s);
  rename = λ from to s. (done tt, (to, []) ∷ s);
  write = λ path b s. (done tt, (path, b) ∷ s);
  local = λ path s. done [];
  write_local = λ path b s. (done tt, (path, b) ∷ s);
  remove_local = λ path s. (done tt, s);
  fault = λ n. none;
  violation = "unique";
  row_not_found = "no rows";
  new_v4 = λ n. "id";
  now = λ n. n;
  mime = λ name. "text/plain";
  users_by_name = λ us. [];
  name_le = λ a b. true;
  order_by_name = λ fs. fs;
  order_by_dir = λ ts. ts;
}

abbrev pub db : Db
db = record {
  users = record { id = "1"; username = "ann" } ∷ record { id = "2"; username = "bob" } ∷ [];
  app_permissions =
      record { app_name = "file-manager"; username = "bob" }
      ∷ record { app_name = "notes"; username = "bob" }
      ∷ [];
  cloud_files = [];
  trash_items = [];
}

abbrev pub start : World platform
start = record { db = db; files = []; tick = 0 }
