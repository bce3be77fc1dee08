-- ===== src/Storage/Effects/Integrity.antt =====
-- What no operation of crates/storage/src/storage_service.rs breaks in the tables.
use nasserver.Base.{ℕ, String, ◌≡◌, refl, ◌∙◌, Option, arith}
use nasserver.Storage.World.{Db, Bytes, Platform, World}
use nasserver.Storage.Tables.{
  insert_cloud_file, insert_or_skip, upsert_cloud_file, set_content, set_size_mime,
  delete_cloud_files, update_cloud_files, insert_trash_item, insert_trash_or_skip,
  delete_trash_items,
}
use nasserver.Storage.Tables.Unique.{
  IsUnique, insert-IsUnique, insert_or_skip-IsUnique, upsert-IsUnique, delete-IsUnique,
  update-IsUnique,
}
use nasserver.Storage.Save.{save_file, save_file_from_path}
use nasserver.Storage.Folders.{mkdir}
use nasserver.Storage.Rename.{rename}
use nasserver.Storage.Delete.{delete}
use nasserver.Storage.Purge.{purge}
use nasserver.Storage.Effects.{IsRespected}
use nasserver.Storage.Effects.Operations.{save_file-Keeps, save_file_from_path-Keeps}
use nasserver.Storage.Effects.Moves.{mkdir-Keeps}
use nasserver.Storage.Effects.Restores.{rename-Keeps}
use nasserver.Storage.Effects.Deletes.{delete-Keeps, purge-Keeps}

-- The key stays unique.
abbrev pub KeepsUnique : Db → Db → Type 0
KeepsUnique db db' = IsUnique db → IsUnique db'

pub KeepsUnique-IsRespected : IsRespected KeepsUnique
unfolding insert_trash_item insert_trash_or_skip delete_trash_items
KeepsUnique-IsRespected = record {
  same = λ db h. h;
  chain = λ a b c f g h. g (f h);
  inserts = λ f db db' e h. insert-IsUnique f db db' e h;
  skips = λ f db db' e h. insert_or_skip-IsUnique f db db' e h;
  saves = λ f db db' e h. upsert-IsUnique f (set_content f) db db' (λ g. (refl, refl, refl)) e h;
  restores =
      λ f db db' e h. upsert-IsUnique f (set_size_mime f) db db' (λ g. (refl, refl, refl)) e h;
  deletes = λ p db db' e h. delete-IsUnique p db db' e h;
  updates = λ p change db db' e h. update-IsUnique p change db db' e;
  trashes = λ t db db' e h. ground arith;
  trashes_dir = λ t db db' e h. ground arith;
  purges = λ p db db' e h. ground arith;
}

-- The accounts and the rights stay as they are.
abbrev pub SameRights : Db → Db → Type 0
SameRights db db' = (db'.users ≡ db.users) × (db'.app_permissions ≡ db.app_permissions)

SameRights-IsRespected : IsRespected SameRights
unfolding insert_cloud_file insert_or_skip upsert_cloud_file delete_cloud_files update_cloud_files
    insert_trash_item insert_trash_or_skip delete_trash_items
SameRights-IsRespected = record {
  same = λ db. (refl, refl);
  chain = λ a b c f g. (g.0 ∙ f.0, g.1 ∙ f.1);
  inserts = λ f db db' e. ground arith;
  skips = λ f db db' e. ground arith;
  saves = λ f db db' e. ground arith;
  restores = λ f db db' e. ground arith;
  deletes = λ p db db' e. ground arith;
  updates = λ p change db db' e. ground arith;
  trashes = λ t db db' e. ground arith;
  trashes_dir = λ t db db' e. ground arith;
  purges = λ p db db' e. ground arith;
}

-- No operation, whether it succeeds or fails halfway, leaves two rows of `storage.cloud_files` with
-- the same user, directory and name: saving, making a directory, moving and restoring, deleting with
-- any fuel, and purging the trash.
pub operations-KeepUnique :
    (P : Platform) (w : World P)
    → IsUnique w.db
    → ((username path name : String) (bytes : Bytes)
        → IsUnique (save_file P username path name bytes w).1.db)
      × ((username path name temp : String)
          → IsUnique (save_file_from_path P username path name temp w).1.db)
      × ((username path : String) → IsUnique (mkdir P username path w).1.db)
      × ((username : String) (from to : Option String)
          → IsUnique (rename P username from to w).1.db)
      × ((fuel : ℕ) (username : String) (path : Option String)
          → IsUnique (delete P fuel username path w).1.db)
      × IsUnique (purge P w).1.db
operations-KeepUnique P w h =
    let L = KeepsUnique-IsRespected in
    (
      λ username path name bytes. (save_file-Keeps L P username path name bytes).run w h,
      λ username path name temp. (save_file_from_path-Keeps L P username path name temp).run w h,
      λ username path. (mkdir-Keeps L P username path).run w h,
      λ username from to. (rename-Keeps L P username from to).run w h,
      λ fuel username path. (delete-Keeps L P fuel username path).run w h,
      (purge-Keeps L P).run w h,
    )

-- No operation changes an account or a right to an application: saving, making a directory, moving
-- and restoring, deleting with any fuel, and purging the trash.
pub operations-KeepRights :
    (P : Platform) (w : World P)
    → ((username path name : String) (bytes : Bytes)
        → SameRights w.db (save_file P username path name bytes w).1.db)
      × ((username path name temp : String)
          → SameRights w.db (save_file_from_path P username path name temp w).1.db)
      × ((username path : String) → SameRights w.db (mkdir P username path w).1.db)
      × ((username : String) (from to : Option String)
          → SameRights w.db (rename P username from to w).1.db)
      × ((fuel : ℕ) (username : String) (path : Option String)
          → SameRights w.db (delete P fuel username path w).1.db)
      × SameRights w.db (purge P w).1.db
operations-KeepRights P w =
    let L = SameRights-IsRespected in
    (
      λ username path name bytes. (save_file-Keeps L P username path name bytes).run w,
      λ username path name temp. (save_file_from_path-Keeps L P username path name temp).run w,
      λ username path. (mkdir-Keeps L P username path).run w,
      λ username from to. (rename-Keeps L P username from to).run w,
      λ fuel username path. (delete-Keeps L P fuel username path).run w,
      (purge-Keeps L P).run w,
    )
