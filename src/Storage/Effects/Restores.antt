-- ===== src/Storage/Effects/Restores.antt =====
-- The branch of `rename` in crates/storage/src/storage_service.rs that restores from the trash, and
-- `rename` as a whole.
use nasserver.Base.{
  ℕ, String, Bool, not, ◌&&◌, ◌||◌, Option, none, some, List, [], ◌∷◌, if◌then◌else◌, find, keep,
}
use nasserver.Base.Text.{◌<>◌, starts_with, is_empty}
use nasserver.Domain.{pure, ignore, forbidden, bad_request, database}
use nasserver.Storage.World.{TrashItem, Db, Platform, execute}
use nasserver.Storage.Tables.{upsert_cloud_file}
use nasserver.Storage.Paths.{normalize_path, parent, file_name}
use nasserver.Storage.Access.{}
use nasserver.Storage.Save.{may_act}
use nasserver.Storage.Folders.{child_path}
use nasserver.Storage.Effects.Operations.{user_id_of-Keeps, resolve-Keeps, ensure_parent-Keeps}
use nasserver.Storage.Rename.{rename}
use nasserver.Storage.Restore.{
  restored, dest_of, restore_dir_row, restore_file_row, restore_row, restore_rows,
  restore_directory, restore_file, restore,
}
use nasserver.Storage.Trash.{is_under, drop_blob, drop_blobs}
use nasserver.Storage.Reading.{blob_base, is_item, trash_rel}
use nasserver.Storage.Tables.{delete_trash_items, insert_or_skip, set_size_mime}
use nasserver.Storage.Effects.Moves.{owner_of-Keeps, rename_owned-Keeps}
use nasserver.Storage.Effects.{
  IsRespected, Keeps, pure-Keeps, bind-Keeps, then-Keeps, ignore-Keeps, require-Keeps, expect-Keeps,
  if-Keeps, query-Keeps, execute-Keeps, fresh-Keeps, inspect-Keeps, perform-Keeps,
}

module _ {R : Db → Db → Type 0} (L : IsRespected R) (P : Platform) where
  pub drop_blob-Keeps : (username : String) (o : Option String) → Keeps L P (drop_blob P username o)
  drop_blob-Keeps username none = pure-Keeps L P tt
  drop_blob-Keeps username (some hash) =
      ignore-Keeps L P (perform-Keeps L P (P.delete (blob_base username <> ("/" <> hash))))

  pub drop_blobs-Keeps :
      (username : String) (ts : List TrashItem) → Keeps L P (drop_blobs P username ts)
  unfolding drop_blobs
  drop_blobs-Keeps username [] = pure-Keeps L P tt
  drop_blobs-Keeps username (t ∷ ts) =
      then-Keeps L P (drop_blob-Keeps username t.blob_hash) (drop_blobs-Keeps username ts)

  restore_dir_row-Keeps :
      (to_user dest_parent name : String) → Keeps L P (restore_dir_row P to_user dest_parent name)
  unfolding restore_dir_row
  restore_dir_row-Keeps to_user dest_parent name =
      let dest_virtual = child_path dest_parent name in
      bind-Keeps L P (resolve-Keeps L P to_user dest_virtual) λ op_dir.
        then-Keeps L P (ignore-Keeps L P (perform-Keeps L P (P.create_dir (op_dir <> "/")))) (
          bind-Keeps L P (user_id_of-Keeps L P to_user) λ u. bind-Keeps L P (fresh-Keeps L P) λ id.
            let f = restored id u name (parent dest_virtual) 0 "inode/directory" "virtual" in
            ignore-Keeps L P (execute-Keeps L P (insert_or_skip f) (L.skips f)))

  restore_file_row-Keeps :
      (username to_user dest_parent name hash : String) (size : ℕ)
      → Keeps L P (restore_file_row P username to_user dest_parent name hash size)
  unfolding restore_file_row
  restore_file_row-Keeps username to_user dest_parent name hash size =
      bind-Keeps L P (resolve-Keeps L P to_user (child_path dest_parent name)) λ dest_op.
        then-Keeps L P (ensure_parent-Keeps L P dest_op) (
          bind-Keeps L P (inspect-Keeps L P (P.read (blob_base username <> ("/" <> hash)))) λ bytes.
            then-Keeps L P (perform-Keeps L P (P.write dest_op bytes)) (
              bind-Keeps L P (user_id_of-Keeps L P to_user) λ u.
                bind-Keeps L P (fresh-Keeps L P) λ id.
                  let f = restored id u name dest_parent size (P.mime name) "file" in
                  ignore-Keeps L P
                    (execute-Keeps L P (upsert_cloud_file f (set_size_mime f)) (L.restores f))))

  restore_row-Keeps :
      (username to_user from_root to_path : String) (t : TrashItem)
      → Keeps L P (restore_row P username to_user from_root to_path t)
  unfolding restore_row
  restore_row-Keeps username to_user from_root to_path t =
      if-Keeps L P t.is_dir
        (restore_dir_row-Keeps to_user (dest_of from_root to_path t.original_dir) t.name)
        (of_hash t.blob_hash)
    where
      of_hash :
          (o : Option String)
          → Keeps L P {A = Unit {0}} (elim o [
            | none ↦ pure tt
            | some hash ↦
                restore_file_row P username to_user
                  (dest_of from_root to_path t.original_dir)
                  t.name
                  hash
                  t.size
          ])
      of_hash none = pure-Keeps L P tt
      of_hash (some hash) =
          restore_file_row-Keeps username to_user (dest_of from_root to_path t.original_dir) t.name
            hash t.size

  restore_rows-Keeps :
      (username to_user from_root to_path : String) (ts : List TrashItem)
      → Keeps L P (restore_rows P username to_user from_root to_path ts)
  unfolding restore_rows
  restore_rows-Keeps username to_user from_root to_path [] = pure-Keeps L P tt
  restore_rows-Keeps username to_user from_root to_path (t ∷ ts) =
      then-Keeps L P (restore_row-Keeps username to_user from_root to_path t)
        (restore_rows-Keeps username to_user from_root to_path ts)

  pub forget-Keeps : (p : TrashItem → Bool) → Keeps L P (ignore (execute P (delete_trash_items p)))
  forget-Keeps p = ignore-Keeps L P (execute-Keeps L P (delete_trash_items p) (L.purges p))

  restore_directory-Keeps :
      (username to_user user_id rel_parent from_name to_path original_dir : String)
      → Keeps L P
          (restore_directory P username to_user user_id rel_parent from_name to_path original_dir)
  unfolding restore_directory
  restore_directory-Keeps username to_user user_id rel_parent from_name to_path original_dir =
      let from_root : String =
        if is_empty rel_parent then "/" <> from_name else rel_parent <> ("/" <> from_name) in
      bind-Keeps L P (resolve-Keeps L P to_user (parent to_path)) λ to_op_parent.
        then-Keeps L P (ignore-Keeps L P (perform-Keeps L P (P.create_dir (to_op_parent <> "/")))) (
          bind-Keeps L P
            (query-Keeps L P
              (λ db. P.order_by_dir (keep (is_under user_id from_root) db.trash_items)))
            λ rows. then-Keeps L P (restore_rows-Keeps username to_user from_root to_path rows) (
              then-Keeps L P
                (drop_blobs-Keeps username (keep (λ (t : TrashItem). not t.is_dir) rows))
                (then-Keeps L P (forget-Keeps (is_under user_id from_root)) (
                  forget-Keeps
                    (λ (t : TrashItem). is_item user_id original_dir from_name t && t.is_dir)))))

  restore_file-Keeps :
      (username to_user user_id from_name original_dir to_path to_name : String) (o : Option String)
      → Keeps L P (restore_file P username to_user user_id from_name original_dir to_path to_name o)
  unfolding restore_file
  restore_file-Keeps username to_user user_id from_name original_dir to_path to_name o =
      bind-Keeps L P (expect-Keeps L P o (database "blob hash missing")) λ hash.
        let blob_path = blob_base username <> ("/" <> hash) in
        bind-Keeps L P (inspect-Keeps L P (P.read blob_path)) λ bytes.
          bind-Keeps L P (resolve-Keeps L P to_user (parent to_path)) λ dest_op_parent.
            then-Keeps L P
              (ignore-Keeps L P (perform-Keeps L P (P.create_dir (dest_op_parent <> "/"))))
              (bind-Keeps L P (resolve-Keeps L P to_user to_path) λ dest_op.
                then-Keeps L P (perform-Keeps L P (P.write dest_op bytes)) (
                  bind-Keeps L P (user_id_of-Keeps L P to_user) λ u.
                    bind-Keeps L P (inspect-Keeps L P (P.stat dest_op)) λ info.
                      bind-Keeps L P (fresh-Keeps L P) λ id.
                        let f =
                          restored id u to_name (parent to_path) info.content_length
                            (P.mime to_name) "file" in
                        then-Keeps L P
                          (execute-Keeps L P (upsert_cloud_file f (set_size_mime f)) (L.restores f))
                          (then-Keeps L P
                            (forget-Keeps (λ (t : TrashItem).
                              is_item user_id original_dir from_name t && not t.is_dir))
                            (ignore-Keeps L P (perform-Keeps L P (P.delete blob_path))))))

  restore-Keeps :
      (username from_path from_name to_path to_name : String)
      → Keeps L P (restore P username from_path from_name to_path to_name)
  unfolding restore
  restore-Keeps username from_path from_name to_path to_name =
      let rel_parent = trash_rel (parent from_path) in
      bind-Keeps L P (owner_of-Keeps L P "Invalid to path" to_path) λ to_user.
        then-Keeps L P (require-Keeps L P (may_act username to_user) (forbidden "Access denied")) (
          bind-Keeps L P (user_id_of-Keeps L P username) λ user_id.
            let original_dir : String = if is_empty rel_parent then "/" else "/" <> rel_parent in
            bind-Keeps L P
              (query-Keeps L P (λ db. find (is_item user_id original_dir from_name) db.trash_items))
              λ found.
                bind-Keeps L P (expect-Keeps L P found (bad_request "Trash item not found")) λ item.
                  if-Keeps L P item.is_dir
                    (restore_directory-Keeps username to_user user_id rel_parent from_name to_path
                      original_dir)
                    (restore_file-Keeps username to_user user_id from_name original_dir to_path
                      to_name item.blob_hash))

  pub rename-Keeps :
      (username : String) (from to : Option String) → Keeps L P (rename P username from to)
  unfolding rename
  rename-Keeps username from to =
      bind-Keeps L P (expect-Keeps L P from (bad_request "Missing 'from' path")) λ from_virtual.
        bind-Keeps L P (expect-Keeps L P to (bad_request "Missing 'to' path")) λ to_virtual.
          let from_path = normalize_path from_virtual in
          let to_path = normalize_path to_virtual in
          bind-Keeps L P (expect-Keeps L P (file_name from_path) (bad_request "Invalid from path"))
            λ from_name.
              bind-Keeps L P (expect-Keeps L P (file_name to_path) (bad_request "Invalid to path"))
                λ to_name.
                  if-Keeps L P (starts_with from_path "/Trash")
                    (restore-Keeps username from_path from_name to_path to_name)
                    (if-Keeps L P
                      (starts_with from_path "/AppData" || starts_with to_path "/AppData")
                      (bind-Keeps L P (resolve-Keeps L P username from_path) λ from_op.
                        bind-Keeps L P (resolve-Keeps L P username to_path)
                          λ to_op. perform-Keeps L P (P.rename from_op to_op))
                      (rename_owned-Keeps L P username from_path from_name to_path to_name))
