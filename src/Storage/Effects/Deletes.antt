-- ===== src/Storage/Effects/Deletes.antt =====
-- `delete` and one round of `run_trash_purger` of crates/storage/src/storage_service.rs.
use nasserver.Base.{
  ℕ, String, true, not, ◌&&◌, Option, none, some, List, [], ◌∷◌, arith, if◌then◌else◌, find, keep,
}
use nasserver.Base.Text.{◌<>◌, ◌=s=◌, starts_with, is_empty}
use nasserver.Domain.{pure, ignore, ◌>>=◌, ◌>>◌, bad_request}
use nasserver.Storage.World.{TrashItem, Db, Platform, Op, query, execute}
use nasserver.Storage.Paths.{normalize_path, parent, file_name}
use nasserver.Storage.Access.{}
use nasserver.Storage.Effects.Operations.{user_id_of-Keeps, resolve-Keeps}
use nasserver.Storage.Trash.{is_under, drop_blob, drop_blobs}
use nasserver.Storage.Reading.{is_item, trash_rel, root_or}
use nasserver.Storage.Tables.{delete_trash_items}
use nasserver.Storage.Effects.Restores.{drop_blob-Keeps, drop_blobs-Keeps, forget-Keeps}
use nasserver.Storage.Delete.{delete}
use nasserver.Storage.Purge.{expired_rows, purge_rows, rows_or_none, purge}
use nasserver.Storage.Trash.{delete_trash_item_recursive}
use nasserver.Storage.Effects.Bins.{current_time-Keeps, delete_owned-Keeps}
use nasserver.Storage.Effects.{
  IsRespected, Keeps, pure-Keeps, fail-Keeps, bind-Keeps, then-Keeps, expect-Keeps, if-Keeps,
  query-Keeps, perform-Keeps,
}

module _ {R : Db → Db → Type 0} (L : IsRespected R) (P : Platform) where
  delete_trash_item_recursive-Keeps :
      (username rel_dir name : String)
      → Keeps L P (delete_trash_item_recursive P username rel_dir name)
  unfolding delete_trash_item_recursive
  delete_trash_item_recursive-Keeps username rel_dir name =
      bind-Keeps L P (user_id_of-Keeps L P username) λ user_id.
        bind-Keeps L P
          (query-Keeps L P (λ db. find (is_item user_id (root_or rel_dir) name) db.trash_items))
          (of_row user_id)
    where
      of_row :
          (user_id : String) (row : Option TrashItem)
          → Keeps L P {A = Unit {0}} (elim row [
            | none ↦ pure tt
            | some item ↦
                if item.is_dir
                then (do
                  let base = if is_empty rel_dir then "/" <> name else rel_dir <> ("/" <> name)
                  files ← query P (λ db.
                      keep
                        (λ (t : TrashItem). not t.is_dir && is_under user_id base t)
                        db.trash_items)
                  drop_blobs P username files
                  ignore (execute P (delete_trash_items (is_under user_id base)))
                  ignore (
                      execute P (
                        delete_trash_items (λ (t : TrashItem).
                          is_item user_id (root_or rel_dir) name t && t.is_dir))))
                else (do
                  ignore (
                      execute P (
                        delete_trash_items (λ (t : TrashItem).
                          is_item user_id (root_or rel_dir) name t && not t.is_dir)))
                  drop_blob P username item.blob_hash)
          ])
      of_row user_id none = pure-Keeps L P tt
      of_row user_id (some item) =
          let base : String = if is_empty rel_dir then "/" <> name else rel_dir <> ("/" <> name) in
          if-Keeps L P item.is_dir
            (bind-Keeps L P
              (query-Keeps L P (λ db.
                keep (λ (t : TrashItem). not t.is_dir && is_under user_id base t) db.trash_items))
              λ files. then-Keeps L P (drop_blobs-Keeps L P username files) (
                then-Keeps L P (forget-Keeps L P (is_under user_id base)) (
                  forget-Keeps L P
                    (λ (t : TrashItem). is_item user_id (root_or rel_dir) name t && t.is_dir))))
            (then-Keeps L P
              (forget-Keeps L P
                (λ (t : TrashItem). is_item user_id (root_or rel_dir) name t && not t.is_dir))
              (drop_blob-Keeps L P username item.blob_hash))

  pub delete-Keeps :
      (fuel : ℕ) (username : String) (path : Option String)
      → Keeps L P (delete P fuel username path)
  unfolding delete
  delete-Keeps fuel username path =
      bind-Keeps L P (expect-Keeps L P path (bad_request "Missing path")) λ virtual_path.
        let full_path = normalize_path virtual_path in
        bind-Keeps L P (expect-Keeps L P (file_name full_path) (bad_request "Invalid path")) λ name.
          if-Keeps L P (starts_with full_path "/AppData")
            (bind-Keeps L P (resolve-Keeps L P username full_path) λ op_path.
              then-Keeps L P (perform-Keeps L P (P.remove_all op_path)) (pure-Keeps L P true))
            (if-Keeps L P (full_path =s= "/Trash")
              (fail-Keeps L P (bad_request "Cannot delete Trash root"))
              (if-Keeps L P (starts_with full_path "/Trash/")
                (then-Keeps L P
                  (delete_trash_item_recursive-Keeps username (trash_rel (parent full_path)) name)
                  (pure-Keeps L P true))
                (delete_owned-Keeps L P fuel username full_path name)))

  purge_rows-Keeps : (rows : List (TrashItem × String)) → Keeps L P (purge_rows P rows)
  unfolding purge_rows
  purge_rows-Keeps [] = pure-Keeps L P tt
  purge_rows-Keeps ((t, username) ∷ rows) =
      then-Keeps L P
        (if-Keeps L P t.is_dir (pure-Keeps L P tt) (drop_blob-Keeps L P username t.blob_hash))
        (then-Keeps L P (forget-Keeps L P (λ (u : TrashItem). u.id =s= t.id))
          (purge_rows-Keeps rows))

  rows_or_none-Keeps :
      (m : Op P (List (TrashItem × String))) → Keeps L P m → Keeps L P (rows_or_none P m)
  rows_or_none-Keeps m h = record { run = λ w. ground (arith, h.run w) }

  pub purge-Keeps : Keeps L P (purge P)
  unfolding purge
  purge-Keeps = bind-Keeps L P (current_time-Keeps L P) λ now.
      bind-Keeps L P
        (rows_or_none-Keeps _ (query-Keeps L P (λ db. expired_rows now db.users db.trash_items)))
        λ rows. purge_rows-Keeps rows
