-- ===== src/Storage/Effects/Bins.antt =====
-- What `delete` of crates/storage/src/storage_service.rs does to a path outside the trash.
use nasserver.Base.{
  ℕ, String, Bool, true, false, ◌||◌, none, some, List, [], ◌∷◌, arith, if◌then◌else◌,
}
use nasserver.Base.Text.{◌<>◌, ◌=s=◌, is_empty}
use nasserver.Domain.{ignore, forbidden, bad_request}
use nasserver.Storage.World.{CloudFile, TrashItem, Db, Platform, execute}
use nasserver.Storage.Paths.{parent, file_name}
use nasserver.Storage.Access.{}
use nasserver.Storage.Save.{may_act}
use nasserver.Storage.Folders.{child_path}
use nasserver.Storage.Effects.Operations.{user_id_of-Keeps, resolve-Keeps, ensure_parent-Keeps}
use nasserver.Storage.Reading.{blob_base}
use nasserver.Storage.Delete.{lies_under, delete_directory, delete_file, delete_owned}
use nasserver.Storage.World.{Entry}
use nasserver.Base.{zero, suc}
use nasserver.Base.Text.{ends_with_char}
use nasserver.Storage.Tables.{delete_cloud_files, is_row, insert_trash_item, insert_trash_or_skip}
use nasserver.Storage.Trash.{
  relative_to, relative_parent, hash_and_archive_file, current_time, upsert_trash_file_item,
  insert_trash_dir_item, trash_entry, trash_entries, list_or_empty, trash_round, trash_directories,
}
use nasserver.Storage.Effects.Operations.{write_target-Keeps}
use nasserver.Storage.Effects.{
  IsRespected, Keeps, pure-Keeps, bind-Keeps, then-Keeps, ignore-Keeps, require-Keeps, expect-Keeps,
  if-Keeps, execute-Keeps, fresh-Keeps, inspect-Keeps, perform-Keeps,
}

module _ {R : Db → Db → Type 0} (L : IsRespected R) (P : Platform) where
  hash_and_archive_file-Keeps :
      (username path : String) → Keeps L P (hash_and_archive_file P username path)
  unfolding hash_and_archive_file
  hash_and_archive_file-Keeps username path =
      bind-Keeps L P (resolve-Keeps L P username path) λ op_src.
        bind-Keeps L P (inspect-Keeps L P (P.stat op_src)) λ info.
          then-Keeps L P (require-Keeps L P info.is_file (bad_request "Not a file")) (
            bind-Keeps L P (fresh-Keeps L P) λ hash.
              let dest_path = blob_base username <> ("/" <> hash) in
              then-Keeps L P (ensure_parent-Keeps L P dest_path) (
                then-Keeps L P (perform-Keeps L P (P.rename op_src dest_path))
                  (pure-Keeps L P (hash, info.content_length))))

  pub current_time-Keeps : Keeps L P (current_time P)
  current_time-Keeps = record { run = λ w. L.same w.db }

  upsert_trash_file_item-Keeps :
      (username original_dir name mime hash : String) (size : ℕ)
      → Keeps L P (upsert_trash_file_item P username original_dir name mime hash size)
  unfolding upsert_trash_file_item
  upsert_trash_file_item-Keeps username original_dir name mime hash size =
      bind-Keeps L P (user_id_of-Keeps L P username) λ user_id.
        bind-Keeps L P (fresh-Keeps L P) λ id. bind-Keeps L P current_time-Keeps λ now.
          let t : TrashItem = record {
            id = id;
            user_id = user_id;
            name = name;
            original_dir = original_dir;
            is_dir = false;
            size = size;
            mime = mime;
            deleted_at = now;
            blob_hash = some hash;
          } in
          execute-Keeps L P (insert_trash_item t) (L.trashes t)

  insert_trash_dir_item-Keeps :
      (username original_dir name : String)
      → Keeps L P (insert_trash_dir_item P username original_dir name)
  unfolding insert_trash_dir_item
  insert_trash_dir_item-Keeps username original_dir name =
      bind-Keeps L P (user_id_of-Keeps L P username) λ user_id.
        bind-Keeps L P (fresh-Keeps L P) λ id. bind-Keeps L P current_time-Keeps λ now.
          let t : TrashItem = record {
            id = id;
            user_id = user_id;
            name = name;
            original_dir = original_dir;
            is_dir = true;
            size = 0;
            mime = "inode/directory";
            deleted_at = now;
            blob_hash = none;
          } in
          execute-Keeps L P (insert_trash_or_skip t) (L.trashes_dir t)

  trash_entry-Keeps :
      (username curr : String) (stack : List String) (e : Entry)
      → Keeps L P (trash_entry P username curr stack e)
  unfolding trash_entry
  trash_entry-Keeps username curr stack e =
      if-Keeps L P (is_empty e.name || e.name =s= ".") (pure-Keeps L P stack) (
        if-Keeps L P e.metadata.is_dir (pure-Keeps L P (child_path curr e.name ∷ stack)) (
          bind-Keeps L P (hash_and_archive_file-Keeps username (child_path curr e.name)) λ archived.
            then-Keeps L P
              (upsert_trash_file_item-Keeps username (relative_to ("/User/" <> username) curr)
                e.name (P.mime e.name) archived.0 archived.1)
              (pure-Keeps L P stack)))

  trash_entries-Keeps :
      (username curr : String) (stack : List String) (es : List Entry)
      → Keeps L P (trash_entries P username curr stack es)
  unfolding trash_entries
  trash_entries-Keeps username curr stack [] = pure-Keeps L P stack
  trash_entries-Keeps username curr stack (e ∷ es) =
      bind-Keeps L P (trash_entry-Keeps username curr stack e)
        λ stack'. trash_entries-Keeps username curr stack' es

  pub list_or_empty-Keeps : (path : String) → Keeps L P (list_or_empty P path)
  list_or_empty-Keeps path = record { run = λ w. ground (arith, L.same w.db) }

  trash_round-Keeps :
      (username curr : String) (stack : List String) → Keeps L P (trash_round P username curr stack)
  unfolding trash_round
  trash_round-Keeps username curr stack =
      bind-Keeps L P (expect-Keeps L P (file_name curr) (bad_request "Invalid path")) λ name.
        then-Keeps L P
          (insert_trash_dir_item-Keeps username
            (relative_parent ("/User/" <> username) (parent curr)) name)
          (bind-Keeps L P (resolve-Keeps L P username curr) λ src_op.
            bind-Keeps L P
              (list_or_empty-Keeps (if ends_with_char b'/' src_op then src_op else src_op <> "/"))
              λ entries. bind-Keeps L P (trash_entries-Keeps username curr stack entries) λ stack'.
                then-Keeps L P (ignore-Keeps L P (perform-Keeps L P (P.remove_all src_op)))
                  (pure-Keeps L P stack'))

  trash_directories-Keeps :
      (fuel : ℕ) (username : String) (stack : List String)
      → Keeps L P (trash_directories P fuel username stack)
  unfolding trash_directories
  trash_directories-Keeps zero username [] = pure-Keeps L P true
  trash_directories-Keeps (suc fuel) username [] = pure-Keeps L P true
  trash_directories-Keeps zero username (curr ∷ stack) = pure-Keeps L P false
  trash_directories-Keeps (suc fuel) username (curr ∷ stack) =
      bind-Keeps L P (trash_round-Keeps username curr stack)
        λ stack'. trash_directories-Keeps fuel username stack'

  forget_rows-Keeps : (p : CloudFile → Bool) → Keeps L P (ignore (execute P (delete_cloud_files p)))
  forget_rows-Keeps p = ignore-Keeps L P (execute-Keeps L P (delete_cloud_files p) (L.deletes p))

  delete_directory-Keeps :
      (fuel : ℕ) (target user_id full_path name : String)
      → Keeps L P (delete_directory P fuel target user_id full_path name)
  unfolding delete_directory
  delete_directory-Keeps fuel target user_id full_path name =
      bind-Keeps L P (trash_directories-Keeps fuel target (full_path ∷ [])) λ finished.
        if-Keeps L P finished
          (then-Keeps L P (forget_rows-Keeps (lies_under user_id full_path)) (
            then-Keeps L P (forget_rows-Keeps (is_row user_id (parent full_path) name))
              (pure-Keeps L P true)))
          (pure-Keeps L P false)

  delete_file-Keeps :
      (target user_id full_path name : String)
      → Keeps L P (delete_file P target user_id full_path name)
  unfolding delete_file
  delete_file-Keeps target user_id full_path name =
      bind-Keeps L P (hash_and_archive_file-Keeps target full_path) λ archived.
        then-Keeps L P
          (upsert_trash_file_item-Keeps target (parent full_path) name (P.mime name) archived.0
            archived.1)
          (forget_rows-Keeps (is_row user_id (parent full_path) name))

  pub delete_owned-Keeps :
      (fuel : ℕ) (username full_path name : String)
      → Keeps L P (delete_owned P fuel username full_path name)
  unfolding delete_owned
  delete_owned-Keeps fuel username full_path name =
      bind-Keeps L P (write_target-Keeps L P username full_path) λ target.
        then-Keeps L P (require-Keeps L P (may_act username target) (forbidden "Access denied")) (
          bind-Keeps L P (user_id_of-Keeps L P target) λ user_id.
            bind-Keeps L P (resolve-Keeps L P target full_path) λ op_src.
              bind-Keeps L P (inspect-Keeps L P (P.stat op_src)) λ info.
                if-Keeps L P info.is_dir (delete_directory-Keeps fuel target user_id full_path name)
                  (then-Keeps L P (delete_file-Keeps target user_id full_path name)
                    (pure-Keeps L P true)))
