-- ===== src/Storage/Trash.antt =====
-- The trash: `hash_and_archive_file`, `upsert_trash_file_item`, `insert_trash_dir_item`,
-- `trash_directory_recursive` and `delete_trash_item_recursive` of
-- crates/storage/src/storage_service.rs.
use nasserver.Base.{
  ℕ, zero, suc, String, Bool, true, false, not, ◌&&◌, ◌||◌, Option, none, some, List, [], ◌∷◌, find,
  keep, if◌then◌else◌,
}
use nasserver.Base.Text.{◌<>◌, ◌=s=◌, strip_prefix, is_empty, ends_with_char}
use nasserver.Domain.{bad_request, ok, done, failed, pure, expect, require, ignore, ◌>>=◌, ◌>>◌}
use nasserver.Storage.Paths.{parent, file_name}
use nasserver.Storage.World.{
  TrashItem, Entry, Platform, Op, query, execute, fresh, inspect, perform,
}
use nasserver.Storage.Tables.{like, insert_trash_item, insert_trash_or_skip, delete_trash_items}
use nasserver.Storage.Access.{user_id_of, resolve_opendal_path}
use nasserver.Storage.Save.{ensure_parent}
use nasserver.Storage.Folders.{child_path}
use nasserver.Storage.Reading.{blob_base, root_or, is_item}

-- A path relative to the user's root, where it lies below it.
abbrev pub relative_to : String → String → String
relative_to root path = elim (strip_prefix path root) [ none ↦ path | some rel ↦ rel ]

-- The same in `trash_directory_recursive`, for the parent of a directory.
abbrev pub relative_parent : String → String → String
relative_parent root dir = if dir =s= root then "/" else relative_to root dir

-- Below a directory of the trash: `original_dir = $2 or original_dir like $3`.
abbrev pub is_under : String → String → TrashItem → Bool
is_under user_id base t =
    t.user_id =s= user_id && (t.original_dir =s= base || like t.original_dir (base <> "/%"))

-- `if let Some(hash) = blob_hash { let _ = self.op.delete(path of the blob) }`
abbrev pub drop_blob : (P : Platform) → String → Option String → Op P (Unit {0})
drop_blob P username none = pure tt
drop_blob P username (some hash) =
    ignore (perform P (P.delete (blob_base username <> ("/" <> hash))))

unfoldable pub drop_blobs : (P : Platform) → String → List TrashItem → Op P (Unit {0})
drop_blobs P username [] = pure tt
drop_blobs P username (t ∷ ts) = do drop_blob P username t.blob_hash; drop_blobs P username ts

module _ (P : Platform) where
  -- Moves a file into the blob store. The result is the blob's name and the size.
  unfoldable pub hash_and_archive_file : String → String → Op P (String × ℕ)
  hash_and_archive_file username virtual_path = do
    op_src ← resolve_opendal_path P username virtual_path
    info ← inspect P (P.stat op_src)
    require info.is_file (bad_request "Not a file")
    hash ← fresh P
    let dest_path = blob_base username <> ("/" <> hash)
    ensure_parent P dest_path
    perform P (P.rename op_src dest_path)
    pure (hash, info.content_length)

  -- `CURRENT_TIMESTAMP`, the default of `deleted_at`
  abbrev pub current_time : Op P ℕ
  current_time w = (ok (P.now w.tick), w)

  unfoldable pub upsert_trash_file_item :
      (username original_dir name mime hash : String) (size : ℕ) → Op P (Unit {0})
  upsert_trash_file_item username original_dir name mime hash size = do
    user_id ← user_id_of P username
    id ← fresh P
    now ← current_time
    execute P (
        insert_trash_item (record {
          id = id;
          user_id = user_id;
          name = name;
          original_dir = original_dir;
          is_dir = false;
          size = size;
          mime = mime;
          deleted_at = now;
          blob_hash = some hash;
        }))

  unfoldable pub insert_trash_dir_item : (username original_dir name : String) → Op P (Unit {0})
  insert_trash_dir_item username original_dir name = do
    user_id ← user_id_of P username
    id ← fresh P
    now ← current_time
    execute P (
        insert_trash_or_skip (record {
          id = id;
          user_id = user_id;
          name = name;
          original_dir = original_dir;
          is_dir = true;
          size = 0;
          mime = "inode/directory";
          deleted_at = now;
          blob_hash = none;
        }))

  -- One entry of a directory: a directory goes on the stack, a file into the trash.
  unfoldable pub trash_entry : String → String → List String → Entry → Op P (List String)
  trash_entry username curr stack e =
      if is_empty e.name || e.name =s= "."
      then pure stack
      else let child = child_path curr e.name in
        if e.metadata.is_dir then pure (child ∷ stack) else do
          (hash, size) ← hash_and_archive_file username child
          upsert_trash_file_item username (relative_to ("/User/" <> username) curr) e.name
              (P.mime e.name) hash size
          pure stack

  unfoldable pub trash_entries : String → String → List String → List Entry → Op P (List String)
  trash_entries username curr stack [] = pure stack
  trash_entries username curr stack (e ∷ es) = do
    stack' ← trash_entry username curr stack e
    trash_entries username curr stack' es

  -- `if let Ok(entries) = self.op.list(path)`: a listing that fails counts as empty.
  abbrev pub list_or_empty : String → Op P (List Entry)
  list_or_empty path w = elim (P.list path w.files) [ done es ↦ (ok es, w) | failed _ ↦ (ok [], w) ]

  -- One round of the loop: the directory `curr`, with the rest of the stack.
  unfoldable pub trash_round : String → String → List String → Op P (List String)
  trash_round username curr stack = do
    name ← expect (file_name curr) (bad_request "Invalid path")
    insert_trash_dir_item username (relative_parent ("/User/" <> username) (parent curr)) name
    src_op ← resolve_opendal_path P username curr
    entries ← list_or_empty (if ends_with_char b'/' src_op then src_op else src_op <> "/")
    stack' ← trash_entries username curr stack entries
    ignore (perform P (P.remove_all src_op))
    pure stack'

  -- The loop `while let Some(curr) = stack.pop()`, with its top at the head of the list. The result
  -- is false if the fuel runs out before the stack is empty.
  unfoldable pub trash_directories : ℕ → String → List String → Op P Bool
  trash_directories fuel username [] = pure true
  trash_directories zero username (curr ∷ stack) = pure false
  trash_directories (suc fuel) username (curr ∷ stack) = do
    stack' ← trash_round username curr stack
    trash_directories fuel username stack'

  -- `delete_trash_item_recursive`
  unfoldable pub delete_trash_item_recursive : String → String → String → Op P (Unit {0})
  delete_trash_item_recursive username rel_dir name = do
    user_id ← user_id_of P username
    row ← query P (λ db. find (is_item user_id (root_or rel_dir) name) db.trash_items)
    elim row [
      | none ↦ pure tt
      | some item ↦
          if item.is_dir
          then (do
            let base = if is_empty rel_dir then "/" <> name else rel_dir <> ("/" <> name)
            files ← query P (λ db.
                keep (λ (t : TrashItem). not t.is_dir && is_under user_id base t) db.trash_items)
            drop_blobs P username files
            ignore (execute P (delete_trash_items (is_under user_id base)))
            ignore (
                execute P (
                  delete_trash_items
                    (λ (t : TrashItem). is_item user_id (root_or rel_dir) name t && t.is_dir))))
          else (do
            ignore (
                execute P (
                  delete_trash_items
                    (λ (t : TrashItem). is_item user_id (root_or rel_dir) name t && not t.is_dir)))
            drop_blob P username item.blob_hash)
    ]
