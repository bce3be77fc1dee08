-- ===== src/Storage/Restore.antt =====
-- The part of `rename` of crates/storage/src/storage_service.rs that takes an item out of the trash.
use nasserver.Base.{
  ℕ, String, not, ◌&&◌, Option, none, some, List, [], ◌∷◌, find, keep, if◌then◌else◌,
}
use nasserver.Base.Text.{◌<>◌, starts_with, strip_prefix, is_empty, trim_start_char}
use nasserver.Domain.{
  forbidden, bad_request, database, pure, fail, expect, require, ignore, ◌>>=◌, ◌>>◌,
}
use nasserver.Storage.Paths.{path_parts, parent}
use nasserver.Storage.World.{
  CloudFile, TrashItem, Platform, Op, query, execute, fresh, inspect, perform,
}
use nasserver.Storage.Tables.{insert_or_skip, upsert_cloud_file, set_size_mime, delete_trash_items}
use nasserver.Storage.Access.{user_id_of, resolve_opendal_path}
use nasserver.Storage.Save.{may_act, ensure_parent}
use nasserver.Storage.Folders.{child_path}
use nasserver.Storage.Reading.{blob_base, trash_rel, is_item}
use nasserver.Storage.Trash.{is_under, drop_blobs}

-- The row of a restored file or directory.
abbrev pub restored : String → String → String → String → ℕ → String → String → CloudFile
restored id user_id name dir size mime storage = record {
  id = id;
  user_id = user_id;
  name = name;
  dir = dir;
  size = size;
  mime = mime;
  storage = storage;
}

-- Where the items of a directory of the trash go.
abbrev pub dest_of : String → String → String → String
dest_of from_root to_path original_dir =
    let tail : String = elim (strip_prefix original_dir from_root) [
      | none ↦ ""
      | some rest ↦ rest
    ] in
    let rel_tail = trim_start_char b'/' tail in
    if is_empty rel_tail then to_path else child_path to_path rel_tail

module _ (P : Platform) where
  -- The user whose files a path of "/System" or "/User/<owner>" names.
  unfoldable pub owner_of : String → String → Op P String
  owner_of message path =
      if starts_with path "/System"
      then pure "admin"
      else if starts_with path "/User/"
      then elim (path_parts path) [
        | root ∷ owner ∷ rest ↦ pure owner
        | _ ↦ fail (bad_request message)
      ]
      else fail (bad_request message)

  unfoldable pub restore_dir_row : (to_user dest_parent name : String) → Op P (Unit {0})
  restore_dir_row to_user dest_parent name = do
    let dest_virtual = child_path dest_parent name
    op_dir ← resolve_opendal_path P to_user dest_virtual
    ignore (perform P (P.create_dir (op_dir <> "/")))
    u ← user_id_of P to_user
    id ← fresh P
    ignore (
        execute P
          (insert_or_skip (restored id u name (parent dest_virtual) 0 "inode/directory" "virtual")))

  unfoldable pub restore_file_row :
      (username to_user dest_parent name hash : String) (size : ℕ) → Op P (Unit {0})
  restore_file_row username to_user dest_parent name hash size = do
    dest_op ← resolve_opendal_path P to_user (child_path dest_parent name)
    ensure_parent P dest_op
    bytes ← inspect P (P.read (blob_base username <> ("/" <> hash)))
    perform P (P.write dest_op bytes)
    u ← user_id_of P to_user
    id ← fresh P
    let f = restored id u name dest_parent size (P.mime name) "file"
    ignore (execute P (upsert_cloud_file f (set_size_mime f)))

  unfoldable pub restore_row :
      (username to_user from_root to_path : String) → TrashItem → Op P (Unit {0})
  restore_row username to_user from_root to_path t =
      let dest_parent = dest_of from_root to_path t.original_dir in
      if t.is_dir then restore_dir_row to_user dest_parent t.name else elim t.blob_hash [
        | none ↦ pure tt
        | some hash ↦ restore_file_row username to_user dest_parent t.name hash t.size
      ]

  unfoldable pub restore_rows :
      (username to_user from_root to_path : String) → List TrashItem → Op P (Unit {0})
  restore_rows username to_user from_root to_path [] = pure tt
  restore_rows username to_user from_root to_path (t ∷ ts) = do
    restore_row username to_user from_root to_path t
    restore_rows username to_user from_root to_path ts

  unfoldable pub restore_directory :
      (username to_user user_id rel_parent from_name to_path original_dir : String)
      → Op P (Unit {0})
  restore_directory username to_user user_id rel_parent from_name to_path original_dir = do
    let from_root =
        if is_empty rel_parent then "/" <> from_name else rel_parent <> ("/" <> from_name)
    to_op_parent ← resolve_opendal_path P to_user (parent to_path)
    ignore (perform P (P.create_dir (to_op_parent <> "/")))
    rows ← query P (λ db. P.order_by_dir (keep (is_under user_id from_root) db.trash_items))
    restore_rows username to_user from_root to_path rows
    drop_blobs P username (keep (λ (t : TrashItem). not t.is_dir) rows)
    ignore (execute P (delete_trash_items (is_under user_id from_root)))
    ignore (
        execute P (
          delete_trash_items
            (λ (t : TrashItem). is_item user_id original_dir from_name t && t.is_dir)))

  unfoldable pub restore_file :
      (username to_user user_id from_name original_dir to_path to_name : String)
      → Option String
      → Op P (Unit {0})
  restore_file username to_user user_id from_name original_dir to_path to_name blob_hash = do
    hash ← expect blob_hash (database "blob hash missing")
    let blob_path = blob_base username <> ("/" <> hash)
    bytes ← inspect P (P.read blob_path)
    dest_op_parent ← resolve_opendal_path P to_user (parent to_path)
    ignore (perform P (P.create_dir (dest_op_parent <> "/")))
    dest_op ← resolve_opendal_path P to_user to_path
    perform P (P.write dest_op bytes)
    u ← user_id_of P to_user
    info ← inspect P (P.stat dest_op)
    id ← fresh P
    let f = restored id u to_name (parent to_path) info.content_length (P.mime to_name) "file"
    execute P (upsert_cloud_file f (set_size_mime f))
    ignore (
        execute P (
          delete_trash_items
            (λ (t : TrashItem). is_item user_id original_dir from_name t && not t.is_dir)))
    ignore (perform P (P.delete blob_path))

  -- The branch of `rename` for a path that starts with "/Trash".
  unfoldable pub restore : (username from_path from_name to_path to_name : String) → Op P (Unit {0})
  restore username from_path from_name to_path to_name = do
    let rel_parent = trash_rel (parent from_path)
    to_user ← owner_of "Invalid to path" to_path
    require (may_act username to_user) (forbidden "Access denied")
    user_id ← user_id_of P username
    let original_dir = if is_empty rel_parent then "/" else "/" <> rel_parent
    found ← query P (λ db. find (is_item user_id original_dir from_name) db.trash_items)
    item ← expect found (bad_request "Trash item not found")
    if item.is_dir
        then restore_directory username to_user user_id rel_parent from_name to_path original_dir
        else restore_file username to_user user_id from_name original_dir to_path to_name
            item.blob_hash
