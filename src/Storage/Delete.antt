-- ===== src/Storage/Delete.antt =====
-- `delete` of crates/storage/src/storage_service.rs.
pub mod Ends
pub mod Subtree
pub mod Kept
use nasserver.Base.{ℕ, String, Bool, true, false, ◌&&◌, ◌||◌, Option, [], ◌∷◌, if◌then◌else◌}
use nasserver.Base.Text.{◌<>◌, ◌=s=◌, starts_with}
use nasserver.Domain.{forbidden, bad_request, pure, fail, expect, require, ignore, ◌>>=◌, ◌>>◌}
use nasserver.Storage.Paths.{normalize_path, parent, file_name}
use nasserver.Storage.World.{CloudFile, Platform, Op, execute, inspect, perform}
use nasserver.Storage.Tables.{like, is_row, delete_cloud_files}
use nasserver.Storage.Access.{user_id_of, resolve_opendal_path}
use nasserver.Storage.Save.{may_act, write_target}
use nasserver.Storage.Reading.{trash_rel}
use nasserver.Storage.Trash.{
  hash_and_archive_file, upsert_trash_file_item, trash_directories, delete_trash_item_recursive,
}

-- `dir = $2 or dir like $3`
abbrev pub lies_under : String → String → CloudFile → Bool
lies_under user_id path f = f.user_id =s= user_id && (f.dir =s= path || like f.dir (path <> "/%"))

module _ (P : Platform) where
  -- Moves a directory into the trash and forgets its rows, if the loop ends.
  unfoldable pub delete_directory : ℕ → String → String → String → String → Op P Bool
  delete_directory fuel target user_id full_path name = do
    finished ← trash_directories P fuel target (full_path ∷ [])
    if finished
        then (do
          ignore (execute P (delete_cloud_files (lies_under user_id full_path)))
          ignore (execute P (delete_cloud_files (is_row user_id (parent full_path) name)))
          pure true)
        else pure false

  unfoldable pub delete_file : String → String → String → String → Op P (Unit {0})
  delete_file target user_id full_path name = do
    (hash, size) ← hash_and_archive_file P target full_path
    upsert_trash_file_item P target (parent full_path) name (P.mime name) hash size
    ignore (execute P (delete_cloud_files (is_row user_id (parent full_path) name)))

  -- A path outside "/AppData" and "/Trash".
  unfoldable pub delete_owned : ℕ → String → String → String → Op P Bool
  delete_owned fuel username full_path name = do
    target ← write_target P username full_path
    require (may_act username target) (forbidden "Access denied")
    user_id ← user_id_of P target
    op_src ← resolve_opendal_path P target full_path
    info ← inspect P (P.stat op_src)
    if info.is_dir
        then delete_directory fuel target user_id full_path name
        else (do delete_file target user_id full_path name; pure true)

  -- `delete`. The result is false if the fuel of the loop over a directory runs out.
  unfoldable pub delete : ℕ → String → Option String → Op P Bool
  delete fuel username path = do
    virtual_path ← expect path (bad_request "Missing path")
    let full_path = normalize_path virtual_path
    name ← expect (file_name full_path) (bad_request "Invalid path")
    if starts_with full_path "/AppData"
        then (do
          op_path ← resolve_opendal_path P username full_path
          perform P (P.remove_all op_path)
          pure true)
        else if full_path =s= "/Trash"
        then fail (bad_request "Cannot delete Trash root")
        else if starts_with full_path "/Trash/"
        then (do
          delete_trash_item_recursive P username (trash_rel (parent full_path)) name
          pure true)
        else delete_owned fuel username full_path name
