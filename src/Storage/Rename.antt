-- ===== src/Storage/Rename.antt =====
-- `rename` of crates/storage/src/storage_service.rs.
use Prim.Native.String.{count}
use nasserver.Base.{String, ◌&&◌, ◌||◌, Option, if◌then◌else◌}
use nasserver.Base.Text.{◌<>◌, ◌=s=◌, starts_with}
use nasserver.Domain.{forbidden, bad_request, expect, require, ◌>>=◌, ◌>>◌}
use nasserver.Storage.Paths.{normalize_path, parent, file_name}
use nasserver.Storage.World.{CloudFile, Db, Platform, Op, execute, perform}
use nasserver.Storage.Tables.{like, is_row, update_cloud_files, substring_from}
use nasserver.Storage.Access.{user_id_of, resolve_opendal_path}
use nasserver.Storage.Save.{may_act, ensure_parent}
use nasserver.Storage.Restore.{owner_of, restore}

-- `set name = $1, dir = $2 where user_id = $3 and dir = $4 and name = $5`
unfoldable pub move_row : (user_id from_dir from_name to_dir to_name : String) → Db → Option Db
move_row user_id from_dir from_name to_dir to_name =
    update_cloud_files (is_row user_id from_dir from_name)
      (λ (f : CloudFile). record f { name = to_name; dir = to_dir })

-- `set dir = $1 where user_id = $2 and dir = $3`
unfoldable pub move_children : (user_id from_path to_path : String) → Db → Option Db
move_children user_id from_path to_path =
    update_cloud_files (λ (f : CloudFile). f.user_id =s= user_id && f.dir =s= from_path)
      (λ (f : CloudFile). record f { dir = to_path })

-- `set dir = $1 || substring(dir from length($2) + 1) where user_id = $3 and dir like $4`
unfoldable pub move_descendants : (user_id from_path to_path : String) → Db → Option Db
move_descendants user_id from_path to_path =
    update_cloud_files (λ (f : CloudFile). f.user_id =s= user_id && like f.dir (from_path <> "/%"))
      (λ (f : CloudFile). record f { dir = to_path <> substring_from (count from_path) f.dir })

module _ (P : Platform) where
  -- The last branch: both paths belong to one user.
  unfoldable pub rename_owned :
      (username from_path from_name to_path to_name : String) → Op P (Unit {0})
  rename_owned username from_path from_name to_path to_name = do
    from_user ← owner_of P "Invalid from path" from_path
    to_user ← owner_of P "Invalid to path" to_path
    require (from_user =s= to_user) (forbidden "Cannot move files between different users/system")
    require (may_act username from_user) (forbidden "Access denied")
    from_op ← resolve_opendal_path P from_user from_path
    to_op ← resolve_opendal_path P to_user to_path
    ensure_parent P to_op
    perform P (P.rename from_op to_op)
    user_id ← user_id_of P from_user
    execute P (move_row user_id (parent from_path) from_name (parent to_path) to_name)
    execute P (move_children user_id from_path to_path)
    execute P (move_descendants user_id from_path to_path)

  -- `rename`
  unfoldable pub rename : String → Option String → Option String → Op P (Unit {0})
  rename username from to = do
    from_virtual ← expect from (bad_request "Missing 'from' path")
    to_virtual ← expect to (bad_request "Missing 'to' path")
    let from_path = normalize_path from_virtual
    let to_path = normalize_path to_virtual
    from_name ← expect (file_name from_path) (bad_request "Invalid from path")
    to_name ← expect (file_name to_path) (bad_request "Invalid to path")
    if starts_with from_path "/Trash"
        then restore P username from_path from_name to_path to_name
        else if starts_with from_path "/AppData" || starts_with to_path "/AppData"
        then (do
          from_op ← resolve_opendal_path P username from_path
          to_op ← resolve_opendal_path P username to_path
          perform P (P.rename from_op to_op))
        else rename_owned username from_path from_name to_path to_name
