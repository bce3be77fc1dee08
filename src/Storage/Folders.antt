-- ===== src/Storage/Folders.antt =====
-- `mkdir` of crates/storage/src/storage_service.rs.
use nasserver.Base.{String, not, [], ◌∷◌, if◌then◌else◌}
use nasserver.Base.Text.{◌<>◌, ◌=s=◌, starts_with}
use nasserver.Domain.{forbidden, bad_request, pure, fail, expect, require, ◌>>=◌, ◌>>◌}
use nasserver.Storage.Paths.{normalize_path, path_parts, parent, file_name}
use nasserver.Storage.World.{Platform, Op, execute, fresh, perform}
use nasserver.Storage.Tables.{insert_cloud_file}
use nasserver.Storage.Access.{user_id_of, resolve_opendal_path}
use nasserver.Storage.Save.{may_act}

abbrev pub child_path : String → String → String
child_path dir name = if dir =s= "/" then "/" <> name else dir <> ("/" <> name)

module _ (P : Platform) where
  -- The owner of a new directory at `path`.
  unfoldable pub mkdir_target : String → String → Op P String
  mkdir_target username path =
      if starts_with path "/System"
      then (do
        require (username =s= "admin") (forbidden "Only admin can modify /System")
        require (not (path =s= "/System")) (bad_request "Cannot create system root")
        pure "admin")
      else if starts_with path "/User/"
      then elim (path_parts path) [
        | root ∷ owner ∷ [] ↦ do
          require (may_act username owner) (forbidden "Access denied")
          fail (bad_request "Cannot create user root")
        | root ∷ owner ∷ x ∷ rest ↦ do
          require (may_act username owner) (forbidden "Access denied")
          pure owner
        | _ ↦ fail (bad_request "Invalid path")
      ]
      else fail (bad_request "Invalid path")

  unfoldable pub mkdir : String → String → Op P (Unit {0})
  mkdir username path = do
    let full_path = normalize_path path
    name ← expect (file_name full_path) (bad_request "Invalid path")
    if starts_with full_path "/AppData"
        then (do
          op_path ← resolve_opendal_path P username full_path
          perform P (P.create_dir (op_path <> "/")))
        else do
          target ← mkdir_target username full_path
          user_id ← user_id_of P target
          id ← fresh P
          execute P (
              insert_cloud_file (record {
                id = id;
                user_id = user_id;
                name = name;
                dir = parent full_path;
                size = 0;
                mime = "inode/directory";
                storage = "virtual";
              }))
          op_path ← resolve_opendal_path P target (child_path (parent full_path) name)
          perform P (P.create_dir (op_path <> "/"))
