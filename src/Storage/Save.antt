-- ===== src/Storage/Save.antt =====
-- `save_file`, `save_file_from_path` and `commit_blob_change` of
-- crates/storage/src/storage_service.rs.
pub mod Records
use nasserver.Base.{ℕ, String, Bool, ◌||◌, none, some, ◌∷◌, length, if◌then◌else◌}
use nasserver.Base.Text.{◌<>◌, ◌=s=◌, starts_with}
use nasserver.Domain.{forbidden, bad_request, pure, fail, require, ignore, ◌>>=◌, ◌>>◌}
use nasserver.Storage.Paths.{normalize_path, path_parts, parent, file_name, object_parent}
use nasserver.Storage.World.{CloudFile, Bytes, Platform, Op, execute, fresh, perform, inspect}
use nasserver.Storage.Tables.{upsert_cloud_file, set_content}
use nasserver.Storage.Access.{user_id_of, resolve_opendal_path}

-- May `username` act for `target`?
abbrev pub may_act : String → String → Bool
may_act username target = target =s= username || username =s= "admin"

-- `let _ = self.op.create_dir(parent of the path)`
abbrev pub ensure_parent : (P : Platform) → String → Op P (Unit {0})
ensure_parent P path = elim (object_parent path) [
  | none ↦ pure tt
  | some dir ↦ ignore (perform P (P.create_dir (dir <> "/")))
]

module _ (P : Platform) where
  -- Whose files a change below `path` touches. The same lines stand in `save_file`,
  -- `save_file_from_path` and `delete`.
  unfoldable pub write_target : String → String → Op P String
  write_target username path =
      if starts_with path "/System"
      then if username =s= "admin"
        then pure "admin"
        else fail (forbidden "Only admin can modify /System")
      else if starts_with path "/User/"
      then elim (path_parts path) [
        | root ∷ owner ∷ rest ↦ pure owner
        | _ ↦ fail (bad_request "Invalid path")
      ]
      else fail (bad_request "Invalid path")

  -- The row that is written, as `insert … on conflict (user_id, dir, name) do update`.
  unfoldable pub record_file : String → String → String → ℕ → Op P (Unit {0})
  record_file target dir name size = do
    user_id ← user_id_of P target
    id ← fresh P
    let f : CloudFile = record {
      id = id;
      user_id = user_id;
      name = name;
      dir = dir;
      size = size;
      mime = P.mime name;
      storage = "file";
    }
    execute P (upsert_cloud_file f (set_content f))

  -- `save_file`
  unfoldable pub save_file : String → String → String → Bytes → Op P (Unit {0})
  save_file username parent_virtual_path name bytes =
      let dir = normalize_path parent_virtual_path in
      if starts_with dir "/AppData"
      then (do
        op_path ← resolve_opendal_path P username dir
        perform P (P.write (op_path <> ("/" <> name)) bytes))
      else do
        target ← write_target username dir
        require (may_act username target) (forbidden "Access denied")
        op_path ← resolve_opendal_path P target dir
        let full_op_path = op_path <> ("/" <> name)
        ensure_parent P full_op_path
        perform P (P.write full_op_path bytes)
        record_file target dir name (length bytes)

  -- `save_file_from_path`: the bytes are those of a file of the server.
  unfoldable pub save_file_from_path : String → String → String → String → Op P (Unit {0})
  save_file_from_path username parent_virtual_path name temp_path =
      let dir = normalize_path parent_virtual_path in
      if starts_with dir "/AppData"
      then (do
        op_path ← resolve_opendal_path P username dir
        bytes ← inspect P (P.local temp_path)
        perform P (P.write (op_path <> ("/" <> name)) bytes))
      else do
        target ← write_target username dir
        require (may_act username target) (forbidden "Access denied")
        bytes ← inspect P (P.local temp_path)
        op_path ← resolve_opendal_path P target dir
        let full_op_path = op_path <> ("/" <> name)
        ensure_parent P full_op_path
        perform P (P.write full_op_path bytes)
        record_file target dir name (length bytes)

  -- `commit_blob_change`
  unfoldable pub commit_blob_change : String → String → String → Op P (Unit {0})
  commit_blob_change username virtual_path temp_path =
      let path = normalize_path virtual_path in
      elim (file_name path) [
        | none ↦ fail (bad_request "Invalid path")
        | some name ↦ save_file_from_path username (parent path) name temp_path
      ]
