-- ===== src/Storage/Effects/Moves.antt =====
-- `mkdir` of crates/storage/src/storage_service.rs, and the branch of `rename` for a user's own paths.
use nasserver.Base.{String, not, List, [], ◌∷◌}
use nasserver.Base.Text.{◌<>◌, ◌=s=◌, starts_with}
use nasserver.Domain.{pure, fail, require, ◌>>◌, forbidden, bad_request}
use nasserver.Storage.World.{CloudFile, Db, Platform}
use nasserver.Storage.Tables.{insert_cloud_file}
use nasserver.Storage.Paths.{normalize_path, path_parts, parent, file_name}
use nasserver.Storage.Access.{}
use nasserver.Storage.Save.{may_act}
use nasserver.Storage.Folders.{child_path, mkdir_target, mkdir}
use nasserver.Storage.Effects.Operations.{user_id_of-Keeps, resolve-Keeps, ensure_parent-Keeps}
use nasserver.Storage.Rename.{move_row, move_children, move_descendants, rename_owned}
use nasserver.Storage.Restore.{owner_of}
use nasserver.Storage.Effects.{
  IsRespected, Keeps, pure-Keeps, fail-Keeps, bind-Keeps, then-Keeps, require-Keeps, expect-Keeps,
  if-Keeps, execute-Keeps, fresh-Keeps, perform-Keeps,
}

module _ {R : Db → Db → Type 0} (L : IsRespected R) (P : Platform) where
  mkdir_target-Keeps : (username path : String) → Keeps L P (mkdir_target P username path)
  unfolding mkdir_target
  mkdir_target-Keeps username path =
      if-Keeps L P (starts_with path "/System")
        (then-Keeps L P
          (require-Keeps L P (username =s= "admin") (forbidden "Only admin can modify /System"))
          (then-Keeps L P
            (require-Keeps L P (not (path =s= "/System")) (bad_request "Cannot create system root"))
            (pure-Keeps L P "admin")))
        (if-Keeps L P (starts_with path "/User/") (of_parts (path_parts path))
          (fail-Keeps L P (bad_request "Invalid path")))
    where
      of_parts :
          (parts : List String)
          → Keeps L P {A = String} (elim parts [
            | root ∷ owner ∷ [] ↦ do
              require (may_act username owner) (forbidden "Access denied")
              fail (bad_request "Cannot create user root")
            | root ∷ owner ∷ x ∷ rest ↦ do
              require (may_act username owner) (forbidden "Access denied")
              pure owner
            | _ ↦ fail (bad_request "Invalid path")
          ])
      of_parts [] = fail-Keeps L P (bad_request "Invalid path")
      of_parts (x ∷ []) = fail-Keeps L P (bad_request "Invalid path")
      of_parts (x ∷ owner ∷ []) =
          then-Keeps L P (require-Keeps L P (may_act username owner) (forbidden "Access denied"))
            (fail-Keeps L P (bad_request "Cannot create user root"))
      of_parts (x ∷ owner ∷ y ∷ rest) =
          then-Keeps L P (require-Keeps L P (may_act username owner) (forbidden "Access denied"))
            (pure-Keeps L P owner)

  pub mkdir-Keeps : (username path : String) → Keeps L P (mkdir P username path)
  unfolding mkdir
  mkdir-Keeps username path =
      let full_path = normalize_path path in
      bind-Keeps L P (expect-Keeps L P (file_name full_path) (bad_request "Invalid path")) λ name.
        if-Keeps L P (starts_with full_path "/AppData")
          (bind-Keeps L P (resolve-Keeps L P username full_path)
            λ op_path. perform-Keeps L P (P.create_dir (op_path <> "/")))
          (bind-Keeps L P (mkdir_target-Keeps username full_path) λ target.
            bind-Keeps L P (user_id_of-Keeps L P target) λ user_id.
              bind-Keeps L P (fresh-Keeps L P) λ id.
                let f : CloudFile = record {
                  id = id;
                  user_id = user_id;
                  name = name;
                  dir = parent full_path;
                  size = 0;
                  mime = "inode/directory";
                  storage = "virtual";
                } in
                then-Keeps L P (execute-Keeps L P (insert_cloud_file f) (L.inserts f)) (
                  bind-Keeps L P (resolve-Keeps L P target (child_path (parent full_path) name))
                    λ op_path. perform-Keeps L P (P.create_dir (op_path <> "/"))))

  pub owner_of-Keeps : (message path : String) → Keeps L P (owner_of P message path)
  unfolding owner_of
  owner_of-Keeps message path = if-Keeps L P (starts_with path "/System") (pure-Keeps L P "admin") (
      if-Keeps L P (starts_with path "/User/") (of_parts (path_parts path))
        (fail-Keeps L P (bad_request message)))
    where
      of_parts :
          (parts : List String)
          → Keeps L P {A = String}
              (elim parts [ root ∷ owner ∷ rest ↦ pure owner | _ ↦ fail (bad_request message) ])
      of_parts [] = fail-Keeps L P (bad_request message)
      of_parts (x ∷ []) = fail-Keeps L P (bad_request message)
      of_parts (x ∷ owner ∷ rest) = pure-Keeps L P owner

  pub rename_owned-Keeps :
      (username from_path from_name to_path to_name : String)
      → Keeps L P (rename_owned P username from_path from_name to_path to_name)
  unfolding rename_owned move_row move_children move_descendants
  rename_owned-Keeps username from_path from_name to_path to_name =
      bind-Keeps L P (owner_of-Keeps "Invalid from path" from_path) λ from_user.
        bind-Keeps L P (owner_of-Keeps "Invalid to path" to_path) λ to_user.
          then-Keeps L P
            (require-Keeps L P (from_user =s= to_user)
              (forbidden "Cannot move files between different users/system"))
            (then-Keeps L P
              (require-Keeps L P (may_act username from_user) (forbidden "Access denied"))
              (bind-Keeps L P (resolve-Keeps L P from_user from_path) λ from_op.
                bind-Keeps L P (resolve-Keeps L P to_user to_path) λ to_op.
                  then-Keeps L P (ensure_parent-Keeps L P to_op) (
                    then-Keeps L P (perform-Keeps L P (P.rename from_op to_op)) (
                      bind-Keeps L P (user_id_of-Keeps L P from_user) λ user_id.
                        then-Keeps L P
                          (execute-Keeps L P
                            (move_row user_id (parent from_path) from_name (parent to_path) to_name)
                            (L.updates _ _))
                          (then-Keeps L P
                            (execute-Keeps L P (move_children user_id from_path to_path)
                              (L.updates _ _))
                            (execute-Keeps L P (move_descendants user_id from_path to_path)
                              (L.updates _ _)))))))
