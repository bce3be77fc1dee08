-- ===== src/Storage/Effects/Operations.antt =====
-- Resolving, saving, making directories and moving.
use nasserver.Base.{ℕ, String, ap, true, ◌||◌, Option, none, some, List, [], ◌∷◌, ltb, length}
use nasserver.Base.Text.{◌<>◌, ◌=s=◌, starts_with}
use nasserver.Domain.{Error, pure, fail, ignore, ◌>>=◌, ◌>>◌, forbidden, bad_request, database}
use nasserver.Storage.World.{CloudFile, User, Db, Bytes, Platform, World, Op, perform}
use nasserver.Storage.Tables.{upsert_cloud_file, set_content}
use nasserver.Storage.Paths.{normalize_path, path_parts, object_parent}
use nasserver.Storage.Access.{
  permissions, user_id_of, check_app_access, resolve_app_data, resolve_user, resolve_clean,
  resolve_opendal_path,
}
use nasserver.Storage.Save.{
  may_act, ensure_parent, write_target, record_file, save_file, save_file_from_path,
}
use nasserver.Storage.Effects.{
  IsRespected, Keeps, still-Keeps, pure-Keeps, fail-Keeps, bind-Keeps, then-Keeps, ignore-Keeps,
  require-Keeps, if-Keeps, query-Keeps, execute-Keeps, fresh-Keeps, inspect-Keeps, perform-Keeps,
}
use nasserver.Storage.Access.Reads.{resolve_trash_still}

module _ {R : Db → Db → Type 0} (L : IsRespected R) (P : Platform) where
  pub user_id_of-Keeps : (username : String) → Keeps L P (user_id_of P username)
  unfolding user_id_of
  user_id_of-Keeps username = bind-Keeps L P (query-Keeps L P _) found
    where
      found :
          (o : Option User)
          → Keeps L P (elim o as (λ _. Op P String) [
            | none ↦ fail (database P.row_not_found)
            | some u ↦ pure u.id
          ])
      found none = fail-Keeps L P (database P.row_not_found)
      found (some u) = pure-Keeps L P u.id

  pub check_app_access-Keeps : (username app : String) → Keeps L P (check_app_access P username app)
  unfolding check_app_access
  check_app_access-Keeps username app = if-Keeps L P (username =s= "admin") (pure-Keeps L P true) (
      bind-Keeps L P (query-Keeps L P (permissions app username))
        (λ count. pure-Keeps L P (ltb 0 count)))

  resolve_app_data-Keeps :
      (username : String) (parts : List String) → Keeps L P (resolve_app_data P username parts)
  unfolding resolve_app_data
  resolve_app_data-Keeps username [] = pure-Keeps L P _
  resolve_app_data-Keeps username (x ∷ []) = pure-Keeps L P _
  resolve_app_data-Keeps username (x ∷ app ∷ rest) =
      bind-Keeps L P (check_app_access-Keeps username app)
        (λ allowed. then-Keeps L P (require-Keeps L P allowed _) (pure-Keeps L P _))

  resolve_user-Keeps : (parts : List String) → Keeps L P (resolve_user P parts)
  unfolding resolve_user
  resolve_user-Keeps [] = fail-Keeps L P _
  resolve_user-Keeps (x ∷ []) = fail-Keeps L P _
  resolve_user-Keeps (x ∷ owner ∷ rest) = pure-Keeps L P _

  resolve_clean-Keeps : (username path : String) → Keeps L P (resolve_clean P username path)
  unfolding resolve_clean
  resolve_clean-Keeps username path =
      if-Keeps L P (starts_with path "/AppData/")
        (resolve_app_data-Keeps username (path_parts path))
        (if-Keeps L P (path =s= "/AppData") (pure-Keeps L P _) (
          if-Keeps L P (starts_with path "/System/" || path =s= "/System") (pure-Keeps L P _) (
            if-Keeps L P (starts_with path "/Trash/" || path =s= "/Trash")
              (still-Keeps L P
                (λ w. ap (λ (v : World P). v.db) (resolve_trash_still P username path w)))
              (if-Keeps L P (starts_with path "/User/") (resolve_user-Keeps (path_parts path))
                (pure-Keeps L P _)))))

  pub resolve-Keeps : (username path : String) → Keeps L P (resolve_opendal_path P username path)
  unfolding resolve_opendal_path
  resolve-Keeps username path = resolve_clean-Keeps username (normalize_path path)

  pub ensure_parent-Keeps : (path : String) → Keeps L P (ensure_parent P path)
  ensure_parent-Keeps path = go (object_parent path)
    where
      go :
          (o : Option String)
          → Keeps L P (elim o as (λ _. Op P (Unit {0})) [
            | none ↦ pure tt
            | some dir ↦ ignore (perform P (P.create_dir (dir <> "/")))
          ])
      go none = pure-Keeps L P tt
      go (some dir) = ignore-Keeps L P (perform-Keeps L P (P.create_dir (dir <> "/")))

  -- The owner that a path names.
  owner-Keeps :
      (e : Error) (parts : List String)
      → Keeps L P {A = String} (elim parts [ root ∷ owner ∷ rest ↦ pure owner | _ ↦ fail e ])
  owner-Keeps e [] = fail-Keeps L P e
  owner-Keeps e (x ∷ []) = fail-Keeps L P e
  owner-Keeps e (x ∷ y ∷ rest) = pure-Keeps L P y

  pub write_target-Keeps : (username path : String) → Keeps L P (write_target P username path)
  unfolding write_target
  write_target-Keeps username path =
      if-Keeps L P (starts_with path "/System")
        (if-Keeps L P (username =s= "admin") (pure-Keeps L P "admin")
          (fail-Keeps L P (forbidden "Only admin can modify /System")))
        (if-Keeps L P (starts_with path "/User/")
          (owner-Keeps (bad_request "Invalid path") (path_parts path))
          (fail-Keeps L P (bad_request "Invalid path")))

  record_file-Keeps :
      (target dir name : String) (size : ℕ) → Keeps L P (record_file P target dir name size)
  unfolding record_file
  record_file-Keeps target dir name size = bind-Keeps L P (user_id_of-Keeps target) λ user_id.
      bind-Keeps L P (fresh-Keeps L P) λ id.
        let f : CloudFile = record {
          id = id;
          user_id = user_id;
          name = name;
          dir = dir;
          size = size;
          mime = P.mime name;
          storage = "file";
        } in
        execute-Keeps L P (upsert_cloud_file f (set_content f)) (L.saves f)

  -- The bytes are written where the path leads, and their row is recorded.
  store-Keeps :
      (target dir name : String) (bytes : Bytes)
      → Keeps L P (do
        op_path ← resolve_opendal_path P target dir
        let full_op_path = op_path <> ("/" <> name)
        ensure_parent P full_op_path
        perform P (P.write full_op_path bytes)
        record_file P target dir name (length bytes))
  store-Keeps target dir name bytes = bind-Keeps L P (resolve-Keeps target dir) λ op_path.
      then-Keeps L P (ensure_parent-Keeps _)
        (then-Keeps L P (perform-Keeps L P _) (record_file-Keeps target dir name (length bytes)))

  pub save_file-Keeps :
      (username path name : String) (bytes : Bytes)
      → Keeps L P (save_file P username path name bytes)
  unfolding save_file
  save_file-Keeps username path name bytes =
      if-Keeps L P (starts_with (normalize_path path) "/AppData")
        (bind-Keeps L P (resolve-Keeps username (normalize_path path))
          λ op_path. perform-Keeps L P _)
        (bind-Keeps L P (write_target-Keeps username (normalize_path path)) λ target.
          then-Keeps L P (require-Keeps L P (may_act username target) _)
            (store-Keeps target (normalize_path path) name bytes))

  pub save_file_from_path-Keeps :
      (username path name temp : String) → Keeps L P (save_file_from_path P username path name temp)
  unfolding save_file_from_path
  save_file_from_path-Keeps username path name temp =
      if-Keeps L P (starts_with (normalize_path path) "/AppData")
        (bind-Keeps L P (resolve-Keeps username (normalize_path path)) λ op_path.
          bind-Keeps L P (inspect-Keeps L P (P.local temp))
            λ bytes. perform-Keeps L P (P.write (op_path <> ("/" <> name)) bytes))
        (bind-Keeps L P (write_target-Keeps username (normalize_path path)) λ target.
          then-Keeps L P (require-Keeps L P (may_act username target) (forbidden "Access denied")) (
            bind-Keeps L P (inspect-Keeps L P (P.local temp))
              λ bytes. store-Keeps target (normalize_path path) name bytes))
