-- ===== src/Storage/Effects/Readings.antt =====
-- Reading paths and directories.
use nasserver.Base.{ℕ, String, ◌||◌, Option, none, List, [], ◌∷◌, ◌++◌, if◌then◌else◌}
use nasserver.Base.Text.{◌<>◌, ◌=s=◌, is_empty, starts_with, ends_with_char}
use nasserver.Domain.{pure, fail, require, ◌>>◌, forbidden, bad_request}
use nasserver.Storage.World.{Entry, Db, Platform, Op}
use nasserver.Storage.Paths.{normalize_path, path_parts}
use nasserver.Storage.Save.{may_act}
use nasserver.Storage.Reading.{check_owner, get_file_path}
use nasserver.Storage.Effects.Bins.{list_or_empty-Keeps}
use nasserver.Storage.Listing.{
  DocsEntry, directory_mime, complete, or_default, list_trash_dir, app_data_entry, app_data_entries,
  list_app_data, list_target, list_page, list_users, list,
}
use nasserver.Storage.Effects.{
  IsRespected, Keeps, pure-Keeps, fail-Keeps, bind-Keeps, then-Keeps, require-Keeps, if-Keeps,
  query-Keeps, fresh-Keeps,
}
use nasserver.Storage.Effects.Operations.{user_id_of-Keeps, check_app_access-Keeps, resolve-Keeps}

module _ {R : Db → Db → Type 0} (L : IsRespected R) (P : Platform) where
  -- A check of the owner that a path names, and what follows it.
  owned-Keeps :
      {A : Type 0} (username : String) (parts : List String) (k : String → Op P A)
      → ((owner : String) → Keeps L P (k owner))
      → Keeps L P {A = A} (elim parts [
        | root ∷ owner ∷ rest ↦
            require (may_act username owner) (forbidden "Access denied") >> k owner
        | _ ↦ fail (bad_request "Invalid path")
      ])
  owned-Keeps username [] k next = fail-Keeps L P (bad_request "Invalid path")
  owned-Keeps username (x ∷ []) k next = fail-Keeps L P (bad_request "Invalid path")
  owned-Keeps username (x ∷ owner ∷ rest) k next =
      then-Keeps L P (require-Keeps L P (may_act username owner) (forbidden "Access denied"))
        (next owner)

  parts-Keeps :
      (username : String) (parts : List String)
      → Keeps L P {A = Unit {0}} (elim parts [
        | root ∷ owner ∷ rest ↦ require (may_act username owner) (forbidden "Access denied")
        | _ ↦ fail (bad_request "Invalid path")
      ])
  parts-Keeps username [] = fail-Keeps L P (bad_request "Invalid path")
  parts-Keeps username (x ∷ []) = fail-Keeps L P (bad_request "Invalid path")
  parts-Keeps username (x ∷ owner ∷ rest) =
      require-Keeps L P (may_act username owner) (forbidden "Access denied")

  pub check_owner-Keeps : (username path : String) → Keeps L P (check_owner P username path)
  unfolding check_owner
  check_owner-Keeps username path =
      if-Keeps L P (starts_with path "/User/") (parts-Keeps username (path_parts path))
        (pure-Keeps L P tt)

  pub get_file_path-Keeps :
      (root username path : String) → Keeps L P (get_file_path P root username path)
  unfolding get_file_path
  get_file_path-Keeps root username path =
      then-Keeps L P (check_owner-Keeps username (normalize_path path)) (
        bind-Keeps L P (resolve-Keeps L P username (normalize_path path))
          λ op_path. pure-Keeps L P _)

  list_trash_dir-Keeps : (username rel : String) → Keeps L P (list_trash_dir P username rel)
  unfolding list_trash_dir
  list_trash_dir-Keeps username rel =
      bind-Keeps L P (user_id_of-Keeps L P username)
        λ user_id. bind-Keeps L P (query-Keeps L P _) λ rows. pure-Keeps L P _

  list_target-Keeps : (username dir : String) → Keeps L P (list_target P username dir)
  unfolding list_target
  list_target-Keeps username dir =
      if-Keeps L P (starts_with dir "/System") (pure-Keeps L P "admin") (
        if-Keeps L P (starts_with dir "/User/")
          (owned-Keeps username (path_parts dir) (λ owner. pure owner)
            (λ owner. pure-Keeps L P owner))
          (fail-Keeps L P (bad_request "Invalid path")))

  list_page-Keeps :
      (username dir : String) (limit offset : ℕ) → Keeps L P (list_page P username dir limit offset)
  unfolding list_page
  list_page-Keeps username dir limit offset =
      bind-Keeps L P (list_target-Keeps username dir) λ target.
        bind-Keeps L P (user_id_of-Keeps L P target) λ user_id.
          bind-Keeps L P (query-Keeps L P _)
            λ rows. bind-Keeps L P (query-Keeps L P _) λ total. pure-Keeps L P _

  list_users-Keeps : (username : String) → Keeps L P (list_users P username)
  unfolding list_users
  list_users-Keeps username =
      if-Keeps L P (username =s= "admin") (query-Keeps L P _) (pure-Keeps L P (username ∷ []))

  app_data_entry-Keeps :
      (username dir : String) (e : Entry) → Keeps L P (app_data_entry P username dir e)
  unfolding app_data_entry
  app_data_entry-Keeps username dir e =
      let doc : String → DocsEntry = λ id. record {
        id = id;
        name = e.name;
        is_dir = e.metadata.is_dir;
        size = e.metadata.content_length;
        mime = if e.metadata.is_dir then directory_mime else P.mime e.name;
        original_path = none;
      } in
      let entry = bind-Keeps L P (fresh-Keeps L P) (λ id. pure-Keeps L P (doc id ∷ [])) in
      if-Keeps L P (is_empty e.name || e.name =s= ".") (pure-Keeps L P []) (
        if-Keeps L P (dir =s= "/AppData")
          (if-Keeps L P e.metadata.is_dir
            (bind-Keeps L P (check_app_access-Keeps L P username e.name)
              λ allowed. if-Keeps L P allowed entry (pure-Keeps L P []))
            (pure-Keeps L P []))
          entry)

  app_data_entries-Keeps :
      (username dir : String) (es : List Entry) → Keeps L P (app_data_entries P username dir es)
  unfolding app_data_entries
  app_data_entries-Keeps username dir [] = pure-Keeps L P []
  app_data_entries-Keeps username dir (e ∷ es) =
      bind-Keeps L P (app_data_entry-Keeps username dir e) λ here.
        bind-Keeps L P (app_data_entries-Keeps username dir es)
          λ rest. pure-Keeps L P (here ++ rest)

  list_app_data-Keeps : (username dir : String) → Keeps L P (list_app_data P username dir)
  unfolding list_app_data
  list_app_data-Keeps username dir = bind-Keeps L P (resolve-Keeps L P username dir) λ op_path.
      bind-Keeps L P
        (list_or_empty-Keeps L P (if ends_with_char b'/' op_path then op_path else op_path <> "/"))
        λ entries.
          bind-Keeps L P (app_data_entries-Keeps username dir entries)
            λ docs. pure-Keeps L P (complete dir docs)

  pub list-Keeps :
      (username : String) (path : Option String) (limit offset : Option ℕ)
      → Keeps L P (list P username path limit offset)
  unfolding list
  list-Keeps username path limit offset =
      let dir = normalize_path (or_default path "/") in
      if-Keeps L P (dir =s= "/") (pure-Keeps L P _) (
        if-Keeps L P (dir =s= "/User")
          (bind-Keeps L P (list_users-Keeps username) λ users. pure-Keeps L P _)
          (if-Keeps L P (dir =s= "/Trash" || starts_with dir "/Trash/")
            (bind-Keeps L P (list_trash_dir-Keeps username _) λ entries. pure-Keeps L P _)
            (if-Keeps L P (starts_with dir "/AppData") (list_app_data-Keeps username dir) (
              bind-Keeps L P (check_app_access-Keeps L P username "file-manager") λ allowed.
                then-Keeps L P (require-Keeps L P allowed (forbidden "file-manager"))
                  (list_page-Keeps username dir (or_default limit 200) (or_default offset 0))))))
