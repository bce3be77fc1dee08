-- ===== src/Storage/Listing.antt =====
-- `list` and `list_trash_dir` of crates/storage/src/storage_service.rs. Times are left out of the
-- entries; limits and offsets are natural numbers (the database refuses negative ones).
use nasserver.Base.{
  ℕ, ◌+◌, String, Bool, true, false, not, ◌&&◌, ◌||◌, Option, none, some, List, [], ◌∷◌, ◌++◌, keep,
  map, take, drop, length, ltb, if◌then◌else◌,
}
use nasserver.Base.Text.{◌<>◌, ◌=s=◌, starts_with, is_empty, ends_with_char}
use nasserver.Domain.{forbidden, bad_request, pure, fail, require, ◌>>=◌, ◌>>◌}
use nasserver.Storage.Paths.{normalize_path, path_parts}
use nasserver.Storage.World.{CloudFile, TrashItem, Db, Entry, Platform, Op, query, fresh}
use nasserver.Storage.Access.{user_id_of, resolve_opendal_path, check_app_access}
use nasserver.Storage.Save.{may_act}
use nasserver.Storage.Folders.{child_path}
use nasserver.Storage.Reading.{root_or, trash_rel}
use nasserver.Storage.Trash.{list_or_empty}

pub record DocsEntry : Type 0 where
  pub id : String
  pub name : String
  pub is_dir : Bool
  pub size : ℕ
  pub mime : String
  pub original_path : Option String

pub record DocsListResp : Type 0 where
  pub path : String
  pub entries : List DocsEntry
  pub has_more : Bool
  pub next_offset : ℕ

abbrev pub directory_mime : String
directory_mime = "inode/directory"

abbrev pub directory_entry : String → String → DocsEntry
directory_entry id name = record {
  id = id;
  name = name;
  is_dir = true;
  size = 0;
  mime = directory_mime;
  original_path = none;
}

abbrev pub root_entries : List DocsEntry
root_entries =
    directory_entry "sys" "System"
    ∷ directory_entry "usr" "User"
    ∷ directory_entry "app" "AppData"
    ∷ []

abbrev pub trash_docs_entry : TrashItem → DocsEntry
trash_docs_entry t = record {
  id = t.id;
  name = t.name;
  is_dir = t.is_dir;
  size = t.size;
  mime = t.mime;
  original_path = some (child_path t.original_dir t.name);
}

abbrev pub file_docs_entry : CloudFile → DocsEntry
file_docs_entry f = record {
  id = f.id;
  name = f.name;
  is_dir = f.mime =s= directory_mime;
  size = f.size;
  mime = f.mime;
  original_path = none;
}

-- An answer with no further page.
abbrev pub complete : String → List DocsEntry → DocsListResp
complete path entries = record { path = path; entries = entries; has_more = false; next_offset = 0 }

abbrev pub or_default {ℓ} : {A : Type ℓ} → Option A → A → A
or_default none d = d
or_default (some a) d = a

-- `where user_id = $1 and dir = $2`
abbrev pub rows_of : String → String → Db → List CloudFile
rows_of user_id dir db =
    keep (λ (f : CloudFile). f.user_id =s= user_id && f.dir =s= dir) db.cloud_files

module _ (P : Platform) where
  -- The comparison of `entries.sort_by`: directories first, then by name.
  abbrev pub entry_le : DocsEntry → DocsEntry → Bool
  entry_le a b =
      if a.is_dir
      then not b.is_dir || P.name_le a.name b.name
      else not b.is_dir && P.name_le a.name b.name

  abbrev pub insert_entry : DocsEntry → List DocsEntry → List DocsEntry
  insert_entry a [] = a ∷ []
  insert_entry a (b ∷ bs) = if entry_le a b then a ∷ b ∷ bs else b ∷ insert_entry a bs

  -- `sort_by`, which is stable
  unfoldable pub sort_entries : List DocsEntry → List DocsEntry
  sort_entries [] = []
  sort_entries (a ∷ as') = insert_entry a (sort_entries as')

  unfoldable pub list_trash_dir : String → String → Op P (List DocsEntry)
  list_trash_dir username rel_dir = do
    user_id ← user_id_of P username
    let dir_key = root_or rel_dir
    let query_dir = if starts_with dir_key "/" then dir_key else "/" <> dir_key
    rows ← query P (λ db.
        keep (λ (t : TrashItem). t.user_id =s= user_id && t.original_dir =s= query_dir)
          db.trash_items)
    pure (sort_entries (map trash_docs_entry rows))

  -- One entry of a directory below "/AppData", if it is listed.
  unfoldable pub app_data_entry : String → String → Entry → Op P (List DocsEntry)
  app_data_entry username dir e =
      let entry : Op P (List DocsEntry) = do
        id ← fresh P
        pure (
            record {
              id = id;
              name = e.name;
              is_dir = e.metadata.is_dir;
              size = e.metadata.content_length;
              mime = if e.metadata.is_dir then directory_mime else P.mime e.name;
              original_path = none;
            }
            ∷ [])
      in if is_empty e.name || e.name =s= "."
        then pure []
        else if dir =s= "/AppData"
        then if e.metadata.is_dir
          then (do allowed ← check_app_access P username e.name; if allowed then entry else pure [])
          else pure []
        else entry

  unfoldable pub app_data_entries : String → String → List Entry → Op P (List DocsEntry)
  app_data_entries username dir [] = pure []
  app_data_entries username dir (e ∷ es) = do
    here ← app_data_entry username dir e
    rest ← app_data_entries username dir es
    pure (here ++ rest)

  unfoldable pub list_app_data : String → String → Op P DocsListResp
  list_app_data username dir = do
    op_path ← resolve_opendal_path P username dir
    entries ← list_or_empty P (if ends_with_char b'/' op_path then op_path else op_path <> "/")
    docs ← app_data_entries username dir entries
    pure (complete dir docs)

  -- The user whose table is listed.
  unfoldable pub list_target : String → String → Op P String
  list_target username dir =
      if starts_with dir "/System"
      then pure "admin"
      else if starts_with dir "/User/"
      then elim (path_parts dir) [
        | root ∷ owner ∷ rest ↦ do
          require (may_act username owner) (forbidden "Access denied")
          pure owner
        | _ ↦ fail (bad_request "Invalid path")
      ]
      else fail (bad_request "Invalid path")

  -- One page of a directory in the table.
  unfoldable pub list_page : String → String → ℕ → ℕ → Op P DocsListResp
  list_page username dir limit offset = do
    target ← list_target username dir
    user_id ← user_id_of P target
    rows ← query P (λ db. take limit (drop offset (P.order_by_name (rows_of user_id dir db))))
    total ← query P (λ db. length (rows_of user_id dir db))
    pure (record {
      path = dir;
      entries = map file_docs_entry rows;
      has_more = ltb (offset + limit) total;
      next_offset = offset + limit;
    })

  unfoldable pub list_users : String → Op P (List String)
  list_users username =
      if username =s= "admin"
      then query P (λ db. P.users_by_name db.users)
      else pure (username ∷ [])

  -- `list`
  unfoldable pub list : String → Option String → Option ℕ → Option ℕ → Op P DocsListResp
  list username path limit offset =
      let dir = normalize_path (or_default path "/") in
      if dir =s= "/"
      then pure (complete dir root_entries)
      else if dir =s= "/User"
      then (do
        users ← list_users username
        pure (complete dir (map (λ u. directory_entry ("user-" <> u) u) users)))
      else if dir =s= "/Trash" || starts_with dir "/Trash/"
      then (do
        let rel_dir = trash_rel dir
        entries ← list_trash_dir username (if is_empty rel_dir then "/" else "/" <> rel_dir)
        pure (complete dir entries))
      else if starts_with dir "/AppData"
      then list_app_data username dir
      else do
        allowed ← check_app_access P username "file-manager"
        require allowed (forbidden "file-manager")
        list_page username dir (or_default limit 200) (or_default offset 0)
