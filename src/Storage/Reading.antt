-- ===== src/Storage/Reading.antt =====
-- `get_file_reader` and `get_file_path` of crates/storage/src/storage_service.rs.
use nasserver.Base.{String, Bool, not, ◌&&◌, Option, none, some, ◌∷◌, find, if◌then◌else◌}
use nasserver.Base.Text.{◌<>◌, ◌=s=◌, starts_with, is_empty, trim_start_matches, trim_start_char}
use nasserver.Domain.{forbidden, bad_request, pure, fail, expect, require, ◌>>=◌, ◌>>◌}
use nasserver.Storage.Paths.{normalize_path, path_parts, parent, file_name}
use nasserver.Storage.World.{TrashItem, Db, Bytes, Platform, Op, query, inspect}
use nasserver.Storage.Access.{user_id_of, resolve_opendal_path}
use nasserver.Storage.Save.{may_act}

-- `vol1/User/<user>/.Trash/blobs`
abbrev pub blob_base : String → String
blob_base username = "vol1/User/" <> (username <> "/.Trash/blobs")

-- The directory of a trash path below "/Trash", without a leading slash.
unfoldable pub trash_rel : String → String
trash_rel dir = trim_start_char b'/' (trim_start_matches dir "/Trash")

-- The text that is looked for in `original_dir`.
abbrev pub root_or : String → String
root_or rel = if is_empty rel then "/" else rel

abbrev pub is_item : String → String → String → TrashItem → Bool
is_item user_id dir name t = t.user_id =s= user_id && (t.original_dir =s= dir && t.name =s= name)

-- `select blob_hash from storage.trash_items where … and is_dir = false`
unfoldable pub trash_blob : String → String → String → Db → Option String
trash_blob user_id dir name db =
    elim (find (λ (t : TrashItem). is_item user_id dir name t && not t.is_dir) db.trash_items) [
      | none ↦ none
      | some t ↦ t.blob_hash
    ]

module _ (P : Platform) where
  -- The test of the owner in "/User/<owner>/…".
  unfoldable pub check_owner : String → String → Op P (Unit {0})
  check_owner username path =
      if starts_with path "/User/"
      then elim (path_parts path) [
        | root ∷ owner ∷ rest ↦ require (may_act username owner) (forbidden "Access denied")
        | _ ↦ fail (bad_request "Invalid path")
      ]
      else pure tt

  -- `get_file_reader`, with what the reader yields. A path under "/Trash" passes the first test.
  unfoldable pub get_file_reader : String → String → Op P Bytes
  get_file_reader username virtual_path =
      let path = normalize_path virtual_path in
      if starts_with path "/Trash"
      then (do
        name ← expect (file_name path) (bad_request "Invalid path")
        user_id ← user_id_of P username
        blob ← query P (trash_blob user_id (root_or (trash_rel (parent path))) name)
        hash ← expect blob (bad_request "Trash file not found")
        inspect P (P.read (blob_base username <> ("/" <> hash))))
      else do
        check_owner username path
        op_path ← resolve_opendal_path P username path
        inspect P (P.read op_path)

  -- `get_file_path`: `root` is the storage's path.
  unfoldable pub get_file_path : String → String → String → Op P String
  get_file_path root username virtual_path = do
    let path = normalize_path virtual_path
    check_owner username path
    op_path ← resolve_opendal_path P username path
    pure (root <> ("/" <> op_path))
