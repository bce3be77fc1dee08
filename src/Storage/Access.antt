-- ===== src/Storage/Access.antt =====
-- Who may do what, and where a virtual path lies in the object store: `check_app_access` and
-- `resolve_opendal_path` of crates/storage/src/storage_service.rs.
pub mod Reads
pub mod Stays
pub mod Confined
pub mod Escape
pub mod Bounds
use Prim.Native.String.{len}
use nasserver.Base.{
  ℕ, String, Char, code, Bool, true, false, not, ◌&&◌, ◌||◌, Option, none, some, List, [], ◌∷◌,
  find, keep, length, all, ltb, leb, ◌==◌, if◌then◌else◌,
}
use nasserver.Base.Text.{
  ◌<>◌, ◌=s=◌, is_empty, starts_with, split, join, trim_start_matches, trim_start_char,
  strip_prefix,
}
use nasserver.Domain.{
  Error, forbidden, bad_request, database, M, pure, fail, require, expect, ◌>>=◌, ◌>>◌, Attempt,
  done, failed, Result, ok, err,
}
use nasserver.Storage.Paths.{normalize_path, path_parts, slash}
use nasserver.Storage.World.{User, AppPermission, Db, Entry, Platform, World, Op, query}

-- `select count(*) from sys.app_permissions where app_name = $1 and username = $2`
abbrev pub permissions : String → String → Db → ℕ
permissions app_name username db = length (
    keep (λ (p : AppPermission). p.app_name =s= app_name && p.username =s= username)
      db.app_permissions)

abbrev pub joined : String → List String → String
joined base [] = base
joined base (x ∷ xs) = base <> ("/" <> join "/" (x ∷ xs))

unfoldable pub resolve_system : String → String
unfolding trim_start_matches trim_start_char
resolve_system clean_path =
    let rel = trim_start_char b'/' (trim_start_matches clean_path "/System") in
    if is_empty rel then "vol1/User/admin/System" else "vol1/User/admin/System/" <> rel

is_digits : String → Bool
is_digits String.[] = true
is_digits (String.◌∷◌ c s) = leb b'0' (code c) && (leb (code c) b'9' && is_digits s)

-- A name of the form YYYYMMDD.
unfoldable pub is_date : String → Bool
unfolding is_digits
is_date s = len s == 8 && is_digits s

is_done {ℓ} : {A : Type ℓ} → Attempt A → Bool
is_done (done _) = true
is_done (failed _) = false

listed : Attempt (List Entry) → List Entry
listed (done es) = es
listed (failed _) = []

first_part : List String → String
first_part [] = ""
first_part (x ∷ xs) = x

-- The last branch: a path relative to the user's own directory.
unfoldable pub resolve_own : String → String → String
unfolding strip_prefix
resolve_own username clean_path =
    "vol1/User/"
    <> (username
        <> ("/" <> elim (strip_prefix clean_path "/") [ none ↦ clean_path | some rel ↦ rel ]))

module _ (P : Platform) where
  -- `select id from sys.users where username = $1`, by `fetch_one`
  unfoldable pub user_id_of : String → Op P String
  user_id_of username = do
    found ← query P (λ db. find (λ (u : User). u.username =s= username) db.users)
    elim found [ none ↦ fail (database P.row_not_found) | some u ↦ pure u.id ]

  unfoldable pub check_app_access : String → String → Op P Bool
  check_app_access username app_name =
      if username =s= "admin"
      then pure true
      else do count ← query P (permissions app_name username); pure (ltb 0 count)

  -- The branch for "/AppData/…"; the parts are those of the path.
  unfoldable pub resolve_app_data : String → List String → Op P String
  resolve_app_data username (root ∷ app_name ∷ rest) = do
    allowed ← check_app_access username app_name
    require allowed (forbidden ("Access denied to app: " <> app_name))
    pure (joined ("vol1/AppData/" <> app_name) rest)
  resolve_app_data username _ = pure "vol1/AppData"

  -- The tests in that loop.
  is_match : String → String → P.Files → Entry → Bool
  unfolding is_date is_done
  is_match base rel files e =
      let cand = base <> ("/" <> (e.name <> ("/" <> rel))) in
      is_date e.name
      && (e.metadata.is_dir
          && (is_done (P.stat cand files) || is_done (P.stat (cand <> "/") files)))

  -- The loop over the dated directories of the trash: the candidates that exist.
  unfoldable pub dated_matches : String → String → P.Files → List Entry → List String
  unfolding is_match
  dated_matches base rel files [] = []
  dated_matches base rel files (e ∷ es) =
      let cand = base <> ("/" <> (e.name <> ("/" <> rel))) in
      if is_match base rel files e
      then cand ∷ dated_matches base rel files es
      else dated_matches base rel files es

  choose_match : String → String → List String → Op P String
  choose_match base rel [] = pure (base <> ("/" <> rel))
  choose_match base rel (m ∷ []) = pure m
  choose_match base rel (m ∷ n ∷ ms) =
      fail (bad_request "Ambiguous /Trash path; please include YYYYMMDD")

  unfoldable pub resolve_trash : String → String → Op P String
  unfolding trim_start_matches trim_start_char split dated_matches listed choose_match first_part
  resolve_trash username clean_path w =
      let rel = trim_start_char b'/' (trim_start_matches clean_path "/Trash") in
      let base = "vol1/User/" <> (username <> "/.Trash") in
      if is_empty rel
      then pure base w
      else if is_date (first_part (split b'/' rel))
      then pure (base <> ("/" <> rel)) w
      else choose_match base rel
          (dated_matches base rel w.files (listed (P.list (base <> "/") w.files))) w

  unfoldable pub resolve_user : List String → Op P String
  resolve_user (root ∷ owner ∷ rest) = pure (joined ("vol1/User/" <> owner) rest)
  resolve_user _ = fail (bad_request "Invalid /User path")

  -- `resolve_opendal_path`, after the path is normalised.
  unfoldable pub resolve_clean : String → String → Op P String
  resolve_clean username clean_path =
      if starts_with clean_path "/AppData/"
      then resolve_app_data username (path_parts clean_path)
      else if clean_path =s= "/AppData"
      then pure "vol1/AppData"
      else if starts_with clean_path "/System/" || clean_path =s= "/System"
      then pure (resolve_system clean_path)
      else if starts_with clean_path "/Trash/" || clean_path =s= "/Trash"
      then resolve_trash username clean_path
      else if starts_with clean_path "/User/"
      then resolve_user (path_parts clean_path)
      else pure (resolve_own username clean_path)

  unfoldable pub resolve_opendal_path : String → String → Op P String
  resolve_opendal_path username virtual_path = resolve_clean username (normalize_path virtual_path)
