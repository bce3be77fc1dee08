-- ===== src/Storage/Isolation.antt =====
-- Requests on another user's files, in crates/storage/src/storage_service.rs.
pub mod UserPaths
pub mod AppPaths
pub mod SystemPaths
use nasserver.Base.{
  ℕ, String, ◌≡◌, refl, ap, ◌∙◌, ◌≢◌, Bool, true, false, not, ◌&&◌, ◌||◌, Option, none, some, List,
  [], ◌∷◌, if◌then◌else◌, arith,
}
use nasserver.Base.Text.{◌<>◌, ◌=s=◌, starts_with, eq_iff, eq_refl}
use nasserver.Domain.{
  Error, forbidden, bad_request, Result, ok, err, M, pure, fail, expect, require, after, ◌>>=◌,
  ◌>>◌,
}
use nasserver.Storage.Paths.{normalize_path, path_parts, normal_parts, file_name}
use nasserver.Storage.World.{Platform, World, Op, Bytes}
use nasserver.Storage.Save.{may_act, write_target, save_file, save_file_from_path}
use nasserver.Storage.Folders.{mkdir_target, mkdir}
use nasserver.Storage.Reading.{check_owner, get_file_reader, get_file_path}
use nasserver.Storage.Delete.{delete_owned, delete}
use nasserver.Storage.Restore.{owner_of}
use nasserver.Storage.Rename.{rename_owned, rename}
use nasserver.Storage.Listing.{list, list_page, list_target}
use nasserver.Storage.Access.{check_app_access}
use nasserver.Storage.Isolation.UserPaths.{
  IsUserPath, user-app_data, user-system, user-trash, user-user, user-ne_trash, user-file_name,
  user-parts, user-trash_below,
}

-- The refusal: the error, and the world as it was.
abbrev pub Refuses : {P : Platform} {A : Type 0} → Op P A → World P → Type 0
Refuses {P} {A} op w = op w ≡ (err (forbidden "Access denied"), w)

module _ (P : Platform) (username owner from to : String) (rest to_rest : List String)
    (from_user : IsUserPath owner rest from) (to_user : IsUserPath owner to_rest to)
    (foreign : may_act username owner ≡ false) (w : World P) where
  owner_of-user :
      (message path : String) (xs : List String) (v : World P)
      → IsUserPath owner xs path
      → owner_of P message (normalize_path path) v ≡ (ok owner, v)
  unfolding owner_of
  owner_of-user message path xs v h =
      rw (user-system owner path xs h, user-user owner path xs h, user-parts owner path xs h) refl

  rename-Refuses : Refuses {P = P} (rename P username (some from) (some to)) w
  unfolding rename rename_owned
  rename-Refuses =
      let (name, e) = user-file_name owner from rest from_user in
      let (to_name, e') = user-file_name owner to to_rest to_user in
      rw (e, e')
        (rw
          (
            user-trash owner from rest from_user,
            user-app_data owner from rest from_user,
            user-app_data owner to to_rest to_user,
          )
          (rw (owner_of-user "Invalid from path" from rest w from_user) (
            rw (owner_of-user "Invalid to path" to to_rest w to_user)
              (rw (eq_refl owner) (rw foreign refl)))))

module _ (P : Platform) (username owner virtual_path : String) (rest : List String)
    (path : IsUserPath owner rest virtual_path) (foreign : may_act username owner ≡ false)
    (w : World P) where
  abbrev clean : String
  clean = normalize_path virtual_path

  abbrev is_user : starts_with clean "/User/" ≡ true
  is_user = user-user owner virtual_path rest path

  abbrev not_app_data : starts_with clean "/AppData" ≡ false
  not_app_data = user-app_data owner virtual_path rest path

  abbrev not_system : starts_with clean "/System" ≡ false
  not_system = user-system owner virtual_path rest path

  abbrev not_trash : starts_with clean "/Trash" ≡ false
  not_trash = user-trash owner virtual_path rest path

  abbrev parts : path_parts clean ≡ "User" ∷ owner ∷ rest
  parts = user-parts owner virtual_path rest path

  ne_root : (t : String) → starts_with t "/User/" ≡ false → (clean =s= t) ≡ false
  ne_root t h = let differ : clean ≢ t = λ e. cc (rw e at is_user) in ground (arith, eq_iff clean t)

  write_target-user : (v : World P) → write_target P username clean v ≡ (ok owner, v)
  unfolding write_target
  write_target-user v = rw (not_system, is_user, parts) refl

  check_owner-user :
      (v : World P) → check_owner P username clean v ≡ (err (forbidden "Access denied"), v)
  unfolding check_owner
  check_owner-user v = rw (is_user, parts, foreign) refl

  mkdir_target-user :
      (v : World P) → mkdir_target P username clean v ≡ (err (forbidden "Access denied"), v)
  unfolding mkdir_target
  mkdir_target-user v = rw (not_system, is_user, parts) (refused rest)
    where
      refused :
          (xs : List String)
          → (elim xs as (λ _. Op P String) [
            | [] ↦ (do
              require (may_act username owner) (forbidden "Access denied")
              fail (bad_request "Cannot create user root"))
            | x ∷ ys ↦ (do require (may_act username owner) (forbidden "Access denied"); pure owner)
          ])
              v
            ≡ (err (forbidden "Access denied"), v)
      refused [] = rw foreign refl
      refused (x ∷ ys) = rw foreign refl

  save_file-Refuses :
      (name : String) (bytes : Bytes)
      → Refuses {P = P} (save_file P username virtual_path name bytes) w
  unfolding save_file
  save_file-Refuses name bytes = rw not_app_data (rw (write_target-user w) (rw foreign refl))

  save_file_from_path-Refuses :
      (name temp : String)
      → Refuses {P = P} (save_file_from_path P username virtual_path name temp) w
  unfolding save_file_from_path
  save_file_from_path-Refuses name temp =
      rw not_app_data (rw (write_target-user w) (rw foreign refl))

  mkdir-Refuses : Refuses {P = P} (mkdir P username virtual_path) w
  unfolding mkdir
  mkdir-Refuses =
      let (name, e) = user-file_name owner virtual_path rest path in
      rw e (rw not_app_data (rw (mkdir_target-user w) refl))

  get_file_reader-Refuses : Refuses {P = P} (get_file_reader P username virtual_path) w
  unfolding get_file_reader
  get_file_reader-Refuses = rw not_trash (rw (check_owner-user w) refl)

  get_file_path-Refuses :
      (root : String) → Refuses {P = P} (get_file_path P root username virtual_path) w
  unfolding get_file_path
  get_file_path-Refuses root = rw (check_owner-user w) refl

  delete-Refuses : (fuel : ℕ) → Refuses {P = P} (delete P fuel username (some virtual_path)) w
  unfolding delete delete_owned
  delete-Refuses fuel =
      let (name, e) = user-file_name owner virtual_path rest path in
      rw e (
        rw not_app_data (
          rw (user-ne_trash owner virtual_path rest path) (
            rw (user-trash_below owner virtual_path rest path)
              (rw (write_target-user w) (rw foreign refl)))))

  list-refuses :
      (limit offset : Option ℕ) (v : World P)
      → check_app_access P username "file-manager" w ≡ (ok true, v)
      → list P username (some virtual_path) limit offset w ≡ (err (forbidden "Access denied"), v)
  unfolding list list_page list_target starts_with
  list-refuses limit offset v allowed =
      rw
        (
          ne_root "/" refl,
          ne_root "/User" refl,
          user-ne_trash owner virtual_path rest path,
          user-trash_below owner virtual_path rest path,
          not_app_data,
        )
        (rw allowed (rw (not_system, is_user, parts, foreign) refl))

-- A user who is neither the owner nor admin gets "Access denied" from these operations on a path of the
-- owner, "/User/<owner>/…" after normalisation, and the refusal changes nothing in the database, the files
-- and the clock: saving bytes or a file, making a directory, reading, finding a file's path, deleting, and
-- moving to another path of the owner. Listing, and moving to a path that is not the owner's, are not among
-- them.
pub foreign-Refuses :
    (P : Platform) (username owner virtual_path to : String) (rest to_rest : List String)
    (w : World P)
    → IsUserPath owner rest virtual_path
    → IsUserPath owner to_rest to
    → may_act username owner ≡ false
    → ((name : String) (bytes : Bytes)
        → Refuses {P = P} (save_file P username virtual_path name bytes) w)
      × ((name temp : String)
          → Refuses {P = P} (save_file_from_path P username virtual_path name temp) w)
      × Refuses {P = P} (mkdir P username virtual_path) w
      × Refuses {P = P} (get_file_reader P username virtual_path) w
      × ((root : String) → Refuses {P = P} (get_file_path P root username virtual_path) w)
      × ((fuel : ℕ) → Refuses {P = P} (delete P fuel username (some virtual_path)) w)
      × Refuses {P = P} (rename P username (some virtual_path) (some to)) w
foreign-Refuses P username owner virtual_path to rest to_rest w path to_path foreign = (
  save_file-Refuses P username owner virtual_path rest path foreign w,
  save_file_from_path-Refuses P username owner virtual_path rest path foreign w,
  mkdir-Refuses P username owner virtual_path rest path foreign w,
  get_file_reader-Refuses P username owner virtual_path rest path foreign w,
  get_file_path-Refuses P username owner virtual_path rest path foreign w,
  delete-Refuses P username owner virtual_path rest path foreign w,
  rename-Refuses P username owner virtual_path to rest to_rest path to_path foreign w,
)

-- A user who may use the file manager and is neither the owner nor admin gets "Access denied" from
-- listing a path of the owner, "/User/<owner>/…" after normalisation, with any limit and offset; all
-- that happens is the query for the right.
pub list-Refuses_foreign :
    (P : Platform) (username owner virtual_path : String) (rest : List String) (w v : World P)
    (limit offset : Option ℕ)
    → IsUserPath owner rest virtual_path
    → may_act username owner ≡ false
    → check_app_access P username "file-manager" w ≡ (ok true, v)
    → list P username (some virtual_path) limit offset w ≡ (err (forbidden "Access denied"), v)
list-Refuses_foreign P username owner virtual_path rest w v limit offset path foreign allowed =
    list-refuses P username owner virtual_path rest path foreign w limit offset v allowed
