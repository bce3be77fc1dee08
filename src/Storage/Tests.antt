-- ===== src/Storage/Tests.antt =====
-- A small installation of the storage service, and the theorems about it applied there; those on the tables are in Tests/Tables.
mod Tables
mod Trees
use nasserver.Base.{
  Char, code, ◌==◌, ◌&&◌, ℕ, String, ◌≡◌, ◌≢◌, refl, Bool, true, false, not, none, some, List, [],
  ◌∷◌, All,
}
use nasserver.Base.Text.{◌<>◌, starts_with, split, join, replace_char}
use nasserver.Storage.Sample.{Store, platform, db, start}
use nasserver.Domain.{ok, err, done, forbidden}
use nasserver.Storage.World.{CloudFile, TrashItem, Bytes, Platform, World}
use nasserver.Storage.Paths.{normalize_path, path_parts, normal_parts, is_kept, file_name, last?}
use nasserver.Storage.Paths.Laws.{IsPlain, normalize_path-IsPlain, normalize_path_idem}
use nasserver.Storage.Access.{
  resolve_opendal_path, resolve_clean, resolve_user, check_app_access, joined,
}
use nasserver.Storage.Access.Stays.{IsConfined, stays_test_sound, stays_test}
use nasserver.Storage.Access.Bounds.{resolve_opendal_path-IsConfined}
use nasserver.Storage.Access.Escape.{resolve_opendal_path-climbs}
use nasserver.Storage.Isolation.UserPaths.{IsUserPath}
use nasserver.Storage.Save.{save_file, save_file_from_path}
use nasserver.Storage.Folders.{mkdir}
use nasserver.Storage.Delete.{delete}
use nasserver.Storage.Trash.{trash_directories}
use nasserver.Storage.Delete.Ends.{IsFinite, trash_directories-Ends}
use nasserver.Storage.Reading.{get_file_reader, get_file_path}
use nasserver.Storage.Rename.{rename}
use nasserver.Storage.Listing.{list}
use nasserver.Storage.World.{perform}
use nasserver.Storage.Isolation.{Refuses, foreign-Refuses, list-Refuses_foreign}
use nasserver.Storage.Isolation.AppPaths.{IsAppPath, rename-moves_foreign}
use nasserver.Storage.Isolation.SystemPaths.{RefusesSystem, system-IsReadOnly}

abbrev hyphen : Char
hyphen = "-"

resolves_bob :
    resolve_opendal_path platform "bob" "/User/bob/../x" start ≡ (ok "vol1/User/bob/x", start)
unfolding resolve_opendal_path resolve_clean resolve_user normalize_path normal_parts is_kept
    path_parts split join starts_with replace_char
resolves_bob = refl

resolve_opendal_path-IsConfined_example : IsConfined "vol1/User/bob/x"
unfolding stays_test starts_with normalize_path normal_parts is_kept split join replace_char
resolve_opendal_path-IsConfined_example =
    resolve_opendal_path-IsConfined platform "bob" "/User/bob/../x" start start "vol1/User/bob/x"
      (stays_test_sound "bob" refl) refl refl resolves_bob

resolve_opendal_path-climbs_example :
    resolve_opendal_path platform "bob" "/System/System../secret" start
    ≡ (ok ("vol1/User/admin/System/../" <> "secret"), start)
unfolding normalize_path normal_parts is_kept split join replace_char
resolve_opendal_path-climbs_example =
    resolve_opendal_path-climbs platform "bob" "/System/System../secret" "secret" start refl

lacks : ℕ → String → Bool
lacks ch String.[] = true
lacks ch (String.◌∷◌ c s) = not (code c == ch) && lacks ch s

abbrev sibling : CloudFile
sibling = record {
  id = "9";
  user_id = "2";
  name = "x";
  dir = "/my-notes/a";
  size = 0;
  mime = "";
  storage = "file";
}

abbrev sibling_item : TrashItem
sibling_item = record {
  id = "9";
  user_id = "2";
  name = "x";
  original_dir = "/my-notes/a";
  is_dir = false;
  size = 0;
  mime = "";
  deleted_at = 0;
  blob_hash = none;
}

ann_path : IsUserPath "ann" ("x" ∷ []) "/User/ann/x"
unfolding normal_parts is_kept split replace_char
ann_path = refl

ann_other : IsUserPath "ann" ("y" ∷ []) "/User/ann/y"
unfolding normal_parts is_kept split replace_char
ann_other = refl

notes_path : IsAppPath "notes" ("x" ∷ []) "/AppData/notes/x"
unfolding normal_parts is_kept split replace_char
notes_path = refl

abbrev asked : World platform
asked = record { db = db; files = []; tick = 1 }

bob_may_use_notes : check_app_access platform "bob" "notes" start ≡ (ok true, asked)
unfolding check_app_access
bob_may_use_notes = refl

bob_may_manage : check_app_access platform "bob" "file-manager" start ≡ (ok true, asked)
unfolding check_app_access
bob_may_manage = refl

foreign-Refuses_example :
    ((name : String) (bytes : Bytes)
      → Refuses {P = platform} (save_file platform "bob" "/User/ann/x" name bytes) start)
    × ((name temp : String)
        → Refuses {P = platform} (save_file_from_path platform "bob" "/User/ann/x" name temp) start)
    × Refuses {P = platform} (mkdir platform "bob" "/User/ann/x") start
    × Refuses {P = platform} (get_file_reader platform "bob" "/User/ann/x") start
    × ((root : String)
        → Refuses {P = platform} (get_file_path platform root "bob" "/User/ann/x") start)
    × ((fuel : ℕ) → Refuses {P = platform} (delete platform fuel "bob" (some "/User/ann/x")) start)
    × Refuses {P = platform} (rename platform "bob" (some "/User/ann/x") (some "/User/ann/y")) start
foreign-Refuses_example =
    foreign-Refuses platform "bob" "ann" "/User/ann/x" "/User/ann/y" ("x" ∷ []) ("y" ∷ []) start
      ann_path ann_other refl

list-Refuses_foreign_example :
    list platform "bob" (some "/User/ann/x") none none start
    ≡ (err (forbidden "Access denied"), asked)
list-Refuses_foreign_example =
    list-Refuses_foreign platform "bob" "ann" "/User/ann/x" ("x" ∷ []) start asked none none
      ann_path refl bob_may_manage

rename-moves_foreign_example :
    rename platform "bob" (some "/User/ann/x") (some "/AppData/notes/x") start
    ≡ perform platform
        (platform.rename
          (joined ("vol1/User/" <> "ann") ("x" ∷ []))
          (joined ("vol1/AppData/" <> "notes") ("x" ∷ [])))
        asked
rename-moves_foreign_example =
    rename-moves_foreign platform "bob" "ann" "/User/ann/x" "notes" "/AppData/notes/x" ("x" ∷ [])
      ("x" ∷ []) start asked ann_path notes_path bob_may_use_notes

system_path : starts_with (normalize_path "/System/etc") "/System" ≡ true
unfolding starts_with normalize_path normal_parts is_kept split join replace_char
system_path = refl

system_name : file_name (normalize_path "/System/etc") ≡ some "etc"
unfolding file_name path_parts last? normalize_path normal_parts is_kept split join replace_char
system_name = refl

system-IsReadOnly_example :
    ((name : String) (bytes : Bytes)
      → RefusesSystem {P = platform} (save_file platform "bob" "/System/etc" name bytes) start)
    × ((name temp : String)
        → RefusesSystem {P = platform}
            (save_file_from_path platform "bob" "/System/etc" name temp)
            start)
    × RefusesSystem {P = platform} (mkdir platform "bob" "/System/etc") start
    × ((fuel : ℕ)
        → RefusesSystem {P = platform} (delete platform fuel "bob" (some "/System/etc")) start)
system-IsReadOnly_example =
    system-IsReadOnly platform "bob" "/System/etc" "etc" start system_path system_name refl
