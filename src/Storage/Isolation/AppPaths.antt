-- ===== src/Storage/Isolation/AppPaths.antt =====
-- Moving a file to "/AppData/<app>/…": `rename` asks for the right to the application, and not for
-- the owner of the file that is moved.
use text.Mathlib.TextLemmas.{append_assoc}
use nasserver.Base.{String, ◌≡◌, refl, sym, ap, ◌∙◌, true, some, List, [], ◌∷◌}
use nasserver.Base.Text.{◌<>◌, starts_with, join}
use nasserver.Base.Text.Prefix.{starts_with-append}
use nasserver.Domain.{ok}
use nasserver.Storage.World.{Platform, World, perform}
use nasserver.Storage.Access.{
  joined, check_app_access, resolve_app_data, resolve_clean, resolve_opendal_path,
}
use nasserver.Storage.Rename.{rename}
use nasserver.Storage.Paths.{normalize_path, path_parts, normal_parts, file_name, last?}
use nasserver.Storage.Paths.Laws.{path_parts-normalize_path, normal_parts-normalize_path}
use nasserver.Storage.Isolation.UserPaths.{
  IsUserPath, user-trash, user-file_name, user-resolves, user-app_data,
}

-- The parts of the normalised path.
abbrev pub IsAppPath : String → List String → String → Type 0
IsAppPath app rest virtual_path = normal_parts virtual_path ≡ "AppData" ∷ app ∷ rest

module _ (app virtual_path : String) (rest : List String)
    (path : IsAppPath app rest virtual_path) where
  tail_text : String
  tail_text = join "/" (app ∷ rest)

  clean : normalize_path virtual_path ≡ "/AppData/" <> tail_text
  unfolding normalize_path join tail_text
  clean =
      ap (λ xs. "/" <> join "/" xs) path
      ∙ (sym (append_assoc "/" "AppData" ("/" <> tail_text))
          ∙ sym (append_assoc "/AppData" "/" tail_text))

  app-below : starts_with (normalize_path virtual_path) "/AppData/" ≡ true
  app-below = rw clean (starts_with-append "/AppData/" tail_text)

  pub app-app_data : starts_with (normalize_path virtual_path) "/AppData" ≡ true
  app-app_data =
      rw (clean, append_assoc "/AppData" "/" tail_text)
        (starts_with-append "/AppData" ("/" <> tail_text))

  app-parts : path_parts (normalize_path virtual_path) ≡ "AppData" ∷ app ∷ rest
  app-parts = path_parts-normalize_path virtual_path ∙ path

  pub app-file_name : (name : String) × (file_name (normalize_path virtual_path) ≡ some name)
  unfolding file_name
  app-file_name = rw app-parts (last_of app rest)
    where
      last_of :
          (x : String) (xs : List String)
          → (name : String) × (last? ("AppData" ∷ x ∷ xs) ≡ some name)
      last_of x [] = (x, refl)
      last_of x (y ∷ ys) = last_of y ys

  -- Where a path of an application resolves, for a user who may use it.
  pub app-resolves :
      (P : Platform) (username : String) (w v : World P)
      → check_app_access P username app w ≡ (ok true, v)
      → resolve_opendal_path P username virtual_path w
        ≡ (ok (joined ("vol1/AppData/" <> app) rest), v)
  unfolding resolve_opendal_path resolve_clean resolve_app_data
  app-resolves P username w v allowed = rw (app-below, app-parts) (rw allowed refl)

-- Whoever may use an application can move any user's file into its directory: no branch of `rename`
-- compares the owner with the user when the destination lies in "/AppData".
pub rename-moves_foreign :
    (P : Platform) (username owner from app to : String) (rest app_rest : List String)
    (w v : World P)
    → IsUserPath owner rest from
    → IsAppPath app app_rest to
    → check_app_access P username app w ≡ (ok true, v)
    → rename P username (some from) (some to) w
      ≡ perform P
          (P.rename
            (joined ("vol1/User/" <> owner) rest)
            (joined ("vol1/AppData/" <> app) app_rest))
          v
unfolding rename
rename-moves_foreign P username owner from app to rest app_rest w v path app_path allowed =
    let (name, e) = user-file_name owner from rest path in
    let user_path : IsUserPath owner rest (normalize_path from) =
      normal_parts-normalize_path from ∙ path in
    let dest_path : IsAppPath app app_rest (normalize_path to) =
      normal_parts-normalize_path to ∙ app_path in
    let (to_name, e') = app-file_name app to app_rest app_path in
    rw (e, e')
      (rw
        (
          user-trash owner from rest path,
          user-app_data owner from rest path,
          app-app_data app to app_rest app_path,
        )
        (rw (user-resolves owner (normalize_path from) rest user_path P username w) (
          rw (app-resolves app (normalize_path to) app_rest dest_path P username w v allowed)
            refl)))
