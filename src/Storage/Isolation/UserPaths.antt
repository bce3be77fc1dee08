-- ===== src/Storage/Isolation/UserPaths.antt =====
-- The tests of the storage service on a path "/User/<owner>/…".
use text.Mathlib.TextLemmas.{nil-append, cons-append, append_assoc, append-nil}
use nasserver.Base.{
  Char, String, ◌≡◌, refl, sym, ap, ◌∙◌, ◌≢◌, true, false, some, List, [], ◌∷◌, arith,
}
use nasserver.Base.Text.{◌<>◌, ◌=s=◌, starts_with, eq_iff, join}
use nasserver.Base.Text.Prefix.{starts_with-append}
use nasserver.Storage.Paths.{normalize_path, path_parts, normal_parts, file_name, last?, slash}
use nasserver.Domain.{ok}
use nasserver.Storage.World.{Platform, World}
use nasserver.Storage.Access.{joined, resolve_user, resolve_clean, resolve_opendal_path}
use nasserver.Storage.Paths.Laws.{path_parts-normalize_path}

-- The parts of the normalised path.
abbrev pub IsUserPath : String → List String → String → Type 0
IsUserPath owner rest virtual_path = normal_parts virtual_path ≡ "User" ∷ owner ∷ rest

abbrev letter : Char
letter = "U"

-- `s` starts with "/U".
open_user : (s : String) → "/U" <> s ≡ String.◌∷◌ slash (String.◌∷◌ letter s)
open_user s =
    cons-append slash "U" s
    ∙ ap (λ t. String.◌∷◌ slash t)
        (cons-append letter "" s ∙ ap (λ t. String.◌∷◌ letter t) (nil-append s))

module _ (owner virtual_path : String) (rest : List String)
    (path : IsUserPath owner rest virtual_path) where
  tail_text : String
  tail_text = join "/" (owner ∷ rest)

  clean : normalize_path virtual_path ≡ "/User/" <> tail_text
  unfolding normalize_path join tail_text
  clean =
      ap (λ xs. "/" <> join "/" xs) path
      ∙ (sym (append_assoc "/" "User" ("/" <> tail_text))
          ∙ sym (append_assoc "/User" "/" tail_text))

  pub user-user : starts_with (normalize_path virtual_path) "/User/" ≡ true
  user-user = rw clean (starts_with-append "/User/" tail_text)

  opened : normalize_path virtual_path ≡ String.◌∷◌ slash (String.◌∷◌ letter ("ser/" <> tail_text))
  opened = clean ∙ (append_assoc "/U" "ser/" tail_text ∙ open_user ("ser/" <> tail_text))

  pub user-app_data : starts_with (normalize_path virtual_path) "/AppData" ≡ false
  unfolding starts_with
  user-app_data = rw opened refl

  pub user-system : starts_with (normalize_path virtual_path) "/System" ≡ false
  unfolding starts_with
  user-system = rw opened refl

  pub user-trash : starts_with (normalize_path virtual_path) "/Trash" ≡ false
  unfolding starts_with
  user-trash = rw opened refl

  pub user-trash_below : starts_with (normalize_path virtual_path) "/Trash/" ≡ false
  unfolding starts_with
  user-trash_below = rw opened refl

  pub user-app_data_below : starts_with (normalize_path virtual_path) "/AppData/" ≡ false
  unfolding starts_with
  user-app_data_below = rw opened refl

  pub user-system_below : starts_with (normalize_path virtual_path) "/System/" ≡ false
  unfolding starts_with
  user-system_below = rw opened refl

  pub user-ne :
      (t : String)
      → starts_with (normalize_path virtual_path) t ≡ false
      → (normalize_path virtual_path =s= t) ≡ false
  user-ne t h =
      let differ : normalize_path virtual_path ≢ t =
        λ e. cc (rw e at h, rw append-nil at (starts_with-append t "")) in
      ground (arith, eq_iff (normalize_path virtual_path) t)

  pub user-ne_trash : (normalize_path virtual_path =s= "/Trash") ≡ false
  user-ne_trash = user-ne "/Trash" user-trash

  pub user-parts : path_parts (normalize_path virtual_path) ≡ "User" ∷ owner ∷ rest
  user-parts = path_parts-normalize_path virtual_path ∙ path

  -- Where a path of a user resolves, whoever asks.
  pub user-resolves :
      (P : Platform) (username : String) (w : World P)
      → resolve_opendal_path P username virtual_path w
        ≡ (ok (joined ("vol1/User/" <> owner) rest), w)
  unfolding resolve_opendal_path resolve_clean resolve_user
  user-resolves P username w =
      rw (user-app_data_below, user-ne "/AppData" user-app_data)
        (rw (user-system_below, user-ne "/System" user-system)
          (rw (user-trash_below, user-ne "/Trash" user-trash) (rw (user-user, user-parts) refl)))

  pub user-file_name : (name : String) × (file_name (normalize_path virtual_path) ≡ some name)
  unfolding file_name
  user-file_name = rw user-parts (last_of owner rest)
    where
      last_of :
          (x : String) (xs : List String) → (name : String) × (last? ("User" ∷ x ∷ xs) ≡ some name)
      last_of x [] = (x, refl)
      last_of x (y ∷ ys) = last_of y ys
