-- ===== src/Storage/Isolation/SystemPaths.antt =====
-- Changes below "/System" by another user than admin.
use text.Mathlib.TextLemmas.{nil-append, cons-append, append_assoc}
use nasserver.Base.{ℕ, Char, String, ◌≡◌, refl, ap, ◌∙◌, ◌≢◌, true, false, some, arith}
use nasserver.Base.Text.{◌<>◌, ◌=s=◌, eq_iff, starts_with}
use nasserver.Base.Text.Prefix.{starts_with_sound}
use nasserver.Domain.{forbidden, err}
use nasserver.Storage.World.{Platform, World, Op, Bytes}
use nasserver.Storage.Paths.{normalize_path, slash, file_name}
use nasserver.Storage.Save.{write_target, save_file, save_file_from_path}
use nasserver.Storage.Folders.{mkdir_target, mkdir}
use nasserver.Storage.Delete.{delete_owned, delete}

abbrev letter : Char
letter = "S"

starts_S :
    (s : String)
    → starts_with s "/System" ≡ true
    → (t : String) × (s ≡ String.◌∷◌ slash (String.◌∷◌ letter t))
starts_S s h =
    let (r, e) = starts_with_sound s "/System" h in
    (
      "ystem" <> r,
      e
          ∙ (append_assoc "/S" "ystem" r
              ∙ (cons-append slash "S" ("ystem" <> r)
                  ∙ ap (λ t. String.◌∷◌ slash t)
                      (cons-append letter "" ("ystem" <> r)
                        ∙ ap (λ t. String.◌∷◌ letter t) (nil-append ("ystem" <> r))))),
    )

system-app_data : (s : String) → starts_with s "/System" ≡ true → starts_with s "/AppData" ≡ false
unfolding starts_with
system-app_data s h = let (t, e) = starts_S s h in rw e refl

system-trash_below : (s : String) → starts_with s "/System" ≡ true → starts_with s "/Trash/" ≡ false
unfolding starts_with
system-trash_below s h = let (t, e) = starts_S s h in rw e refl

system-ne_trash : (s : String) → starts_with s "/System" ≡ true → (s =s= "/Trash") ≡ false
unfolding starts_with
system-ne_trash s h =
    let differ : s ≢ "/Trash" = λ e. cc (rw e at h) in ground (arith, eq_iff s "/Trash")

-- The refusal: the error, and the world as it was.
abbrev pub RefusesSystem : {P : Platform} {A : Type 0} → Op P A → World P → Type 0
RefusesSystem {P} {A} op w = op w ≡ (err (forbidden "Only admin can modify /System"), w)

module _ (P : Platform) (username virtual_path : String)
    (path : starts_with (normalize_path virtual_path) "/System" ≡ true)
    (other : (username =s= "admin") ≡ false) (w : World P) where
  abbrev clean : String
  clean = normalize_path virtual_path

  write_target-system :
      write_target P username clean w ≡ (err (forbidden "Only admin can modify /System"), w)
  unfolding write_target
  write_target-system = rw (path, other) refl

  save_file-system :
      (name : String) (bytes : Bytes)
      → RefusesSystem {P = P} (save_file P username virtual_path name bytes) w
  unfolding save_file
  save_file-system name bytes = rw (system-app_data clean path) (rw write_target-system refl)

  save_file_from_path-system :
      (name temp : String)
      → RefusesSystem {P = P} (save_file_from_path P username virtual_path name temp) w
  unfolding save_file_from_path
  save_file_from_path-system name temp =
      rw (system-app_data clean path) (rw write_target-system refl)

  mkdir-system :
      (name : String)
      → file_name clean ≡ some name
      → RefusesSystem {P = P} (mkdir P username virtual_path) w
  unfolding mkdir mkdir_target
  mkdir-system name e = rw e (rw (system-app_data clean path) (rw (path, other) refl))

  delete-system :
      (fuel : ℕ) (name : String)
      → file_name clean ≡ some name
      → RefusesSystem {P = P} (delete P fuel username (some virtual_path)) w
  unfolding delete delete_owned
  delete-system fuel name e = rw e (
      rw (system-app_data clean path, system-ne_trash clean path, system-trash_below clean path)
        (rw write_target-system refl))

-- Whoever is not admin is refused to save bytes or a file in a directory below "/System", to make a
-- directory there and to delete there, whatever the other arguments: the refusal leaves the database, the
-- files and the clock as they were. The normal form of the path starts with "/System" and has a last part.
-- Moving is not among the operations.
pub system-IsReadOnly :
    (P : Platform) (username virtual_path last : String) (w : World P)
    → starts_with (normalize_path virtual_path) "/System" ≡ true
    → file_name (normalize_path virtual_path) ≡ some last
    → (username =s= "admin") ≡ false
    → ((name : String) (bytes : Bytes)
        → RefusesSystem {P = P} (save_file P username virtual_path name bytes) w)
      × ((name temp : String)
          → RefusesSystem {P = P} (save_file_from_path P username virtual_path name temp) w)
      × RefusesSystem {P = P} (mkdir P username virtual_path) w
      × ((fuel : ℕ) → RefusesSystem {P = P} (delete P fuel username (some virtual_path)) w)
system-IsReadOnly P username virtual_path last w path e other = (
  save_file-system P username virtual_path path other w,
  save_file_from_path-system P username virtual_path path other w,
  mkdir-system P username virtual_path path other w last e,
  λ fuel. delete-system P username virtual_path path other w fuel last e,
)
