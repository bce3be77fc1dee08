-- ===== src/Kernel/Files.antt =====
-- What a script may do with files and with its working directory: `create_fs_api` of
-- crates/kernel/src/sys/fs.rs and `create_process_api` of crates/kernel/src/sys/process.rs, from the
-- arguments that they take of JavaScript. A call fails with the text of the exception.
pub mod Foreign
pub mod Sound
use nasserver.Base.{ℕ, String, Bool, Option, none, some, List, map, if◌then◌else◌}
use nasserver.Base.Text.{◌<>◌}
use nasserver.Domain.{ok, err, Attempt, done, failed}
use nasserver.Storage.Paths.{parent}
use nasserver.Storage.World.{Platform, World, fresh}
use nasserver.Storage.Save.{save_file_from_path}
use nasserver.Storage.Folders.{mkdir}
use nasserver.Storage.Reading.{get_file_path}
use nasserver.Storage.Delete.{delete}
use nasserver.Storage.Rename.{rename}
use nasserver.Storage.Listing.{DocsEntry, list}
use nasserver.Kernel.Paths.{resolve_path}
use nasserver.Kernel.Session.{
  Session, Engine, to_string, path_name, Call, ◌>>=◌, ◌>>◌, storage, call, perform_local,
  read_to_string,
}

abbrev pub name_and_type : DocsEntry → String × String
name_and_type e = (e.name, if e.is_dir then "dir" else "file")

module _ (P : Platform) (E : Engine P) where
  abbrev pub return : {A : Type 0} → A → Call P A
  return a s = (done a, s)

  -- The path that an argument stands for.
  abbrev pub resolved : Session P → String → String
  resolved s path = resolve_path s.cwd E.user path

  -- `fs.readDir`
  unfoldable pub read_dir : String → Call P (List (String × String))
  read_dir path s =
      (do
        resp ← call P (list P E.user (some (resolved s path)) none none)
        return (map name_and_type resp.entries))
        s

  read_at : String → Call P String
  read_at p s = (read_to_string P E p s.world.files, s)

  -- `fs.readFile`
  unfoldable pub read_file : String → Call P String
  unfolding read_at
  read_file path s = (do p ← call P (get_file_path P E.root E.user (resolved s path)); read_at p) s

  -- The copy of the existing file, where there is one.
  unfoldable pub copy_existing : String → String → Call P (Unit {0})
  copy_existing path temp s =
      let (found, s') = storage P (get_file_path P E.root E.user path) s in
      elim found [
        | err e ↦ (done tt, s')
        | ok existing ↦
            let (copied, s'') = perform_local P (E.copy existing temp) s' in
            elim copied [
              | done _ ↦ (done tt, s'')
              | failed message ↦ (failed ("Failed to copy existing file: " <> message), s'')
            ]
      ]

  -- The saving of the temporary file, which goes where it fails.
  unfoldable pub save_temp : String → String → Call P (Unit {0})
  save_temp path temp s =
      let (saved, s') =
        storage P (save_file_from_path P E.user (parent path) (path_name path) temp) s in
      elim saved [
        | ok _ ↦ (done tt, s')
        | err e ↦ (failed (to_string e), (perform_local P (P.remove_local temp) s').1)
      ]

  -- The writing of a file by way of a temporary one.
  unfoldable pub write_through : String → String → Bool → String → Call P (Unit {0})
  write_through path content append temp = do
    if append then copy_existing path temp else return tt
    perform_local P (E.append temp (E.encode content))
    save_temp path temp

  abbrev pub temp_path : String → String
  temp_path id = E.temp_dir <> ("/kernel_write_" <> (E.user <> ("_" <> id)))

  -- `fs.writeFile`
  unfoldable pub write_file : String → String → Bool → Call P (Unit {0})
  write_file path content append s =
      (do id ← call P (fresh P); write_through (resolved s path) content append (temp_path id)) s

  -- `fs.mkdir`
  unfoldable pub make_dir : String → Call P (Unit {0})
  make_dir path s = call P (mkdir P E.user (resolved s path)) s

  -- `fs.delete`. As in `delete`, the result is false where the fuel runs out.
  unfoldable pub delete_file : ℕ → String → Call P Bool
  delete_file fuel path s = call P (delete P fuel E.user (some (resolved s path))) s

  -- `fs.rename`
  unfoldable pub rename_file : String → String → Call P (Unit {0})
  rename_file from to s = call P (rename P E.user (some (resolved s from)) (some (resolved s to))) s

  -- `process.chdir`
  unfoldable pub chdir : String → Call P String
  chdir path s = (done (resolved s path), record s { cwd = resolved s path })
