-- ===== src/Kernel/Files/Sound.antt =====
-- What the calls of crates/kernel/src/sys/fs.rs and crates/kernel/src/sys/process.rs, and the command
-- lines of crates/kernel/src/service.rs, keep true of a session.
use nasserver.Base.{ℕ, String, Bool, true, false, none, some, List, arith, inl, inr}
use nasserver.Domain.{Attempt, done, failed, Result-cases}
use nasserver.Storage.World.{Platform, Op, fresh}
use nasserver.Storage.Tables.Unique.{IsUnique}
use nasserver.Storage.Save.{save_file, save_file_from_path}
use nasserver.Storage.Folders.{mkdir}
use nasserver.Storage.Reading.{get_file_path}
use nasserver.Storage.Delete.{delete}
use nasserver.Storage.Rename.{rename}
use nasserver.Storage.Listing.{list}
use nasserver.Storage.Paths.{parent}
use nasserver.Storage.Effects.{Keeps, fresh-Keeps}
use nasserver.Storage.Effects.Integrity.{KeepsUnique-IsRespected}
use nasserver.Storage.Effects.Operations.{save_file-Keeps, save_file_from_path-Keeps}
use nasserver.Storage.Effects.Moves.{mkdir-Keeps}
use nasserver.Storage.Effects.Restores.{rename-Keeps}
use nasserver.Storage.Effects.Deletes.{delete-Keeps}
use nasserver.Storage.Effects.Readings.{get_file_path-Keeps, list-Keeps}
use nasserver.Kernel.Paths.{resolve_path}
use nasserver.Kernel.Paths.Laws.{IsNormal, resolve_path-IsNormal}
use nasserver.Kernel.Session.{
  Session, Engine, storage, call, path_name, perform_local, Call, ◌>>◌, then_call,
}
use nasserver.Kernel.Files.{
  read_dir, read_file, copy_existing, save_temp, write_through, temp_path, write_file, make_dir,
  delete_file, rename_file, chdir,
}
use nasserver.Kernel.Service.{execute_script}
use nasserver.Kernel.Service.Invariant.{execute_script-Keeps}

-- The working directory is normal, and the key of the table of files is unique.
pub record IsSound {P : Platform} (s : Session P) : Type 0 where
  pub normal : IsNormal s.cwd
  pub unique : IsUnique s.world.db

module _ (P : Platform) (E : Engine P) where
  call-IsSound :
      {A : Type 0} (op : Op P A) (s : Session P)
      → Keeps KeepsUnique-IsRespected P op
      → IsSound s
      → IsSound (call P op s).1
  call-IsSound op s k h = record { normal = h.normal; unique = k.run s.world h.unique }

  storage-IsSound :
      {A : Type 0} (op : Op P A) (s : Session P)
      → Keeps KeepsUnique-IsRespected P op
      → IsSound s
      → IsSound (storage P op s).1
  storage-IsSound op s k h = record { normal = h.normal; unique = k.run s.world h.unique }

  then_call-IsSound :
      {A B : Type 0} (r : Attempt A × Session P) (k : A → Call P B)
      → IsSound r.1
      → ((a : A) (s : Session P) → IsSound s → IsSound (k a s).1)
      → IsSound (then_call r k).1
  then_call-IsSound (done a, s) k h next = next a s h
  then_call-IsSound (failed m, s) k h next = h

  local-IsSound :
      (f : P.Files → Attempt (Unit {0}) × P.Files) (s : Session P)
      → IsSound s
      → IsSound (perform_local P f s).1
  local-IsSound f s h = record { normal = h.normal; unique = h.unique }

  copy_existing-IsSound :
      (path temp : String) (s : Session P) → IsSound s → IsSound (copy_existing P E path temp s).1
  unfolding copy_existing
  copy_existing-IsSound path temp s h =
      let op = get_file_path P E.root E.user path in
      let kept =
        storage-IsSound op s (get_file_path-Keeps KeepsUnique-IsRespected P E.root E.user path) h in
      let s' = (storage P op s).1 in
      elim (Result-cases (op s.world).0) [
        | inr (e, f) ↦ ground (arith, kept)
        | inl (existing, f) ↦ ground (arith, local-IsSound (E.copy existing temp) s' kept)
      ]

  save_temp-IsSound :
      (path temp : String) (s : Session P) → IsSound s → IsSound (save_temp P E path temp s).1
  unfolding save_temp
  save_temp-IsSound path temp s h =
      let op = save_file_from_path P E.user (parent path) (path_name path) temp in
      let kept =
        storage-IsSound op s
          (save_file_from_path-Keeps KeepsUnique-IsRespected P E.user (parent path) (path_name path)
            temp)
          h in
      ground (arith, kept, local-IsSound (P.remove_local temp) (storage P op s).1 kept)

  write_through-IsSound :
      (path content temp : String) (append : Bool) (s : Session P)
      → IsSound s
      → IsSound (write_through P E path content append temp s).1
  unfolding write_through
  write_through-IsSound path content temp true s h =
      then_call-IsSound (copy_existing P E path temp s)
        (λ _. perform_local P (E.append temp (E.encode content)) >> save_temp P E path temp)
        (copy_existing-IsSound path temp s h)
        (λ _ v k.
          then_call-IsSound (perform_local P (E.append temp (E.encode content)) v)
            (λ _. save_temp P E path temp) (local-IsSound (E.append temp (E.encode content)) v k)
            (λ _ u. save_temp-IsSound path temp u))
  write_through-IsSound path content temp false s h =
      then_call-IsSound (perform_local P (E.append temp (E.encode content)) s)
        (λ _. save_temp P E path temp) (local-IsSound (E.append temp (E.encode content)) s h)
        (λ _ u. save_temp-IsSound path temp u)

  write_file-IsSound :
      (path content : String) (append : Bool) (s : Session P)
      → IsSound s
      → IsSound (write_file P E path content append s).1
  unfolding write_file
  write_file-IsSound path content append s h =
      let path' = resolve_path s.cwd E.user path in
      then_call-IsSound (call P (fresh P) s)
        (λ id. write_through P E path' content append (temp_path P E id))
        (call-IsSound (fresh P) s (fresh-Keeps KeepsUnique-IsRespected P) h)
        (λ id v. write_through-IsSound path' content (temp_path P E id) append v)

  read_dir-IsSound : (path : String) (s : Session P) → IsSound s → IsSound (read_dir P E path s).1
  unfolding read_dir
  read_dir-IsSound path s h =
      let op = list P E.user (some (resolve_path s.cwd E.user path)) none none in
      ground (
        arith,
        call-IsSound op s
            (list-Keeps KeepsUnique-IsRespected P E.user (some (resolve_path s.cwd E.user path))
              none none)
            h,
      )

  read_file-IsSound : (path : String) (s : Session P) → IsSound s → IsSound (read_file P E path s).1
  unfolding read_file
  read_file-IsSound path s h =
      let op = get_file_path P E.root E.user (resolve_path s.cwd E.user path) in
      ground (
        arith,
        call-IsSound op s
            (get_file_path-Keeps KeepsUnique-IsRespected P E.root E.user
              (resolve_path s.cwd E.user path))
            h,
      )

-- Every call that a script can make keeps a session sound: after it the working directory is an
-- absolute path without empty parts, "." and "..", and the key of the table of files is unique. That
-- holds where the call fails, too.
pub calls-KeepSound :
    (P : Platform) (E : Engine P) (s : Session P)
    → IsSound s
    → ((path : String) → IsSound (read_dir P E path s).1)
      × ((path : String) → IsSound (read_file P E path s).1)
      × ((path content : String) (append : Bool) → IsSound (write_file P E path content append s).1)
      × ((path : String) → IsSound (make_dir P E path s).1)
      × ((fuel : ℕ) (path : String) → IsSound (delete_file P E fuel path s).1)
      × ((from to : String) → IsSound (rename_file P E from to s).1)
      × ((path : String) → IsSound (chdir P E path s).1)
unfolding make_dir delete_file rename_file chdir
calls-KeepSound P E s h =
    let L = KeepsUnique-IsRespected in
    let at : String → String = resolve_path s.cwd E.user in
    (
      λ path. read_dir-IsSound P E path s h,
      λ path. read_file-IsSound P E path s h,
      λ path content append. write_file-IsSound P E path content append s h,
      λ path. call-IsSound P E (mkdir P E.user (at path)) s (mkdir-Keeps L P E.user (at path)) h,
      λ fuel path.
          call-IsSound P E (delete P fuel E.user (some (at path))) s
            (delete-Keeps L P fuel E.user (some (at path))) h,
      λ from to.
          call-IsSound P E (rename P E.user (some (at from)) (some (at to))) s
            (rename-Keeps L P E.user (some (at from)) (some (at to))) h,
      λ path. record {
        normal = resolve_path-IsNormal s.cwd E.user path h.normal;
        unique = h.unique;
      },
    )

-- A command line keeps a session sound, if the scripts do.
pub execute_script-KeepsSound :
    (P : Platform) (E : Engine P) (command : String) (s : Session P)
    → ((code : String) (args : List String) (v : Session P)
        → IsSound v
        → IsSound (E.run_js code args v).1)
    → IsSound s
    → IsSound (execute_script P E command s).1
execute_script-KeepsSound P E command s js h =
    let L = KeepsUnique-IsRespected in
    execute_script-Keeps P E (λ v. IsSound v) js
      (λ path v.
        storage-IsSound P E (get_file_path P E.root E.user path) v
          (get_file_path-Keeps L P E.root E.user path))
      (λ dir name bytes v.
        storage-IsSound P E (save_file P E.user dir name bytes) v
          (save_file-Keeps L P E.user dir name bytes))
      command s h
