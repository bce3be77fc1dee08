-- ===== src/Kernel/Scripts.antt =====
-- What a script does to a session: the functions that crates/kernel/src/sys/fs.rs and
-- crates/kernel/src/sys/process.rs register with the JavaScript engine, called in some order.
use nasserver.Base.{ℕ, String, Bool, List, ◌≡◌}
use nasserver.Domain.{Attempt}
use nasserver.Storage.World.{Platform}
use nasserver.Kernel.Session.{Session, Engine}
use nasserver.Kernel.Files.{
  read_dir, read_file, write_file, make_dir, delete_file, rename_file, chdir,
}
use nasserver.Kernel.Files.Sound.{IsSound, calls-KeepSound}

pub data Request : Type 0 where
  reading_dir reading_file making_dir changing_dir : (path : String) → Request
  writing_file : (path content : String) (append : Bool) → Request
  deleting : (fuel : ℕ) (path : String) → Request
  renaming : (from to : String) → Request

pub data Reply : Type 0 where
  entries : Attempt (List (String × String)) → Reply
  text : Attempt String → Reply
  nothing : Attempt (Unit {0}) → Reply
  flag : Attempt Bool → Reply

-- A script ends with a result, or calls a function and goes on by what it answers.
pub data Script : Type 0 where
  ends : Attempt String → Script
  calls : Request → (Reply → Script) → Script

module _ (P : Platform) (E : Engine P) where
  unfoldable pub serve : Request → Session P → Reply × Session P
  serve (reading_dir path) s = let (r, s') = read_dir P E path s in (entries r, s')
  serve (reading_file path) s = let (r, s') = read_file P E path s in (text r, s')
  serve (making_dir path) s = let (r, s') = make_dir P E path s in (nothing r, s')
  serve (changing_dir path) s = let (r, s') = chdir P E path s in (text r, s')
  serve (writing_file path content append) s =
      let (r, s') = write_file P E path content append s in (nothing r, s')
  serve (deleting fuel path) s = let (r, s') = delete_file P E fuel path s in (flag r, s')
  serve (renaming from to) s = let (r, s') = rename_file P E from to s in (nothing r, s')

  unfoldable pub run : Script → Session P → Attempt String × Session P
  run (ends result) s = (result, s)
  run (calls request next) s = let (reply, s') = serve request s in run (next reply) s'

-- A script acts on a session by its calls alone, made for some user.
abbrev pub ActsByCalls : (P : Platform) → Engine P → Type 0
ActsByCalls P E =
    (code : String) (args : List String) (s : Session P)
    → (user : String) × (script : Script) × (E.run_js code args s
        ≡ run P (record E { user = user }) script s)

module _ (P : Platform) (E : Engine P) where
  serve-IsSound : (request : Request) (s : Session P) → IsSound s → IsSound (serve P E request s).1
  unfolding serve
  serve-IsSound request s h =
      let (dirs, files, writes, makes, deletes, renames, chdirs) = calls-KeepSound P E s h in
      elim request as (λ r. IsSound (serve P E r s).1) [
        | reading_dir path ↦ dirs path
        | reading_file path ↦ files path
        | making_dir path ↦ makes path
        | changing_dir path ↦ chdirs path
        | writing_file path content append ↦ writes path content append
        | deleting fuel path ↦ deletes fuel path
        | renaming from to ↦ renames from to
      ]

  run-IsSound : (script : Script) (s : Session P) → IsSound s → IsSound (run P E script s).1
  unfolding run
  run-IsSound (ends result) s h = h
  run-IsSound (calls request next) s h =
      run-IsSound (next (serve P E request s).0) (serve P E request s).1 (serve-IsSound request s h)

pub run_js-IsSound :
    (P : Platform) (E : Engine P)
    → ActsByCalls P E
    → (code : String) (args : List String) (s : Session P) → IsSound s
    → IsSound (E.run_js code args s).1
run_js-IsSound P E acts code args s h =
    let (user, script, e) = acts code args s in
    rw e (run-IsSound P (record E { user = user }) script s h)
