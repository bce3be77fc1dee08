-- ===== src/Kernel/Files/Foreign.antt =====
-- Scripts and the files of other users: the calls of crates/kernel/src/sys/fs.rs.
use text.Mathlib.TextLemmas.{append_assoc}
use nasserver.Base.{
  ℕ, String, ◌≡◌, refl, ap, ◌∙◌, true, false, none, some, List, [], ◌∷◌, All, arith,
}
use nasserver.Base.Text.{◌<>◌, split, join}
use nasserver.Base.Text.Laws.{Lacks, split-join}
use nasserver.Storage.Paths.{slash, but_last}
use nasserver.Storage.Paths.Laws.{IsSafe, IsPlain, All-map, normal_parts_of_IsPlain}
use nasserver.Storage.Access.{check_app_access}
use nasserver.Storage.Access.Stays.{split-slash}
use nasserver.Kernel.Paths.Laws.{
  reached, reached_normal, walk_safe, resolve_path_relative, IsRelative,
}
use nasserver.Domain.{ok, failed}
use nasserver.Storage.World.{Platform, World, Op}
use nasserver.Storage.Save.{may_act}
use nasserver.Storage.Folders.{mkdir}
use nasserver.Storage.Reading.{get_file_path}
use nasserver.Storage.Delete.{delete}
use nasserver.Storage.Rename.{rename}
use nasserver.Storage.Isolation.{Refuses, foreign-Refuses, list-Refuses_foreign}
use nasserver.Storage.Isolation.UserPaths.{IsUserPath}
use nasserver.Kernel.Paths.{home, next_parts, walk, resolve_path}
use nasserver.Kernel.Session.{Session, Engine, Call, call}
use nasserver.Kernel.Files.{read_dir, read_file, make_dir, delete_file, rename_file}

-- The call fails, and the session is as it was.
abbrev pub IsDenied : {P : Platform} {A : Type 0} → Call P A → Session P → Type 0
IsDenied c s = c s ≡ (failed "Forbidden: Access denied", s)

call-IsDenied :
    (P : Platform) {A : Type 0} (op : Op P A) (s : Session P)
    → Refuses {P = P} op s.world
    → IsDenied {P = P} (call P op) s
call-IsDenied P op s h = rw h refl

-- The path from the own home to a path of another user.
abbrev pub climb : String → List String → String
climb owner rest = ".." <> ("/" <> join "/" (owner ∷ rest))

home-reached : (user : String) → IsSafe user → reached (home user) ≡ "User" ∷ user ∷ []
unfolding join
home-reached user safe =
    let User-IsSafe : IsSafe "User" =
      (λ e. cc, λ e. cc, λ e. cc, (omega arith, (omega arith, (omega arith, (omega arith, tt))))) in
    let spelled : home user ≡ "/" <> join "/" ("User" ∷ user ∷ []) =
      append_assoc "/User" "/" user ∙ append_assoc "/" "User" ("/" <> user) in
    ap reached spelled ∙ reached_normal ("User" ∷ user ∷ []) (User-IsSafe, (safe, tt))

climb-parts :
    (owner : String) (rest : List String)
    → All IsPlain (owner ∷ rest)
    → split b'/' (climb owner rest) ≡ ".." ∷ owner ∷ rest
unfolding split
climb-parts owner rest plain =
    split-slash ".." (join "/" (owner ∷ rest))
    ∙ ap (λ xs. ".." ∷ xs)
        (split-join slash owner rest
          (All-map IsPlain (Lacks b'/') (owner ∷ rest) (λ x q. q.0.3) plain))

-- From the own home, the path climbs to the other user's.
climb-IsUserPath :
    (user owner : String) (rest : List String)
    → IsSafe user
    → All IsPlain (owner ∷ rest)
    → IsRelative (climb owner rest)
    → IsUserPath owner rest (resolve_path (home user) user (climb owner rest))
unfolding walk next_parts but_last
climb-IsUserPath user owner rest safe plain relative =
    let parts = owner ∷ rest in
    let walked : walk (reached (home user)) (split b'/' (climb owner rest)) ≡ "User" ∷ parts =
      rw (home-reached user safe, climb-parts owner rest plain)
        (walk_safe ("User" ∷ []) parts (All-map IsPlain IsSafe parts (λ x q. q.0) plain)) in
    rw (resolve_path_relative (home user) user (climb owner rest) relative, walked)
      (normal_parts_of_IsPlain ("User" ∷ parts) (User-IsPlain, plain))
  where
    User-IsPlain : IsPlain "User"
    User-IsPlain = (
      (λ e. cc, λ e. cc, λ e. cc, (omega arith, (omega arith, (omega arith, (omega arith, tt))))),
      (omega arith, (omega arith, (omega arith, (omega arith, tt)))),
    )

-- A script that the terminal runs in the home directory of a user, and that names a path of another user
-- by climbing out of it, "../<owner>/…", is denied to read it, to make it as a directory, to delete it
-- and to move it to another path of the owner, unless the user is admin; the session, with the database
-- and the files, stays as it was. Where the user may use the file manager, listing it is denied, too, after
-- the query for that right. The names must be plain: not empty, "." or "..", without slashes and, for the
-- owner's, backslashes; and the paths without space around them.
pub foreign-IsDenied :
    (P : Platform) (E : Engine P) (s : Session P) (owner : String) (rest to_rest : List String)
    → s.cwd ≡ home E.user
    → IsSafe E.user
    → All IsPlain (owner ∷ rest)
    → All IsPlain (owner ∷ to_rest)
    → IsRelative (climb owner rest)
    → IsRelative (climb owner to_rest)
    → may_act E.user owner ≡ false
    → IsDenied {P = P} (read_file P E (climb owner rest)) s
      × IsDenied {P = P} (make_dir P E (climb owner rest)) s
      × ((fuel : ℕ) → IsDenied {P = P} (delete_file P E fuel (climb owner rest)) s)
      × IsDenied {P = P} (rename_file P E (climb owner rest) (climb owner to_rest)) s
      × ((v : World P)
          → check_app_access P E.user "file-manager" s.world ≡ (ok true, v)
          → read_dir P E (climb owner rest) s
            ≡ (failed "Forbidden: Access denied", record s { world = v }))
unfolding read_file make_dir delete_file rename_file read_dir
foreign-IsDenied P E s owner rest to_rest cwd safe plain to_plain relative to_relative foreign =
    let at = resolve_path s.cwd E.user (climb owner rest) in
    let at_to = resolve_path s.cwd E.user (climb owner to_rest) in
    let h : IsUserPath owner rest at =
      rw cwd (climb-IsUserPath E.user owner rest safe plain relative) in
    let k : IsUserPath owner to_rest at_to =
      rw cwd (climb-IsUserPath E.user owner to_rest safe to_plain to_relative) in
    let (saves, saves_from, makes, reads, finds, deletes, moves) =
      foreign-Refuses P E.user owner at at_to rest to_rest s.world h k foreign in
    (
      rw (call-IsDenied P (get_file_path P E.root E.user at) s (finds E.root)) refl,
      call-IsDenied P (mkdir P E.user at) s makes,
      λ fuel. call-IsDenied P (delete P fuel E.user (some at)) s (deletes fuel),
      call-IsDenied P (rename P E.user (some at) (some at_to)) s moves,
      λ v allowed.
          rw (list-Refuses_foreign P E.user owner at rest s.world v none none h foreign allowed)
            refl,
    )
