-- ===== src/Agent/Commands/Desks.antt =====
-- The working directories of the sessions: `execute_command` of
-- crates/agent/src/agent_service.rs.
use mathlib.Core.Path.{subst}
use text.Mathlib.TextLemmas.{append_assoc}
use nasserver.Base.{
  Option-cases, String, ◌≡◌, refl, ◌∙◌, false, Option, none, some, List, [], ◌∷◌, All, arith, inl,
  inr, Bool-cases,
}
use nasserver.Base.Text.{◌<>◌, ◌=s=◌, eq_iff, eq_refl, join}
use nasserver.Domain.{ok, Attempt, done, Result-cases}
use nasserver.Storage.World.{Platform}
use nasserver.Storage.Paths.Laws.{IsSafe}
use nasserver.Storage.Tables.Unique.{IsUnique}
use nasserver.Kernel.Paths.Laws.{IsNormal}
use nasserver.Kernel.Session.{Session, Engine}
use nasserver.Kernel.Files.Sound.{execute_script-KeepsSound}
use nasserver.Kernel.Scripts.{ActsByCalls, run_js-IsSound}
use nasserver.Kernel.Service.{Answer, execute_script}
use nasserver.Agent.Commands.{
  find_cwd, set_cwd, cwd_or_home, key_of, Desk, username_or_admin, engine_of, run_in,
  execute_command,
}

find_cwd-set_cwd :
    (key cwd : String) (cwds : List (String × String))
    → find_cwd key (set_cwd key cwd cwds) ≡ some cwd
unfolding find_cwd set_cwd
find_cwd-set_cwd key cwd [] = rw (eq_refl key) refl
find_cwd-set_cwd key cwd ((k, old) ∷ cwds) = ground (arith, find_cwd-set_cwd key cwd cwds)

find_cwd-set_cwd_other :
    (key other cwd : String) (cwds : List (String × String))
    → (key =s= other) ≡ false
    → find_cwd other (set_cwd key cwd cwds) ≡ find_cwd other cwds
unfolding find_cwd set_cwd
find_cwd-set_cwd_other key other cwd [] h = rw h refl
find_cwd-set_cwd_other key other cwd ((k, old) ∷ cwds) h =
    ground (arith, find_cwd-set_cwd_other key other cwd cwds h, eq_iff k key)

-- A command that is run leaves the directory that it reports as that of its session, for the
-- session's next command, and leaves the directory of every other session alone.
pub execute_command-Isolates :
    (P : Platform) (E : Engine P) (username_of : String → Attempt String)
    (user_id session_id : Option String) (command other : String) (d d' : Desk P) (answer : Answer)
    (cwd : String)
    → execute_command P E username_of user_id session_id command d ≡ (ok (answer, cwd), d')
    → (find_cwd (key_of user_id session_id) d'.cwds ≡ some cwd)
      × ((key_of user_id session_id =s= other) ≡ false
          → find_cwd other d'.cwds ≡ find_cwd other d.cwds)
unfolding execute_command run_in
execute_command-Isolates P E username_of user_id session_id command other d d' answer cwd ran =
    elim (Result-cases (username_or_admin P E username_of user_id)) [
      | inr (e, f) ↦ absurd (ground arith)
      | inl (username, f) ↦
          let key = key_of user_id session_id in
          let s : Session P = record { cwd = cwd_or_home key username d.cwds; world = d.world } in
          let s' = (execute_script P (engine_of P E username_of username) command s).1 in
          (
            ground (arith, find_cwd-set_cwd key s'.cwd d.cwds),
            λ h. ground (arith, find_cwd-set_cwd_other key other s'.cwd d.cwds h),
          )
    ]

-- The names of accounts are plain.
abbrev pub AllSafe : (String → Attempt String) → Type 0
AllSafe username_of = (uid name : String) → username_of uid ≡ done name → IsSafe name

-- Every session is in a normal directory, and the key of the table of files is unique.
pub record IsTidy {P : Platform} (d : Desk P) : Type 0 where
  pub normal : All (λ (entry : String × String). IsNormal entry.1) d.cwds
  pub unique : IsUnique d.world.db

All-set_cwd :
    (key cwd : String) (cwds : List (String × String))
    → IsNormal cwd
    → All (λ (entry : String × String). IsNormal entry.1) cwds
    → All (λ (entry : String × String). IsNormal entry.1) (set_cwd key cwd cwds)
unfolding set_cwd
All-set_cwd key cwd [] n h = (n, tt)
All-set_cwd key cwd ((k, old) ∷ cwds) n (p, h) = elim (Bool-cases (k =s= key)) [
  | inl e ↦ rw e (n, h)
  | inr e ↦ rw e (p, All-set_cwd key cwd cwds n h)
]

find_cwd-IsNormal :
    (key cwd : String) (cwds : List (String × String))
    → All (λ (entry : String × String). IsNormal entry.1) cwds
    → find_cwd key cwds ≡ some cwd
    → IsNormal cwd
unfolding find_cwd
find_cwd-IsNormal key cwd [] h e = absurd (cc)
find_cwd-IsNormal key cwd ((k, c) ∷ cwds) (p, h) e = elim (Bool-cases (k =s= key)) [
  | inl f ↦ subst IsNormal (ground arith) p
  | inr f ↦ find_cwd-IsNormal key cwd cwds h (ground arith)
]

home-IsNormal : (name : String) → IsSafe name → IsNormal ("/User/" <> name)
unfolding join
home-IsNormal name safe = (
  "User" ∷ name ∷ [],
  append_assoc "/User" "/" name ∙ append_assoc "/" "User" ("/" <> name),
  (
    (λ e. cc, λ e. cc, λ e. cc, (omega arith, (omega arith, (omega arith, (omega arith, tt))))),
    (safe, tt),
  ),
)

cwd_or_home-IsNormal :
    (key username : String) (cwds : List (String × String))
    → IsSafe username
    → All (λ (entry : String × String). IsNormal entry.1) cwds
    → IsNormal (cwd_or_home key username cwds)
unfolding cwd_or_home
cwd_or_home-IsNormal key username cwds safe h = elim (Option-cases (find_cwd key cwds)) [
  | inl e ↦ rw (e, cwd_or_home) (home-IsNormal username safe)
  | inr (cwd, e) ↦ rw (e, cwd_or_home) (find_cwd-IsNormal key cwd cwds h e)
]

admin-IsSafe : IsSafe "admin"
admin-IsSafe = (
  λ e. cc,
  λ e. cc,
  λ e. cc,
  (omega arith, (omega arith, (omega arith, (omega arith, (omega arith, tt))))),
)

username-IsSafe :
    (P : Platform) (E : Engine P) (username_of : String → Attempt String) (user_id : Option String)
    (name : String)
    → AllSafe username_of
    → username_or_admin P E username_of user_id ≡ ok name
    → IsSafe name
unfolding username_or_admin
username-IsSafe P E username_of none name safe e = subst IsSafe (ground arith) admin-IsSafe
username-IsSafe P E username_of (some uid) name safe e = safe uid name (ground arith)

-- A command keeps every session, the new one included, in a normal directory: an absolute path without
-- empty parts, "." and ".."; and the key of the table of files stays unique. The scripts must act by the
-- calls alone that the terminal gives them, and the names of accounts must be plain: not empty, "." or
-- "..", and without a slash.
pub execute_command-KeepsTidy :
    (P : Platform) (E : Engine P) (username_of : String → Attempt String)
    (user_id session_id : Option String) (command : String) (d : Desk P)
    → AllSafe username_of
    → ActsByCalls P E
    → IsTidy d
    → IsTidy (execute_command P E username_of user_id session_id command d).1
unfolding execute_command run_in
execute_command-KeepsTidy P E username_of user_id session_id command d safe acts h =
    elim (Result-cases (username_or_admin P E username_of user_id)) [
      | inr (e, f) ↦ ground (arith, h)
      | inl (username, f) ↦
          let key = key_of user_id session_id in
          let s : Session P = record { cwd = cwd_or_home key username d.cwds; world = d.world } in
          let kept =
            execute_script-KeepsSound P (engine_of P E username_of username) command s
              (run_js-IsSound P E acts)
              (record {
                normal =
                    cwd_or_home-IsNormal key username d.cwds
                      (username-IsSafe P E username_of user_id username safe f) h.normal;
                unique = h.unique;
              }) in
          let s' = (execute_script P (engine_of P E username_of username) command s).1 in
          rw (f, execute_command)
            (record {
              normal = All-set_cwd key s'.cwd d.cwds kept.normal h.normal;
              unique = kept.unique;
            })
    ]
