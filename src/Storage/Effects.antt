-- ===== src/Storage/Effects.antt =====
-- What every operation of crates/storage/src/storage_service.rs does to the tables, from what its
-- statements do: a relation that each statement respects, every operation respects, also where it
-- fails halfway.
pub mod Operations
pub mod Moves
pub mod Restores
pub mod Bins
pub mod Deletes
pub mod Integrity
pub mod Readings
use nasserver.Base.{
  ℕ, ◌+◌, String, ◌≡◌, refl, Bool, true, false, Option, none, some, List, [], ◌∷◌, arith,
  if◌then◌else◌, Option-cases, inl, inr,
}
use nasserver.Domain.{
  Error, Result, ok, err, Attempt, done, failed, M, after, pure, fail, require, expect, ignore,
  ◌>>=◌, ◌>>◌,
}
use nasserver.Storage.World.{
  CloudFile, TrashItem, Db, Platform, World, Op, query, execute, commit, fresh, inspect, perform,
}
use nasserver.Storage.Tables.{
  insert_cloud_file, insert_or_skip, upsert_cloud_file, set_content, set_size_mime,
  delete_cloud_files, update_cloud_files, insert_trash_item, insert_trash_or_skip,
  delete_trash_items,
}

-- A change of the tables that a relation allows.
abbrev pub Respects : (Db → Db → Type 0) → (Db → Option Db) → Type 0
Respects R f = (db db' : Db) → f db ≡ some db' → R db db'

-- A relation that the statements respect.
pub record IsRespected (R : Db → Db → Type 0) : Type 0 where
  pub same : (db : Db) → R db db
  pub chain : (a b c : Db) → R a b → R b c → R a c
  pub inserts : (f : CloudFile) → Respects R (insert_cloud_file f)
  pub skips : (f : CloudFile) → Respects R (insert_or_skip f)
  pub saves : (f : CloudFile) → Respects R (upsert_cloud_file f (set_content f))
  pub restores : (f : CloudFile) → Respects R (upsert_cloud_file f (set_size_mime f))
  pub deletes : (p : CloudFile → Bool) → Respects R (delete_cloud_files p)
  pub updates :
      (p : CloudFile → Bool) (change : CloudFile → CloudFile)
      → Respects R (update_cloud_files p change)
  pub trashes : (t : TrashItem) → Respects R (insert_trash_item t)
  pub trashes_dir : (t : TrashItem) → Respects R (insert_trash_or_skip t)
  pub purges : (p : TrashItem → Bool) → Respects R (delete_trash_items p)

module _ {R : Db → Db → Type 0} (L : IsRespected R) (P : Platform) where
  -- The operation's effect on the tables is allowed, from every world.
  pub record Keeps {A : Type 0} (op : Op P A) : Type 0 where
    pub run : (w : World P) → R w.db (op w).1.db

  pub pure-Keeps : {A : Type 0} (a : A) → Keeps (pure a)
  pure-Keeps a = record { run = λ w. L.same w.db }

  pub fail-Keeps : {A : Type 0} (e : Error) → Keeps {A = A} (fail e)
  fail-Keeps e = record { run = λ w. L.same w.db }

  after-Keeps :
      {A B : Type 0} (db : Db) (r : Result A × World P) (k : A → Op P B)
      → R db r.1.db
      → ((a : A) → Keeps (k a))
      → R db (after r k).1.db
  after-Keeps db (ok a, v) k h next = L.chain db v.db (k a v).1.db h ((next a).run v)
  after-Keeps db (err e, v) k h next = h

  pub bind-Keeps :
      {A B : Type 0} {m : Op P A} {k : A → Op P B}
      → Keeps m
      → ((a : A) → Keeps (k a))
      → Keeps (m >>= k)
  bind-Keeps {m = m} {k = k} h next = record { run = λ w. after-Keeps w.db (m w) k (h.run w) next }

  pub then-Keeps :
      {B : Type 0} {m : Op P (Unit {0})} {k : Op P B} → Keeps m → Keeps k → Keeps (m >> k)
  then-Keeps h next = bind-Keeps h (λ _. next)

  pub ignore-Keeps : {A : Type 0} {m : Op P A} → Keeps m → Keeps (ignore m)
  ignore-Keeps h = record { run = λ w. h.run w }

  pub require-Keeps : (b : Bool) (e : Error) → Keeps (require b e)
  require-Keeps true e = record { run = λ w. L.same w.db }
  require-Keeps false e = record { run = λ w. L.same w.db }

  pub expect-Keeps : {A : Type 0} (o : Option A) (e : Error) → Keeps (expect o e)
  expect-Keeps none e = record { run = λ w. L.same w.db }
  expect-Keeps (some a) e = record { run = λ w. L.same w.db }

  pub if-Keeps :
      {A : Type 0} (b : Bool) {m n : Op P A} → Keeps m → Keeps n → Keeps (if b then m else n)
  if-Keeps true h k = h
  if-Keeps false h k = k

  pub query-Keeps : {A : Type 0} (f : Db → A) → Keeps (query P f)
  query-Keeps f = record {
    run = λ w. elim (Option-cases (P.fault w.tick)) [
      | inl e ↦ rw (e, query) (L.same w.db)
      | inr (message, e) ↦ rw (e, query) (L.same w.db)
    ];
  }

  commit-Keeps :
      (f : Db → Option Db) (w : World P) (o : Option Db)
      → f w.db ≡ o
      → Respects R f
      → R w.db (commit P o w).1.db
  commit-Keeps f w none e h = L.same w.db
  commit-Keeps f w (some db) e h = h w.db db e

  pub execute-Keeps : (f : Db → Option Db) → Respects R f → Keeps (execute P f)
  execute-Keeps f h = record {
    run = λ w. elim (Option-cases (P.fault w.tick)) [
      | inl e ↦ rw (e, execute) (commit-Keeps f (record w { tick = w.tick + 1 }) (f w.db) refl h)
      | inr (message, e) ↦ rw (e, execute) (L.same w.db)
    ];
  }

  pub fresh-Keeps : Keeps (fresh P)
  fresh-Keeps = record { run = λ w. L.same w.db }

  pub inspect-Keeps : {A : Type 0} (f : P.Files → Attempt A) → Keeps (inspect P f)
  inspect-Keeps f = record { run = λ w. L.same w.db }

  pub perform-Keeps : (f : P.Files → Attempt (Unit {0}) × P.Files) → Keeps (perform P f)
  perform-Keeps f = record { run = λ w. L.same w.db }

  -- An operation that leaves the tables as they are.
  pub still-Keeps : {A : Type 0} {op : Op P A} → ((w : World P) → (op w).1.db ≡ w.db) → Keeps op
  still-Keeps h = record { run = λ w. rw (h w) (L.same w.db) }
