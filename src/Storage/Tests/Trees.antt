-- ===== src/Storage/Tests/Trees.antt =====
-- A store with a directory that may hold another one, and the theorem about trashing a directory applied
-- to it.
use nasserver.Base.{
  ℕ, String, ◌≡◌, refl, ◌∙◌, ◌≢◌, ◌⊎◌, inl, inr, Bool, true, false, List, [], ◌∷◌, any, arith, ◌<◌,
  if◌then◌else◌, Bool-cases,
}
use mathlib.Core.Path.{sym}
use nasserver.Base.Text.{◌=s=◌, split, join, ends_with_char, replace_char}
use nasserver.Domain.{ok, done}
use nasserver.Storage.World.{Entry, Platform, World, Bytes}
use nasserver.Storage.Paths.{normal_parts, is_kept}
use nasserver.Storage.Access.{resolve_opendal_path}
use nasserver.Storage.Trash.{trash_directories}
use nasserver.Storage.Isolation.UserPaths.{IsUserPath, user-resolves}
use nasserver.Storage.Delete.Ends.{
  IsFinite, ListsInside, listing, listed_weight, trash_directories-Ends,
}
use nasserver.Storage.Sample.{platform, db}

abbrev inner : Entry
inner = record {
  name = "y";
  metadata = record { is_dir = true; is_file = false; content_length = 0 };
}

abbrev leaf : Entry
leaf = record {
  name = "a";
  metadata = record { is_dir = false; is_file = true; content_length = 0 };
}

abbrev has_inner : List (String × Bytes) → Bool
has_inner = any (λ f. f.0 =s= "vol1/User/bob/x/y/")

-- The directory "x" holds a file and, once it has been made, the directory "y".
abbrev tree : Platform
tree = record platform {
  create_dir = λ path s. (done tt, (path, []) ∷ s);
  list = λ path s. done (
      if path =s= "vol1/User/bob/x/"
      then (if has_inner s then inner ∷ leaf ∷ [] else leaf ∷ [])
      else []);
}

abbrev Inside : String → Type 0
Inside path = (path ≡ "/User/bob/x") ⊎ (path ≡ "/User/bob/x/y")

abbrev weight : String → ℕ
weight path = if path =s= "/User/bob/x" then 2 else 1

x_path : IsUserPath "bob" ("x" ∷ []) "/User/bob/x"
unfolding normal_parts is_kept split replace_char
x_path = refl

y_path : IsUserPath "bob" ("x" ∷ "y" ∷ []) "/User/bob/x/y"
unfolding normal_parts is_kept split replace_char
y_path = refl

x_source :
    (src : String) (w v : World tree)
    → resolve_opendal_path tree "bob" "/User/bob/x" w ≡ (ok src, v)
    → src ≡ "vol1/User/bob/x"
unfolding join
x_source src w v e =
    let found = sym (user-resolves "bob" "/User/bob/x" ("x" ∷ []) x_path tree "bob" w) ∙ e in
    ground arith

y_source :
    (src : String) (w v : World tree)
    → resolve_opendal_path tree "bob" "/User/bob/x/y" w ≡ (ok src, v)
    → src ≡ "vol1/User/bob/x/y"
unfolding join
y_source src w v e =
    let found =
      sym (user-resolves "bob" "/User/bob/x/y" ("x" ∷ "y" ∷ []) y_path tree "bob" w) ∙ e in
    ground arith

tree_closed :
    (curr src : String) (w v : World tree)
    → Inside curr
    → Unit {0}
    → resolve_opendal_path tree "bob" curr w ≡ (ok src, v)
    → ListsInside Inside curr (listing tree src v.files)
unfolding ends_with_char
tree_closed curr src w v (inl e) _ found =
    rw (e, x_source src w v (rw e at found))
      (elim (Bool-cases (has_inner v.files)) [
        | inl f ↦ rw f (λ _. inr refl, (λ h. cc, tt))
        | inr f ↦ rw f (λ h. cc, tt)
      ])
tree_closed curr src w v (inr e) _ found = rw (y_source src w v (rw e at found)) tt

tree_shrinks :
    (curr src : String) (w v : World tree)
    → Inside curr
    → Unit {0}
    → resolve_opendal_path tree "bob" curr w ≡ (ok src, v)
    → listed_weight weight curr (listing tree src v.files) < weight curr
unfolding ends_with_char
tree_shrinks curr src w v (inl e) _ found =
    rw (e, x_source src w v (rw e at found))
      (elim (Bool-cases (has_inner v.files)) [
        | inl f ↦ rw f (omega arith)
        | inr f ↦ rw f (omega arith)
      ])
tree_shrinks curr src w v (inr e) _ found = rw (e, y_source src w v (rw e at found)) (omega arith)

tree-IsFinite : IsFinite tree (λ fs. Unit {0}) Inside "bob" weight
tree-IsFinite = record {
  kept = record {
    makes = λ username hash dir fs e j. tt;
    archives = λ username from hash fs j. tt;
    removes = λ path fs j. tt;
  };
  positive = λ path. elim (Bool-cases (path =s= "/User/bob/x")) [
    | inl e ↦ rw e (omega arith)
    | inr e ↦ rw e (omega arith)
  ];
  closed = tree_closed;
  shrinks = tree_shrinks;
}

abbrev full : World tree
full = record { db = db; files = ("vol1/User/bob/x/y/", []) ∷ []; tick = 0 }

trash_directories-Ends_example :
    (trash_directories tree 2 "bob" ("/User/bob/x" ∷ []) full).0 ≢ ok false
trash_directories-Ends_example =
    trash_directories-Ends tree (λ fs. Unit {0}) Inside "bob" weight tree-IsFinite 2
      ("/User/bob/x" ∷ []) full (inl refl, tt) tt (omega arith)
