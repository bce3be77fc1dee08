-- ===== src/Storage/Access/Stays.antt =====
-- Paths whose parts climb out of no directory, and the operations that keep them so.
use text.Mathlib.TextLemmas.{nil-append, cons-append, append_assoc}
use nasserver.Base.{
  String, Char, ◌≡◌, ap, ◌≢◌, Bool, true, false, not, List, [], ◌∷◌, ◌++◌, All, arith, All-append,
  All-append_right, all, ◌∙◌,
}
use nasserver.Base.Text.{
  ◌<>◌, ◌=s=◌, eq_iff, starts_with, split, join, trim_start_char, trim_start_matches,
}
use nasserver.Base.Text.Laws.{Lacks, split-append, split-join, split-Lacks, split_of_Lacks}
use nasserver.Base.Text.Prefix.{trim_start_matches-append}
use nasserver.Storage.Access.{joined, is_date, is_digits}
use nasserver.Domain.{}
use nasserver.Storage.Paths.Laws.{All-map, keep-All, All-map2}
use nasserver.Storage.Paths.{slash, path_parts}

-- No part of the path is "..", so it climbs out of no directory.
abbrev pub Stays : String → Type 0
Stays s = All (λ x. x ≢ "..") (split b'/' s)

pub split-slash : (s t : String) → split b'/' (s <> ("/" <> t)) ≡ split b'/' s ++ split b'/' t
split-slash s t = rw (cons-append slash "" t, nil-append) (split-append slash s t)

pub Stays-below : (s t : String) → Stays s → Stays t → Stays (s <> ("/" <> t))
Stays-below s t h k = rw split-slash (All-append (λ x. x ≢ "..") (split b'/' s) (split b'/' t) h k)

pub Stays-right : (s t : String) → Stays (s <> ("/" <> t)) → Stays t
Stays-right s t h = All-append_right _ (split b'/' s) (split b'/' t) (rw split-slash at h)

pub Stays-slash : (s : String) → Stays s → Stays ("/" <> s)
unfolding split
Stays-slash s h = rw (cons-append slash "" s, nil-append) (ground (arith, eq_iff "" ".."), h)

unfoldable pub stays_test : String → Bool
unfolding split
stays_test s = all (λ x. not (x =s= "..")) (split b'/' s)

-- A literal's parts are checked by evaluation.
pub stays_test_sound : (s : String) → stays_test s ≡ true → Stays s
unfolding stays_test
stays_test_sound s h = parts (split b'/' s) h
  where
    parts : (xs : List String) → all (λ x. not (x =s= "..")) xs ≡ true → All (λ x. x ≢ "..") xs
    parts [] _ = tt
    parts (x ∷ xs) h = (ground (arith, eq_iff x ".."), parts xs (ground arith))

pub Stays-trim : (s : String) → Stays s → Stays (trim_start_char b'/' s)
unfolding trim_start_char split
Stays-trim String.[] h = h
Stays-trim (String.◌∷◌ c s) h = ground (arith, Stays-trim s)

-- A resolved path: below `vol1` in the object store, and with no "..".
abbrev pub IsConfined : String → Type 0
IsConfined op = (rest : String) × (op ≡ "vol1/" <> rest) × Stays op

-- A literal directory with a slash at its end, seen as a directory and a slash.
pub Stays-dir : (dir s : String) → Stays dir → Stays s → Stays ((dir <> "/") <> s)
Stays-dir dir s h k = rw (append_assoc dir "/" s) (Stays-below dir s h k)

-- After one prefix directory is trimmed and its slash, what is left has no ".." either.
pub Stays-trimmed :
    (c : Char) (p s : String)
    → Stays ((String.◌∷◌ c p <> "/") <> s)
    → starts_with ((String.◌∷◌ c p <> "/") <> s) (String.◌∷◌ c p <> String.◌∷◌ c p) ≡ false
    → Stays
        (trim_start_char b'/' (trim_start_matches ((String.◌∷◌ c p <> "/") <> s) (String.◌∷◌ c p)))
Stays-trimmed c p s h once =
    let q = String.◌∷◌ c p in
    let e = append_assoc q "/" s in
    rw (e, trim_start_matches-append c p ("/" <> s) (rw e at once))
      (Stays-trim ("/" <> s) (Stays-slash s (Stays-right q s (rw e at h))))

pub IsConfined-below :
    (dir s : String)
    → Stays dir
    → Stays s
    → (rest : String) × (dir <> "/" ≡ "vol1/" <> rest)
    → IsConfined ((dir <> "/") <> s)
IsConfined-below dir s h k (rest, e) =
    (rest <> s, ap (λ t. t <> s) e ∙ append_assoc "vol1/" rest s, Stays-dir dir s h k)

-- A part of a path, alone.
abbrev pub IsPart : String → Type 0
IsPart x = (x ≢ "..") × Lacks b'/' x

pub Stays-part : (x : String) → IsPart x → Stays x
Stays-part x (p, q) = rw (split_of_Lacks b'/' x q) (p, tt)

pub Stays-join : (x : String) (xs : List String) → All IsPart (x ∷ xs) → Stays (join "/" (x ∷ xs))
Stays-join x xs h =
    rw (split-join slash x xs (All-map IsPart _ (x ∷ xs) (λ y q. q.1) h))
      (All-map IsPart _ (x ∷ xs) (λ y q. q.0) h)

pub path_parts-IsPart : (p : String) → Stays p → All IsPart (path_parts p)
unfolding path_parts
path_parts-IsPart p h =
    All-map2 (λ x. x ≢ "..") (Lacks b'/') IsPart (path_parts p) (λ x a b. (a, b))
      (keep-All (λ x. x ≢ "..") _ (split b'/' p) h)
      (keep-All (Lacks b'/') _ (split b'/' p) (split-Lacks b'/' p))

-- A directory with a first part, and the other parts below it.
pub joined-IsConfined :
    (dir x : String) (xs : List String)
    → Stays dir
    → All IsPart (x ∷ xs)
    → (rest : String) × (dir <> "/" ≡ "vol1/" <> rest)
    → IsConfined (joined ((dir <> "/") <> x) xs)
joined-IsConfined dir x [] h (p, _) start = IsConfined-below dir x h (Stays-part x p) start
joined-IsConfined dir x (y ∷ ys) h (p, k) start =
    let (rest, e, s) = IsConfined-below dir x h (Stays-part x p) start in
    let more = join "/" (y ∷ ys) in
    (
      rest <> ("/" <> more),
      ap (λ t. t <> ("/" <> more)) e ∙ append_assoc "vol1/" rest ("/" <> more),
      Stays-below _ more s (Stays-join y ys k),
    )

is_digits-Lacks : (s : String) → is_digits s ≡ true → Lacks b'/' s
unfolding is_digits
is_digits-Lacks String.[] h = tt
is_digits-Lacks (String.◌∷◌ c s) h = (ground arith, is_digits-Lacks s (ground arith))

pub is_date-Stays : (s : String) → is_date s ≡ true → Stays s
unfolding is_date
is_date-Stays s h =
    Stays-part s ((λ e. cc (rw e at (the_digits s h))), is_digits-Lacks s (the_digits s h))
  where
    the_digits : (t : String) → is_date t ≡ true → is_digits t ≡ true
    the_digits t k = ground arith

pub IsConfined-under :
    (base s : String) → IsConfined base → Stays s → IsConfined (base <> ("/" <> s))
IsConfined-under base s (rest, e, h) k = (
  rest <> ("/" <> s),
  ap (λ t. t <> ("/" <> s)) e ∙ append_assoc "vol1/" rest ("/" <> s),
  Stays-below base s h k,
)
