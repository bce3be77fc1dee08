-- ===== src/Container/Pull/Progress.antt =====
-- What a pull leaves in the map of pulled images.
use nasserver.Base.{
  ◌≤◌, ◌<◌, String, ◌≡◌, refl, ap, ◌∙◌, Bool, true, false, Option, none, some, List, [], ◌∷◌, All,
  ltb, arith, Bool-cases, inl, inr, Option-cases,
}
use nasserver.Base.Text.{◌=s=◌, eq_refl}
use nasserver.Base.Maps.{
  lookup, remove, insert, modify, lookup-remove, lookup-modify, lookup-modify_other,
}
use nasserver.Container.Pull.{
  LayerStatus, PullStatus, Pulling, PullEvent, info, broken, default_status, sum_current, sum_total,
  told, with_layer, with_progress, set_pull_error, pull_loop, run_pull,
}

-- The first error of a stream.
abbrev pub first_error : List PullEvent → Option String
first_error [] = none
first_error (broken message ∷ events) = some message
first_error (info id detail ∷ events) = first_error events

-- No layer has more than its total.
abbrev IsFilled : List (String × LayerStatus) → Type 0
IsFilled = All (λ l. l.1.current ≤ l.1.total)

-- The progress is at most one.
abbrev pub IsFraction : PullStatus → Type 0
IsFraction s = elim s.progress [ none ↦ Unit | some (a, b) ↦ (a ≤ b) × (0 < b) ]

abbrev pub IsPart : Option (String × LayerStatus) → Type 0
IsPart none = Unit
IsPart (some (id, l)) = l.current ≤ l.total

-- Docker tells of no layer that has more than its total.
abbrev pub IsHonest : PullEvent → Type 0
IsHonest (broken message) = Unit
IsHonest (info id detail) = IsPart (told id detail)

abbrev IsSound : PullStatus → Type 0
IsSound s = IsFraction s × IsFilled s.layers

remove-IsFilled :
    (k : String) (ls : List (String × LayerStatus)) → IsFilled ls → IsFilled (remove k ls)
remove-IsFilled k [] h = tt
remove-IsFilled k ((j, l) ∷ ls) (p, h) = ground (arith, remove-IsFilled k ls h)

sum_current-le : (ls : List (String × LayerStatus)) → IsFilled ls → sum_current ls ≤ sum_total ls
sum_current-le [] h = omega arith
sum_current-le ((j, l) ∷ ls) (p, h) = omega (arith, sum_current-le ls h)

with_layer-IsSound :
    (t : Option (String × LayerStatus)) (s : PullStatus)
    → IsPart t
    → IsSound s
    → IsSound (with_layer t s)
with_layer-IsSound none s h k = k
with_layer-IsSound (some (i, l)) s h (f, k) = (f, (h, remove-IsFilled i s.layers k))

with_progress-IsSound : (s : PullStatus) → IsSound s → IsSound (with_progress s)
with_progress-IsSound s (f, k) = elim (Bool-cases (ltb 0 (sum_total s.layers))) [
  | inl e ↦ rw e ((sum_current-le s.layers k, ground arith), k)
  | inr e ↦ rw e (f, k)
]

with_progress-error : (s : PullStatus) → (with_progress s).error ≡ s.error
with_progress-error s = ground arith

with_layer-error :
    (t : Option (String × LayerStatus)) (s : PullStatus) → (with_layer t s).error ≡ s.error
with_layer-error none s = refl
with_layer-error (some (i, l)) s = refl

abbrev is_none : Option String → Bool
is_none none = true
is_none (some m) = false

-- The error of a status after the stream.
abbrev error_after : Option String → Option String → Option String
error_after none e = e
error_after (some m) e = some m

pull_loop-IsSound :
    (image : String) (events : List PullEvent) (p : Pulling) (s : PullStatus)
    → All IsHonest events
    → lookup image p ≡ some s
    → IsSound s
    → ((pull_loop image events p).0 ≡ is_none (first_error events))
      × ((s' : PullStatus) × (lookup image (pull_loop image events p).1 ≡ some s')
          × IsSound s'
          × (s'.error ≡ error_after (first_error events) s.error))
unfolding pull_loop
pull_loop-IsSound image [] p s h e k = (refl, (s, e, k, refl))
pull_loop-IsSound image (broken m ∷ events) p s h e k = (
  refl,
  (
    set_pull_error m s,
    lookup-modify image image (set_pull_error m) p s e ∙ rw (eq_refl image) refl,
    k,
    refl,
  ),
)
pull_loop-IsSound image (info id detail ∷ events) p s (honest, h) e k =
    let f : PullStatus → PullStatus = λ t. with_progress (with_layer (told id detail) t) in
    let sound =
      with_progress-IsSound (with_layer (told id detail) s)
        (with_layer-IsSound (told id detail) s honest k) in
    let (b, (s', l, q, err)) =
      pull_loop-IsSound image events (modify image f p) (f s) h
        (lookup-modify image image f p s e ∙ rw (eq_refl image) refl) sound in
    (
      b,
      (
        s',
        l,
        q,
        err
            ∙ ap (error_after (first_error events)) (
                with_progress-error (with_layer (told id detail) s)
                ∙ with_layer-error (told id detail) s),
      ),
    )

pull_loop-others :
    (image k : String) (events : List PullEvent) (p : Pulling)
    → (image =s= k) ≡ false
    → lookup k (pull_loop image events p).1 ≡ lookup k p
unfolding pull_loop
pull_loop-others image k [] p h = refl
pull_loop-others image k (broken m ∷ events) p h =
    lookup-modify_other k image (set_pull_error m) p h
pull_loop-others image k (info id detail ∷ events) p h =
    pull_loop-others image k events _ h ∙ lookup-modify_other k image _ p h

-- What is left of a pull, by the first error that was met.
abbrev pub Leaves : Option String → Option PullStatus → Type 0
Leaves none left = left ≡ none
Leaves (some message) left =
    (s : PullStatus) × (left ≡ some s) × (s.error ≡ some message) × IsFraction s

-- A pull whose stream ends well leaves no entry, and one that breaks leaves an entry with its first
-- error and a progress of at most one, if Docker tells of no layer that has more than its total. The
-- entries of other images stay as they are.
pub run_pull-Leaves :
    (image : String) (events : List PullEvent) (p : Pulling)
    → All IsHonest events
    → Leaves (first_error events) (lookup image (run_pull image events p))
      × ((k : String) → (image =s= k) ≡ false → lookup k (run_pull image events p) ≡ lookup k p)
unfolding run_pull
run_pull-Leaves image events p h =
    let q = pull_loop image events (insert image default_status p) in
    let (success, (s, entry, sound, error)) =
      pull_loop-IsSound image events (insert image default_status p) default_status h
        (rw (eq_refl image) refl) (tt, tt) in
    (
      elim (Option-cases (first_error events)) [
        | inl e ↦ rw (e, success) (rw e (lookup-remove image image q.1 ∙ rw (eq_refl image) refl))
        | inr (m, e) ↦ rw (e, success) (rw e (s, entry, error ∙ rw e refl, sound.0))
      ],
      λ k other.
          let new : lookup k (insert image default_status p) ≡ lookup k p =
            rw other (rw (lookup-remove k image p) (rw other refl)) in
          let same : lookup k q.1 ≡ lookup k p =
            pull_loop-others image k events (insert image default_status p) other ∙ new in
          elim (Bool-cases q.0) [
            | inl e ↦ rw e (rw (lookup-remove k image q.1) (rw other same))
            | inr e ↦ rw e same
          ],
    )
