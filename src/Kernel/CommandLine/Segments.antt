-- ===== src/Kernel/CommandLine/Segments.antt =====
-- What the pipeline of `execute_user_command` in crates/kernel/src/service.rs consists of.
use mathlib.Core.List.{append_assoc}
use nasserver.Base.{
  String, ◌≡◌, refl, ◌≢◌, Bool, not, List, [], ◌∷◌, ◌++◌, keep, All, All-append, arith, Bool-cases,
  inl, inr,
}
use nasserver.Base.Text.{◌=s=◌, eq_iff}
use nasserver.Kernel.CommandLine.{segments_from, segments}

-- No token is the bar.
abbrev pub IsSegment : List String → Type 0
IsSegment segment = (segment ≢ []) × All (λ t. t ≢ "|") segment

abbrev not_bar : String → Bool
not_bar t = not (t =s= "|")

abbrev pub flat : List (List String) → List String
flat [] = []
flat (s ∷ ss) = s ++ flat ss

segments_from-IsSegment :
    (current tokens : List String)
    → All (λ t. t ≢ "|") current
    → All IsSegment (segments_from current tokens)
unfolding segments_from
segments_from-IsSegment [] [] h = tt
segments_from-IsSegment (a ∷ current) [] h = ((λ e. cc, h), tt)
segments_from-IsSegment [] (t ∷ tokens) h = elim (Bool-cases (t =s= "|")) [
  | inl e ↦ rw (e, segments_from) (segments_from-IsSegment [] tokens tt)
  | inr e ↦
      rw (e, segments_from)
        (segments_from-IsSegment (t ∷ []) tokens (ground (arith, eq_iff t "|"), tt))
]
segments_from-IsSegment (a ∷ current) (t ∷ tokens) h = elim (Bool-cases (t =s= "|")) [
  | inl e ↦ rw (e, segments_from) ((λ e. cc, h), segments_from-IsSegment [] tokens tt)
  | inr e ↦
      rw (e, segments_from)
        (segments_from-IsSegment (a ∷ current ++ (t ∷ [])) tokens
          (All-append (λ t. t ≢ "|") (a ∷ current) (t ∷ []) h (ground (arith, eq_iff t "|"), tt)))
]

segments_from-flat :
    (current tokens : List String)
    → flat (segments_from current tokens) ≡ current ++ keep not_bar tokens
unfolding segments_from
segments_from-flat [] [] = refl
segments_from-flat (a ∷ current) [] = refl
segments_from-flat [] (t ∷ tokens) =
    ground (arith, segments_from-flat [] tokens, segments_from-flat (t ∷ []) tokens)
segments_from-flat (a ∷ current) (t ∷ tokens) = ground (
  arith,
  segments_from-flat [] tokens,
  segments_from-flat (a ∷ current ++ (t ∷ [])) tokens,
  append_assoc current (t ∷ []) (keep not_bar tokens),
)

-- The pipeline has no empty segment and no bar in a segment, and its segments one after the other are
-- the tokens in their order without the bars.
pub segments-IsSplit :
    (tokens : List String)
    → All IsSegment (segments tokens)
      × (flat (segments tokens) ≡ keep (λ t. not (t =s= "|")) tokens)
unfolding segments
segments-IsSplit tokens = (segments_from-IsSegment [] tokens tt, segments_from-flat [] tokens)
