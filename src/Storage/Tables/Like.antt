-- ===== src/Storage/Tables/Like.antt =====
-- What a pattern `directory || '/%'` matches.
use text.Mathlib.TextLemmas.{nil-append, cons-append, append_assoc}
use nasserver.Base.{String, Char, ◌≡◌, refl, ◌∙◌, true, false, arith}
use nasserver.Base.Text.{◌<>◌, starts_with}
use nasserver.Base.Text.Laws.{Lacks}
use nasserver.Storage.Paths.{slash}
use nasserver.Storage.Tables.{like_any, like_from, like}

-- No character of the text has a meaning of its own in a pattern.
abbrev pub IsLiteral : String → Type 0
IsLiteral s = Lacks b'%' s × Lacks b'_' s × Lacks b'\\' s

like_percent : (s : String) → like_from false "%" s ≡ true
unfolding like_from like_any
like_percent String.[] = refl
like_percent (String.◌∷◌ c s) = rw (like_percent s) (ground arith)

-- A literal beginning is matched character by character.
like-literal :
    (a p s : String) → IsLiteral a → like_from false (a <> p) (a <> s) ≡ like_from false p s
unfolding like_from
like-literal String.[] p s h = rw (nil-append p, nil-append s)
like-literal (String.◌∷◌ c a) p s ((h1, k1), (h2, k2), (h3, k3)) =
    rw (cons-append c a p, cons-append c a s) (ground (arith, like-literal a p s (k1, k2, k3)))

-- For a directory whose name holds no "%", "_" and backslash, the pattern matches exactly what lies
-- below the directory.
pub like-directory :
    (dir s : String) → IsLiteral dir → like s (dir <> "/%") ≡ starts_with s (dir <> "/")
unfolding like starts_with
like-directory String.[] String.[] h = refl
like-directory String.[] (String.◌∷◌ c s) h = ground (arith, like_percent s)
like-directory (String.◌∷◌ d dir) String.[] ((h1, _), (h2, _), (h3, _)) =
    rw (cons-append d dir "/%", cons-append d dir "/") (ground arith)
like-directory (String.◌∷◌ d dir) (String.◌∷◌ c s) ((h1, k1), (h2, k2), (h3, k3)) =
    rw (cons-append d dir "/%", cons-append d dir "/")
      (ground (arith, like-directory dir s (k1, k2, k3)))

abbrev underscore : Char
underscore = "_"

like-below : (rest : String) → like_from false "/%" ("/" <> rest) ≡ true
unfolding like_from
like-below rest = rw (cons-append slash "" rest, nil-append rest) (like_percent rest)

-- A directory whose name holds "_" has a pattern that also matches what lies below the directories
-- named with any other character in that place.
pub like-underscore :
    (a b rest : String) (c : Char)
    → IsLiteral a
    → IsLiteral b
    → like (a <> String.◌∷◌ c (b <> ("/" <> rest))) ((a <> ("_" <> b)) <> "/%") ≡ true
unfolding like like_from
like-underscore a b rest c h k =
    rw (append_assoc a ("_" <> b) "/%", append_assoc "_" b "/%")
      (like-literal a _ _ h
        ∙ rw (cons-append underscore "" (b <> "/%"), nil-append (b <> "/%"))
            (like-literal b "/%" ("/" <> rest) k ∙ like-below rest))
