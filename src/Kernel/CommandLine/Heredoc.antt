-- ===== src/Kernel/CommandLine/Heredoc.antt =====
-- The heredoc of `execute_user_command` in crates/kernel/src/service.rs.
use nasserver.Base.{String, ◌≡◌, refl, sym, true, false, some}
use nasserver.Base.Text.{◌<>◌, is_empty}
use nasserver.Base.Text.Prefix.{strip_prefix-append}
use text.Mathlib.TextLemmas.{append_assoc}
use nasserver.Base.Text.Laws.{Lacks}
use nasserver.Base.Text.Found.{split_once-append, word-append, IsWord}
use nasserver.Base.Text.Space.{word}
use nasserver.Base.Text.Search.{split_once}
use nasserver.Kernel.CommandLine.{is_ended, strip_heredoc}

-- The line behind "<<": the marker, what follows it on the line, and the content.
strip_heredoc-found :
    (command before marker args rest after : String)
    → after ≡ marker <> (args <> ("\n" <> rest))
    → split_once "<<" command ≡ some (before, after)
    → word after ≡ marker
    → is_empty marker ≡ false
    → split_once "\n" after ≡ some (marker <> args, rest)
    → is_ended marker rest ≡ true
    → strip_heredoc command ≡ before <> args
unfolding strip_heredoc
strip_heredoc-found command before marker args rest after shape found line full first ended =
    rw (found, strip_heredoc)
      (rw (first, line) (rw full (rw (ended, strip_prefix-append marker args) refl)))

-- A command whose first "<<" is followed by a marker without white space, the rest of the line, and
-- lines one of which is the marker, is run as its first line without "<<" and the marker; the rest of the line is empty
-- or starts with white space. What the lines hold makes no difference.
pub strip_heredoc-content :
    (before marker args rest : String)
    → Lacks b'<' before
    → IsWord marker
    → is_empty marker ≡ false
    → word (args <> ("\n" <> rest)) ≡ ""
    → Lacks b'\n' (marker <> args)
    → is_ended marker rest ≡ true
    → strip_heredoc (before <> ("<<" <> (marker <> (args <> ("\n" <> rest))))) ≡ before <> args
strip_heredoc-content before marker args rest no_angle is_word full spaced one_line ended =
    let after = marker <> (args <> ("\n" <> rest)) in
    strip_heredoc-found (before <> ("<<" <> after)) before marker args rest after refl
      (split_once-append "<" "<" before after no_angle)
      (word-append marker (args <> ("\n" <> rest)) is_word spaced) full
      (rw (sym (append_assoc marker args ("\n" <> rest)))
        (split_once-append "\n" "" (marker <> args) rest one_line))
      ended
