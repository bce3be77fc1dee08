-- ===== src/Kernel/Tests.antt =====
-- A terminal on the small installation of the storage service, and the theorems about the terminal
-- applied there.
use nasserver.Base.{arith, ℕ, String, ◌≡◌, refl, true, false, some, List, [], ◌∷◌}
use nasserver.Base.Text.{◌<>◌, starts_with, strip_prefix, join}
use nasserver.Base.Text.Space.{is_whitespace, trim, trim_start, trim_end}
use nasserver.Storage.Sample.{platform}
use nasserver.Storage.World.{World}
use nasserver.Domain.{ok, failed}
use nasserver.Storage.Access.{check_app_access}
use nasserver.Storage.Paths.Laws.{IsSafe, IsPlain}
use nasserver.Kernel.Sample.{engine, session}
use nasserver.Kernel.Paths.Laws.{IsRelative}
use nasserver.Kernel.CommandLine.{file, redirects}
use nasserver.Kernel.CommandLine.Redirects.{Piece, argument, to_file, written, redirects-written}
use nasserver.Kernel.Files.{read_dir, read_file, make_dir, delete_file, rename_file}
use nasserver.Kernel.Files.Foreign.{IsDenied, foreign-IsDenied}
use nasserver.Kernel.Userland.{get_script}
use nasserver.Kernel.Service.{success, run_script, run_command}
use nasserver.Kernel.Completion.{completed, complete}
use nasserver.Kernel.Completion.Prefixes.{AllComplete, complete-AllComplete}

IsRelative-docs : IsRelative "docs"
unfolding trim trim_start trim_end starts_with is_whitespace strip_prefix
IsRelative-docs = (refl, refl, refl, refl, refl)

IsRelative-up : IsRelative "../x"
unfolding trim trim_start trim_end starts_with is_whitespace strip_prefix
IsRelative-up = (refl, refl, refl, refl, refl)

IsRelative-both : IsRelative ("docs" <> ("/" <> "../x"))
unfolding trim trim_start trim_end starts_with is_whitespace strip_prefix
IsRelative-both = (refl, refl, refl, refl, refl)

abbrev tokens : List String
tokens = "ls" ∷ "|" ∷ "|" ∷ "cat" ∷ "-n" ∷ []

abbrev pieces : List Piece
pieces = argument "echo" ∷ to_file false "a" ∷ argument "hi" ∷ to_file true "b" ∷ []

redirects-written_example : redirects (written pieces) ≡ some ("echo" ∷ "hi" ∷ [], file true "b")
redirects-written_example = redirects-written pieces (refl, (tt, (refl, (tt, tt))))

complete-AllComplete_example :
    AllComplete (completed "cat Us") (complete platform engine "cat Us" session).0
complete-AllComplete_example = complete-AllComplete platform engine "cat Us" session

bob-IsSafe : IsSafe "bob"
bob-IsSafe = (λ e. cc, λ e. cc, λ e. cc, (omega arith, (omega arith, (omega arith, tt))))

ann-IsPlain : IsPlain "ann"
ann-IsPlain = (
  (λ e. cc, λ e. cc, λ e. cc, (omega arith, (omega arith, (omega arith, tt)))),
  (omega arith, (omega arith, (omega arith, tt))),
)

letter-IsPlain : IsPlain "x"
letter-IsPlain = ((λ e. cc, λ e. cc, λ e. cc, (omega arith, tt)), (omega arith, tt))

other-IsPlain : IsPlain "y"
other-IsPlain = ((λ e. cc, λ e. cc, λ e. cc, (omega arith, tt)), (omega arith, tt))

foreign-IsDenied_example :
    IsDenied {P = platform} (read_file platform engine "../ann/x") session
    × IsDenied {P = platform} (make_dir platform engine "../ann/x") session
    × ((fuel : ℕ) → IsDenied {P = platform} (delete_file platform engine fuel "../ann/x") session)
    × IsDenied {P = platform} (rename_file platform engine "../ann/x" "../ann/y") session
    × ((v : World platform)
        → check_app_access platform "bob" "file-manager" session.world ≡ (ok true, v)
        → read_dir platform engine "../ann/x" session
          ≡ (failed "Forbidden: Access denied", record session { world = v }))
unfolding trim trim_start trim_end starts_with is_whitespace strip_prefix join
foreign-IsDenied_example =
    foreign-IsDenied platform engine session "ann" ("x" ∷ []) ("y" ∷ []) refl bob-IsSafe
      (ann-IsPlain, (letter-IsPlain, tt)) (ann-IsPlain, (other-IsPlain, tt))
      (refl, refl, refl, refl, refl) (refl, refl, refl, refl, refl) refl

ran : run_command platform engine "echo" ("hi" ∷ []) session ≡ (success "hello", session)
unfolding run_command get_script run_script
ran = refl
