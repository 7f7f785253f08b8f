-- ===== src/Collector/Runner.antt =====
-- internal/collector/runner.go: commands run through a function, so that tests can replace them.
use Prim.Native.String.{String}
use zfs_nas_dashboard.Prelude.{List, ◌++◌}
use zfs_nas_dashboard.Prelude.Result.{Result, ok, err}
use zfs_nas_dashboard.Go.Strings.{Text, codes}

-- An error is its message.
abbrev pub Error : Type 0
Error = Text

-- `CommandRunner`: a binary and its arguments, to what it printed or an error. A failed start and
-- an exit status other than zero are both errors. One runner stands for one collection: what the
-- commands answer during it.
abbrev pub CommandRunner : Type 0
CommandRunner = Text → List Text → Result Error Text

-- `fmt.Errorf("<what>: %w", err)` on an error.
abbrev pub wrap : {A : Type 0} → String → Result Error A → Result Error A
wrap what (ok out) = ok out
wrap what (err e) = err (codes what ++ (codes ": " ++ e))
