-- ===== src/Program/Args/Tests.antt =====
-- Command lines, and the theorems on them at concrete data.
use nvram.Base.{◌≡◌, ◌≢◌, refl, List, [], ◌∷◌, Bytes, codes, Result, ok, same}
use nvram.Samples.{Sections, runtime}
use nvram.Operation.{set, del}
use nvram.Program.Args.{
  Options, no_options, user_mode, parse_args, parse_from, step, classify, add_operation, add_set,
  with_value, default_operation,
}
use nvram.Program.Args.Modes.{IsMode, parse_args-IsMode}
use nvram.Program.Args.CommandLine.{command_line, parse_args-command_line}

abbrev world : Sections
world = λ _. []

abbrev argv : List Bytes
argv = codes "--user" ∷ codes "set" ∷ codes "a" ∷ codes "--list" ∷ []

abbrev parsed : Options
parsed = record no_options { mode = user_mode; operations = set (codes "a") (codes "--list") ∷ [] }

parse : List Bytes → Result Options × Sections
unfolding parse_args parse_from step classify add_operation add_set with_value default_operation
    same
parse argv = parse_args runtime argv world

parsed-argv : parse argv ≡ (ok parsed, world)
unfolding parse
parsed-argv = refl

parse_args-IsMode_example : IsMode parsed.mode × (parsed.operations ≢ [])
unfolding parse
parse_args-IsMode_example = parse_args-IsMode runtime argv world refl

parse_args-command_line_example :
    parse_args runtime
      (command_line (set (codes "--get") (codes "=") ∷ del (codes "set") ∷ []))
      world
    ≡ (
      ok (record no_options {
        operations = set (codes "--get") (codes "=") ∷ del (codes "set") ∷ [];
      }),
      world,
    )
parse_args-command_line_example =
    parse_args-command_line runtime (λ n w. refl) (set (codes "--get") (codes "="))
      (del (codes "set") ∷ []) world
