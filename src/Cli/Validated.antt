-- ===== src/Cli/Validated.antt =====
-- What the two checks of worker/cli/cli_options.cpp leave of the options: those that
-- `parse_command_line` and `validate_options_lexical` accept.
use eml_to_pst.Base.{◌≡◌, ◌≢◌, List, [], Bool, true, false, ◌&&◌, ◌||◌, none, arith}
use eml_to_pst.Base.Text.{Wide}
use eml_to_pst.Paths.{is_lexically_within}
use eml_to_pst.Paths.Within.{is_lexically_within_iff, IsBelow}
use eml_to_pst.Cli.{
  CliOptions, Parsed, check_options, conclude, parse_args, parse_command_line, default_options,
  validate_options_lexical, fail,
}

-- The options of a conversion that has both paths and no pair of switches that exclude each other.
abbrev pub AreComplete : CliOptions → Type 0
AreComplete o =
    (o.source ≢ [])
    × (o.output ≢ [])
    × (o.resume && o.overwrite ≡ false)
    × (o.quiet && o.verbose ≡ false)

-- Complete options whose paths do not lie one below the other.
abbrev pub IsSafe : CliOptions → Type 0
IsSafe o = AreComplete o × (¬ IsBelow o.source o.output) × (¬ IsBelow o.output o.source)

abbrev pub asks_for_text : CliOptions → Bool
asks_for_text o = o.show_help || o.show_version

checked-AreComplete :
    (o : CliOptions)
    → (check_options o).ok ≡ true
    → asks_for_text (check_options o).options ≡ false
    → (check_options o).options ≡ o × AreComplete o
unfolding check_options fail
checked-AreComplete o h k = ground arith

conclude-AreComplete :
    (p : Parsed)
    → (conclude p).ok ≡ true
    → asks_for_text (conclude p).options ≡ false
    → AreComplete (conclude p).options
unfolding fail
conclude-AreComplete (Parsed.failed message) h k = absurd (cc)
conclude-AreComplete (Parsed.read o) h k =
    let (same, done) = checked-AreComplete o h k in rw same done

valid_separate :
    (o : CliOptions)
    → validate_options_lexical o ≡ none
    → (is_lexically_within o.source o.output ≡ false)
      × (is_lexically_within o.output o.source ≡ false)
unfolding validate_options_lexical
valid_separate o h = ground arith

not_within :
    (base candidate : Wide) → is_lexically_within base candidate ≡ false → ¬ IsBelow base candidate
not_within base candidate h below =
    let yes = (is_lexically_within_iff base candidate).1 below in absurd (cc)

-- Of a command line that is accepted by both checks and asks for neither help nor version: the
-- source and the output are named, no two switches exclude each other, and neither path lies
-- below the other, compared by components without the case of ASCII letters.
pub accepted-IsSafe :
    (args : List Wide)
    → (parse_command_line args).ok ≡ true
    → asks_for_text (parse_command_line args).options ≡ false
    → validate_options_lexical (parse_command_line args).options ≡ none
    → IsSafe (parse_command_line args).options
unfolding parse_command_line
accepted-IsSafe args h k v =
    let o : CliOptions = (parse_command_line args).options in
    let (below, above) = valid_separate o v in
    (
      conclude-AreComplete (parse_args default_options [] args) h k,
      not_within o.source o.output below,
      not_within o.output o.source above,
    )
