-- ===== src/Cli.antt =====
-- worker/cli/cli_options.h and cli_options.cpp: the command line of the worker, and what can be
-- said of its values from their texts alone.
pub mod Usage
pub mod Printed
pub mod Validated
use eml_to_pst.Base.{
  ℕ, suc, List, [], ◌∷◌, ◌++◌, Bool, true, false, not, ◌&&◌, ◌||◌, Option, none, some, ◌==◌,
  if◌then◌else◌,
}
use eml_to_pst.Base.Text.{Bytes, Wide, codes, text_eq}
use eml_to_pst.Unicode.{utf8_from_wide, compare_ordinal, is_equal}
use eml_to_pst.Paths.{has_pst_extension, is_unc_path, drive_letter_of, is_lexically_within}
use eml_to_pst.Model.{ExitCode}

pub data OptionKind : Type 0 where
  source output root_name no_flatten flatten_also resume overwrite quiet : OptionKind
  verbose help version : OptionKind

pub record OptionSpec : Type 0 where
  pub flag : Wide
  pub kind : OptionKind
  pub takes_value : Bool
  pub canonical : Bytes
  pub repeatable : Bool

abbrev with_value : OptionKind → Bytes → OptionSpec
with_value kind name = record {
  flag = name;
  kind = kind;
  takes_value = true;
  canonical = name;
  repeatable = false;
}

abbrev switch : Wide → OptionKind → Bytes → OptionSpec
switch flag kind canonical = record {
  flag = flag;
  kind = kind;
  takes_value = false;
  canonical = canonical;
  repeatable = false;
}

abbrev pub option_table : List OptionSpec
option_table =
    with_value OptionKind.source (codes "--source")
    ∷ with_value OptionKind.output (codes "--output")
    ∷ with_value OptionKind.root_name (codes "--root-name")
    ∷ switch (codes "--no-flatten") OptionKind.no_flatten (codes "--no-flatten")
    ∷ record (with_value OptionKind.flatten_also (codes "--flatten-also")) { repeatable = true }
    ∷ switch (codes "--resume") OptionKind.resume (codes "--resume")
    ∷ switch (codes "--overwrite") OptionKind.overwrite (codes "--overwrite")
    ∷ switch (codes "--quiet") OptionKind.quiet (codes "--quiet")
    ∷ switch (codes "--verbose") OptionKind.verbose (codes "--verbose")
    ∷ switch (codes "--help") OptionKind.help (codes "--help")
    ∷ switch (codes "-h") OptionKind.help (codes "--help")
    ∷ switch (codes "--version") OptionKind.version (codes "--version")
    ∷ []

unfoldable pub find_in : List OptionSpec → Wide → Option OptionSpec
find_in [] name = none
find_in (spec ∷ specs) name =
    if is_equal (compare_ordinal spec.flag name) then some spec else find_in specs name

unfoldable pub find_option : Wide → Option OptionSpec
unfolding find_in
find_option = find_in option_table

abbrev onto_name : ℕ → Wide × Option Wide → Wide × Option Wide
onto_name c (name, value) = (c ∷ name, value)

-- "--opt=value" is split at the first '='.
unfoldable pub split_inline_value : Wide → Wide × Option Wide
split_inline_value [] = ([], none)
split_inline_value (c ∷ cs) =
    let rest = onto_name c (split_inline_value cs) in if c == b'=' then ([], some cs) else rest

pub record CliOptions : Type 0 where
  pub source : Wide
  pub output : Wide
  pub root_name : Wide
  pub flatten_containers : Bool
  pub flatten_also : List Wide
  pub resume : Bool
  pub overwrite : Bool
  pub quiet : Bool
  pub verbose : Bool
  pub show_help : Bool
  pub show_version : Bool

abbrev pub default_options : CliOptions
default_options = record {
  source = [];
  output = [];
  root_name = codes "Windows Live Mail";
  flatten_containers = true;
  flatten_also = [];
  resume = false;
  overwrite = false;
  quiet = false;
  verbose = false;
  show_help = false;
  show_version = false;
}

pub record CliParseResult : Type 0 where
  pub options : CliOptions
  pub ok : Bool
  pub error_utf8 : Bytes

unfoldable pub fail : Bytes → CliParseResult
fail message = record { options = default_options; ok = false; error_utf8 = message }

abbrev pub succeed : CliOptions → CliParseResult
succeed options = record { options = options; ok = true; error_utf8 = [] }

abbrev is_dot_or_space : ℕ → Bool
is_dot_or_space c = c == b' ' || c == b'.'

abbrev keep_unless_trailing : ℕ → Wide → Wide
keep_unless_trailing c [] = if is_dot_or_space c then [] else c ∷ []
keep_unless_trailing c (d ∷ ds) = c ∷ d ∷ ds

unfoldable pub trim_trailing_dots_and_spaces : Wide → Wide
trim_trailing_dots_and_spaces [] = []
trim_trailing_dots_and_spaces (c ∷ cs) = keep_unless_trailing c (trim_trailing_dots_and_spaces cs)

unfoldable pub contains : Bytes → List Bytes → Bool
contains s [] = false
contains s (x ∷ xs) = text_eq s x || contains s xs

-- What one argument asks for, before the next one is looked at.
pub data Token : Type 0 where
  stop : Bytes → Token
  complete : OptionSpec → Wide → Token
  wants_value : OptionSpec → Token

abbrev with_inline : OptionSpec → Option Wide → Token
with_inline spec none = if spec.takes_value then Token.wants_value spec else Token.complete spec []
with_inline spec (some value) =
    if spec.takes_value
    then Token.complete spec value
    else Token.stop (codes "option does not take a value: " ++ spec.canonical)

abbrev first_use : List Bytes → Option Wide → OptionSpec → Token
first_use seen value spec =
    if contains spec.canonical seen && not spec.repeatable
    then Token.stop (codes "duplicate option: " ++ spec.canonical)
    else with_inline spec value

abbrev known : List Bytes → Wide → Option Wide → Option OptionSpec → Token
known seen name value none = Token.stop (codes "unknown option: " ++ utf8_from_wide name)
known seen name value (some spec) = first_use seen value spec

unfoldable pub read_token : List Bytes → Wide → Token
read_token seen arg =
    let (name, value) = split_inline_value arg in known seen name value (find_option name)

-- The options so far, or the message of the error that ended the loop.
pub data Parsed : Type 0 where
  failed : Bytes → Parsed
  read : CliOptions → Parsed

abbrev add_pattern : CliOptions → Wide → Parsed
add_pattern o [] = Parsed.failed (codes "--flatten-also requires a non-empty folder name")
add_pattern o (c ∷ cs) = Parsed.read (record o { flatten_also = o.flatten_also ++ (c ∷ cs) ∷ [] })

unfoldable pub apply_option : OptionKind → Wide → CliOptions → Parsed
apply_option OptionKind.source value o = Parsed.read (record o { source = value })
apply_option OptionKind.output value o = Parsed.read (record o { output = value })
apply_option OptionKind.root_name value o = Parsed.read (record o { root_name = value })
apply_option OptionKind.no_flatten value o = Parsed.read (record o { flatten_containers = false })
apply_option OptionKind.flatten_also value o = add_pattern o (trim_trailing_dots_and_spaces value)
apply_option OptionKind.resume value o = Parsed.read (record o { resume = true })
apply_option OptionKind.overwrite value o = Parsed.read (record o { overwrite = true })
apply_option OptionKind.quiet value o = Parsed.read (record o { quiet = true })
apply_option OptionKind.verbose value o = Parsed.read (record o { verbose = true })
apply_option OptionKind.help value o = Parsed.read (record o { show_help = true })
apply_option OptionKind.version value o = Parsed.read (record o { show_version = true })

-- `seen.insert`: a second entry of a repeatable option is not told apart.
unfoldable pub parse_args : CliOptions → List Bytes → List Wide → Parsed
parse_args o seen [] = Parsed.read o
parse_args o seen (arg ∷ []) = elim (read_token seen arg) [
  | Token.stop message ↦ Parsed.failed message
  | Token.complete spec value ↦ apply_option spec.kind value o
  | Token.wants_value spec ↦ Parsed.failed (codes "missing value for option: " ++ spec.canonical)
]
parse_args o seen (arg ∷ next ∷ args) = elim (read_token seen arg) [
  | Token.stop message ↦ Parsed.failed message
  | Token.complete spec value ↦ elim (apply_option spec.kind value o) [
    | Parsed.failed message ↦ Parsed.failed message
    | Parsed.read o' ↦ parse_args o' (spec.canonical ∷ seen) (next ∷ args)
  ]
  | Token.wants_value spec ↦ elim (apply_option spec.kind next o) [
    | Parsed.failed message ↦ Parsed.failed message
    | Parsed.read o' ↦ parse_args o' (spec.canonical ∷ seen) args
  ]
]

abbrev is_empty : Wide → Bool
is_empty [] = true
is_empty (c ∷ cs) = false

unfoldable pub check_options : CliOptions → CliParseResult
check_options o =
    if o.show_help || o.show_version
    then succeed o
    else if o.resume && o.overwrite
    then fail (codes "--resume and --overwrite are mutually exclusive")
    else if o.quiet && o.verbose
    then fail (codes "--quiet and --verbose are mutually exclusive")
    else if is_empty o.source
    then fail (codes "missing required option: --source")
    else if is_empty o.output
    then fail (codes "missing required option: --output")
    else succeed o

abbrev pub conclude : Parsed → CliParseResult
conclude (Parsed.failed message) = fail message
conclude (Parsed.read o) = check_options o

unfoldable pub parse_command_line : List Wide → CliParseResult
parse_command_line args = conclude (parse_args default_options [] args)

pub record CliValidationError : Type 0 where
  pub exit_code : ExitCode
  pub message_utf8 : Bytes

abbrev invalid : Bytes → Option CliValidationError
invalid message = some (record { exit_code = ExitCode.invalid_arguments; message_utf8 = message })

abbrev has_drive : Option ℕ → Bool
has_drive none = false
has_drive (some c) = true

unfoldable pub validate_options_lexical : CliOptions → Option CliValidationError
validate_options_lexical o =
    if not (has_pst_extension o.output)
    then invalid (codes "--output must end in .pst")
    else if is_unc_path o.source
    then invalid
        (codes "--source must be a local filesystem path; UNC and network paths are rejected")
    else if is_unc_path o.output
    then invalid
        (codes "--output must be a local filesystem path; UNC and network paths are rejected")
    else if not (has_drive (drive_letter_of o.source))
    then invalid (codes "--source must be an absolute path with a drive letter")
    else if not (has_drive (drive_letter_of o.output))
    then invalid (codes "--output must be an absolute path with a drive letter")
    else if is_lexically_within o.source o.output || is_lexically_within o.output o.source
    then invalid
        (codes "--output must not be inside --source, and --source must not be inside --output")
    else if is_empty (trim_trailing_dots_and_spaces o.root_name)
    then invalid (codes "--root-name must not be empty")
    else none
