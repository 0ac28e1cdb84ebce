-- ===== src/Tests/Options.antt =====
-- Runs of the command line on concrete arguments, and instances of its theorems.
use eml_to_pst.Base.{◌≡◌, refl, List, [], ◌∷◌, true}
use eml_to_pst.Base.Text.{Wide, codes, split_on, text_eq}
use eml_to_pst.Unicode.{
  utf8_from_wide, utf8_of, compare_ordinal, compare_ordinal_ignore_case, fold_ascii_upper,
}
use eml_to_pst.Paths.{
  is_lexically_within, is_prefix_ci, split_components, starts_with_ci, is_extended_length_path,
  normalize_backslashes, collapse_from, is_unc_path, drive_letter_of, has_pst_extension,
}
use eml_to_pst.Cli.{
  CliOptions, find_in, find_option, split_inline_value, read_token, contains, apply_option,
  trim_trailing_dots_and_spaces, parse_args, check_options, parse_command_line, default_options,
  validate_options_lexical, fail, succeed,
}
use eml_to_pst.Cli.Printed.{command_line, parse_command_line-command_line}
use eml_to_pst.Cli.Validated.{IsSafe, accepted-IsSafe}

abbrev arguments : List Wide
arguments =
    codes "--source=C:\\Mail"
    ∷ codes "--output"
    ∷ codes "D:\\out.pst"
    ∷ codes "--flatten-also"
    ∷ codes "Old. ."
    ∷ codes "--quiet"
    ∷ []

abbrev options : CliOptions
options = record default_options {
  source = codes "C:\\Mail";
  output = codes "D:\\out.pst";
  flatten_also = codes "Old" ∷ [];
  quiet = true;
}

arguments_read : parse_command_line arguments ≡ succeed options
unfolding parse_command_line parse_args read_token find_option find_in split_inline_value contains
    apply_option trim_trailing_dots_and_spaces check_options compare_ordinal text_eq
arguments_read = refl

-- A positional argument is repeated in the message.
path_repeated : parse_command_line (codes "C:\\Ann" ∷ []) ≡ fail (codes "unknown option: C:\\Ann")
unfolding parse_command_line parse_args read_token find_option find_in split_inline_value
    compare_ordinal utf8_from_wide utf8_of
path_repeated = refl

duplicate_refused :
    parse_command_line (codes "--help" ∷ codes "-h" ∷ []) ≡ fail (codes "duplicate option: --help")
unfolding parse_command_line parse_args read_token find_option find_in split_inline_value contains
    apply_option compare_ordinal text_eq
duplicate_refused = refl

parse_command_line-command_line_example :
    parse_command_line (command_line options) ≡ check_options options
unfolding trim_trailing_dots_and_spaces
parse_command_line-command_line_example =
    parse_command_line-command_line options ((λ e. cc), refl, tt)

accepted-IsSafe_example : IsSafe (parse_command_line arguments).options
unfolding parse_command_line parse_args read_token find_option find_in split_inline_value contains
    apply_option trim_trailing_dots_and_spaces check_options compare_ordinal text_eq
    validate_options_lexical is_lexically_within is_prefix_ci split_components split_on
    is_extended_length_path starts_with_ci normalize_backslashes collapse_from
    compare_ordinal_ignore_case fold_ascii_upper is_unc_path drive_letter_of has_pst_extension
accepted-IsSafe_example = accepted-IsSafe arguments refl refl refl
