-- ===== src/Cli/Printed.antt =====
-- The command line that stands for given options, and that `parse_command_line` of
-- worker/cli/cli_options.cpp reads it back.
use mathlib.Core.List.{append_assoc, append-nil}
use eml_to_pst.Base.{
  ◌≡◌, ◌≢◌, refl, ap, ◌∙◌, List, [], ◌∷◌, ◌++◌, Bool, true, false, none, some, not, inl, inr,
  Bool-cases,
}
use eml_to_pst.Base.Text.{Bytes, Wide, codes, text_eq}
use eml_to_pst.Unicode.{compare_ordinal}
use eml_to_pst.Cli.{
  OptionKind, OptionSpec, find_option, find_in, split_inline_value, CliOptions, default_options,
  trim_trailing_dots_and_spaces, contains, Token, read_token, Parsed, apply_option, parse_args,
  check_options, conclude, parse_command_line,
}

abbrev flag : Bool → Wide → List Wide
flag true word = word ∷ []
flag false word = []

abbrev pattern_args : List Wide → List Wide
pattern_args [] = []
pattern_args (p ∷ ps) = codes "--flatten-also" ∷ p ∷ pattern_args ps

-- The arguments that stand for the options, each value in an argument of its own.
abbrev pub command_line : CliOptions → List Wide
command_line o =
    codes "--source"
    ∷ o.source
    ∷ codes "--output"
    ∷ o.output
    ∷ codes "--root-name"
    ∷ o.root_name
    ∷ (flag (not o.flatten_containers) (codes "--no-flatten")
        ++ (flag o.resume (codes "--resume")
            ++ (flag o.overwrite (codes "--overwrite")
                ++ (flag o.quiet (codes "--quiet")
                    ++ (flag o.verbose (codes "--verbose")
                        ++ (flag o.show_help (codes "--help")
                            ++ (flag o.show_version (codes "--version")
                                ++ pattern_args o.flatten_also)))))))

-- Each pattern is the name of a folder: not empty, and with no dot or blank at its end.
abbrev pub AreNames : List Wide → Type 0
AreNames [] = Unit
AreNames (p ∷ ps) = (p ≢ []) × (trim_trailing_dots_and_spaces p ≡ p) × AreNames ps

complete_step :
    (o o' : CliOptions) (seen : List Bytes) (arg value : Wide) (spec : OptionSpec)
    (args : List Wide)
    → read_token seen arg ≡ Token.complete spec value
    → apply_option spec.kind value o ≡ Parsed.read o'
    → parse_args o seen (arg ∷ args) ≡ parse_args o' (spec.canonical ∷ seen) args
unfolding parse_args
complete_step o o' seen arg value spec [] h k = rw (parse_args, h, k) refl
complete_step o o' seen arg value spec (next ∷ args) h k = rw (parse_args, h, k) refl

value_step :
    (o o' : CliOptions) (seen : List Bytes) (arg value : Wide) (spec : OptionSpec)
    (args : List Wide)
    → read_token seen arg ≡ Token.wants_value spec
    → apply_option spec.kind value o ≡ Parsed.read o'
    → parse_args o seen (arg ∷ value ∷ args) ≡ parse_args o' (spec.canonical ∷ seen) args
unfolding parse_args
value_step o o' seen arg value spec args h k = rw (parse_args, h, k) refl

unfoldable used : Bool → Bytes → List Bytes → List Bytes
used true word seen = word ∷ seen
used false word seen = seen

unfoldable IsUnseen : Bytes → List Bytes → Type 0
IsUnseen word seen = contains word seen ≡ false

unseen : (word : Bytes) (seen : List Bytes) → contains word seen ≡ false → IsUnseen word seen
unfolding IsUnseen
unseen word seen h = h

unused :
    (b : Bool) (word other : Bytes) (seen : List Bytes)
    → text_eq word other ≡ false
    → IsUnseen word seen
    → IsUnseen word (used b other seen)
unfolding contains used IsUnseen
unused true word other seen h k = rw (h, k)
unused false word other seen h k = k

flag_step :
    (b : Bool) (pick : Bool → CliOptions) (seen : List Bytes) (word : Wide) (spec : OptionSpec)
    (args : List Wide)
    → read_token seen word ≡ Token.complete spec []
    → apply_option spec.kind [] (pick false) ≡ Parsed.read (pick true)
    → parse_args (pick false) seen (flag b word ++ args)
      ≡ parse_args (pick b) (used b spec.canonical seen) args
unfolding used
flag_step true pick seen word spec args h k =
    complete_step (pick false) (pick true) seen word [] spec args h k
flag_step false pick seen word spec args h k = refl

abbrev flatten_spec : OptionSpec
flatten_spec = record {
  flag = codes "--flatten-also";
  kind = OptionKind.flatten_also;
  takes_value = true;
  canonical = codes "--flatten-also";
  repeatable = true;
}

flatten_token :
    (seen : List Bytes) → read_token seen (codes "--flatten-also") ≡ Token.wants_value flatten_spec
unfolding read_token find_option find_in split_inline_value compare_ordinal
flatten_token seen = elim (Bool-cases (contains (codes "--flatten-also") seen)) [
  | inl e ↦ rw e
  | inr e ↦ rw e
]

pattern_added :
    (o : CliOptions) (p : Wide)
    → p ≢ []
    → trim_trailing_dots_and_spaces p ≡ p
    → apply_option OptionKind.flatten_also p o
      ≡ Parsed.read (record o { flatten_also = o.flatten_also ++ p ∷ [] })
unfolding apply_option
pattern_added o [] h k = absurd (h refl)
pattern_added o (c ∷ cs) h k = rw (apply_option, k) refl

patterns_step :
    (o : CliOptions) (seen : List Bytes) (ps : List Wide)
    → AreNames ps
    → parse_args o seen (pattern_args ps)
      ≡ Parsed.read (record o { flatten_also = o.flatten_also ++ ps })
unfolding parse_args
patterns_step o seen [] h = rw (append-nil o.flatten_also)
patterns_step o seen (p ∷ ps) (not_empty, same, h) =
    let o' : CliOptions = record o { flatten_also = o.flatten_also ++ p ∷ [] } in
    value_step o o' seen (codes "--flatten-also") p flatten_spec (pattern_args ps)
      (flatten_token seen) (pattern_added o p not_empty same)
    ∙ patterns_step o' (codes "--flatten-also" ∷ seen) ps h
    ∙ ap (λ fs. Parsed.read (record o { flatten_also = fs }))
        (append_assoc o.flatten_also (p ∷ []) ps)

abbrev switch_spec : Wide → OptionKind → OptionSpec
switch_spec word kind = record {
  flag = word;
  kind = kind;
  takes_value = false;
  canonical = word;
  repeatable = false;
}

switch_token :
    (word : Wide) (kind : OptionKind) (seen : List Bytes)
    → split_inline_value word ≡ (word, none)
    → find_option word ≡ some (switch_spec word kind)
    → contains word seen ≡ false
    → read_token seen word ≡ Token.complete (switch_spec word kind) []
unfolding read_token
switch_token word kind seen cut found new = rw (read_token, cut, found, new) refl

-- A switch is read where it is there; the word must not have been seen.
switch_step :
    (b : Bool) (pick : Bool → CliOptions) (seen : List Bytes) (word : Wide) (kind : OptionKind)
    (args : List Wide)
    → split_inline_value word ≡ (word, none)
    → find_option word ≡ some (switch_spec word kind)
    → apply_option kind [] (pick false) ≡ Parsed.read (pick true)
    → IsUnseen word seen
    → parse_args (pick false) seen (flag b word ++ args)
      ≡ parse_args (pick b) (used b word seen) args
unfolding IsUnseen
switch_step b pick seen word kind args cut found applied new =
    flag_step b pick seen word (switch_spec word kind) args
      (switch_token word kind seen cut found new) applied

module _ (o : CliOptions) where
  abbrev with_values : CliOptions
  with_values = record default_options {
    source = o.source;
    output = o.output;
    root_name = o.root_name;
  }

  abbrev flattened : Bool → CliOptions
  flattened b = record with_values { flatten_containers = not b }

  abbrev resuming : Bool → CliOptions
  resuming b = record (flattened (not o.flatten_containers)) { resume = b }

  abbrev overwriting : Bool → CliOptions
  overwriting b = record (resuming o.resume) { overwrite = b }

  abbrev silent : Bool → CliOptions
  silent b = record (overwriting o.overwrite) { quiet = b }

  abbrev talking : Bool → CliOptions
  talking b = record (silent o.quiet) { verbose = b }

  abbrev helping : Bool → CliOptions
  helping b = record (talking o.verbose) { show_help = b }

  abbrev naming_version : Bool → CliOptions
  naming_version b = record (helping o.show_help) { show_version = b }

  abbrev valued : List Bytes
  valued = codes "--root-name" ∷ codes "--output" ∷ codes "--source" ∷ []

  switches_step :
      AreNames o.flatten_also
      → parse_args (flattened false) valued (
          flag (not o.flatten_containers) (codes "--no-flatten")
          ++ (flag o.resume (codes "--resume")
              ++ (flag o.overwrite (codes "--overwrite")
                  ++ (flag o.quiet (codes "--quiet")
                      ++ (flag o.verbose (codes "--verbose")
                          ++ (flag o.show_help (codes "--help")
                              ++ (flag o.show_version (codes "--version")
                                  ++ pattern_args o.flatten_also)))))))
        ≡ Parsed.read (record o { flatten_containers = not (not o.flatten_containers) })
  unfolding apply_option contains find_option find_in split_inline_value compare_ordinal text_eq
  switches_step h =
      switch_step (not o.flatten_containers) flattened _ (codes "--no-flatten")
        OptionKind.no_flatten _ refl refl refl (unseen _ _ refl)
      ∙ switch_step o.resume resuming _ (codes "--resume") OptionKind.resume _ refl refl refl
          (unused _ _ _ _ refl (unseen _ _ refl))
      ∙ switch_step o.overwrite overwriting _ (codes "--overwrite") OptionKind.overwrite _ refl refl
          refl (unused _ _ _ _ refl (unused _ _ _ _ refl (unseen _ _ refl)))
      ∙ switch_step o.quiet silent _ (codes "--quiet") OptionKind.quiet _ refl refl refl
          (unused _ _ _ _ refl (unused _ _ _ _ refl (unused _ _ _ _ refl (unseen _ _ refl))))
      ∙ switch_step o.verbose talking _ (codes "--verbose") OptionKind.verbose _ refl refl refl (
          unused _ _ _ _ refl
            (unused _ _ _ _ refl (unused _ _ _ _ refl (unused _ _ _ _ refl (unseen _ _ refl)))))
      ∙ switch_step o.show_help helping _ (codes "--help") OptionKind.help _ refl refl refl (
          unused _ _ _ _ refl (
            unused _ _ _ _ refl
              (unused _ _ _ _ refl (unused _ _ _ _ refl (unused _ _ _ _ refl (unseen _ _ refl))))))
      ∙ switch_step o.show_version naming_version _ (codes "--version") OptionKind.version _ refl
          refl refl
          (unused _ _ _ _ refl (
            unused _ _ _ _ refl (
              unused _ _ _ _ refl (
                unused _ _ _ _ refl
                  (unused _ _ _ _ refl (unused _ _ _ _ refl (unseen _ _ refl)))))))
      ∙ patterns_step (naming_version o.show_version) _ o.flatten_also h

not-not : (b : Bool) → not (not b) ≡ b
not-not true = refl
not-not false = refl

value_first :
    (o : CliOptions)
    → AreNames o.flatten_also
    → parse_args default_options [] (command_line o) ≡ Parsed.read o
unfolding apply_option contains find_option find_in split_inline_value compare_ordinal read_token
    parse_args text_eq
value_first o h =
    switches_step o h
    ∙ ap (λ b. Parsed.read (record o { flatten_containers = b })) (not-not o.flatten_containers)

-- Options whose patterns are names of folders, printed as a command line with each value in an
-- argument of its own, are read back as the same options and then checked: no value is taken for
-- an option, whatever it is, and no option is lost.
pub parse_command_line-command_line :
    (o : CliOptions)
    → AreNames o.flatten_also
    → parse_command_line (command_line o) ≡ check_options o
unfolding parse_command_line
parse_command_line-command_line o h = ap conclude (value_first o h)
