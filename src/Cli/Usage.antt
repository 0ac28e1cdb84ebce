-- ===== src/Cli/Usage.antt =====
-- `usage_text` of worker/cli/cli_options.cpp, line by line.
use eml_to_pst.Base.{List, [], ◌∷◌, ◌++◌}
use eml_to_pst.Base.Text.{Bytes, codes}

abbrev usage_lines : List Bytes
usage_lines =
    codes "wlm2pst - convert a Windows Live Mail EML tree into one Unicode PST"
    ∷ codes ""
    ∷ codes "USAGE:"
    ∷ codes "  wlm2pst.exe --source <directory> --output <file.pst> [options]"
    ∷ codes ""
    ∷ codes "REQUIRED OPTIONS:"
    ∷ codes "  --source <directory>      Recursive source folder containing EML files."
    ∷ codes "  --output <file.pst>       Path to a new PST file."
    ∷ codes ""
    ∷ codes "OPTIONS:"
    ∷ codes "  --root-name <name>        Root folder name inside the PST."
    ∷ codes "                             Default: Windows Live Mail"
    ∷ codes "  --no-flatten               Keep the source folder tree exactly as it is."
    ∷ codes "                             By default Windows Live Mail container folders"
    ∷ codes "                             (Storage Folders, Imported Folder, recovery"
    ∷ codes "                             snapshots) are removed from the path so mail is"
    ∷ codes "                             not buried several levels deep, and folders"
    ∷ codes "                             differing only in letter case are merged."
    ∷ codes "  --flatten-also <name>      Treat <name> as a container folder too and drop"
    ∷ codes "                             it from the path. A trailing '*' matches a"
    ∷ codes "                             prefix. May be given more than once."
    ∷ codes "  --resume                   Resume a compatible interrupted job."
    ∷ codes "  --overwrite                Delete a previous tool-owned output and start again."
    ∷ codes "  --quiet                    Show only errors and final summary."
    ∷ codes "  --verbose                  Show additional technical progress without exposing"
    ∷ codes "                             message content."
    ∷ codes "  --help, -h                 Show this help."
    ∷ codes "  --version                  Show application, worker, architecture, and build"
    ∷ codes "                             versions."
    ∷ codes ""
    ∷ codes "EXAMPLES:"
    ∷ codes "  wlm2pst.exe --source \"C:\\OldMail\" --output \"D:\\Migration\\OldMail.pst\""
    ∷ codes ""
    ∷ codes
        "  wlm2pst.exe --source \"C:\\OldMail\" --output \"D:\\Migration\\OldMail.pst\" --root-name \"Sample old mail\""
    ∷ codes ""
    ∷ codes
        "  wlm2pst.exe --source \"C:\\OldMail\" --output \"D:\\Migration\\OldMail.pst\" --resume"
    ∷ []

abbrev end_lines : List Bytes → Bytes
end_lines [] = []
end_lines (l ∷ ls) = l ++ b'\n' ∷ end_lines ls

unfoldable pub usage_text : Bytes
usage_text = end_lines usage_lines
