-- ===== src/Folders/Aliases.antt =====
-- worker/folder_mapping/folder_aliases.cpp: folders of sent mail and of drafts.
use eml_to_pst.Base.{ℕ, ◌+◌, List, [], ◌∷◌, Bool, true, false, ◌&&◌, ◌||◌, leb, ◌==◌, if◌then◌else◌}
use eml_to_pst.Base.Text.{Wide, codes, split_on}

-- The Hebrew aliases stand as their code units.
abbrev pub sent_aliases : List Wide
sent_aliases =
    codes "Sent"
    ∷ codes "Sent Items"
    ∷ codes "Sent Mail"
    ∷ codes "Sent Messages"
    ∷ codes "Items Sent"
    ∷ (0x5E4 ∷ 0x5E8 ∷ 0x5D9 ∷ 0x5D8 ∷ 0x5D9 ∷ 0x5DD ∷ 0x20 ∷ 0x5E9 ∷ 0x5E0 ∷ 0x5E9 ∷ 0x5DC ∷ 0x5D7
        ∷ 0x5D5 ∷ [])
    ∷ (0x5D3 ∷ 0x5D5 ∷ 0x5D0 ∷ 0x5E8 ∷ 0x20 ∷ 0x5E9 ∷ 0x5E0 ∷ 0x5E9 ∷ 0x5DC ∷ 0x5D7 ∷ [])
    ∷ (0x5E0 ∷ 0x5E9 ∷ 0x5DC ∷ 0x5D7 ∷ [])
    ∷ []

abbrev pub drafts_aliases : List Wide
drafts_aliases =
    codes "Drafts"
    ∷ codes "Draft"
    ∷ (0x5D8 ∷ 0x5D9 ∷ 0x5D5 ∷ 0x5D8 ∷ 0x5D5 ∷ 0x5EA ∷ [])
    ∷ (0x5D8 ∷ 0x5D9 ∷ 0x5D5 ∷ 0x5D8 ∷ 0x5D4 ∷ [])
    ∷ []

unfoldable pub fold_ascii : ℕ → ℕ
fold_ascii c = if leb b'A' c && leb c b'Z' then c + 32 else c

unfoldable pub equals_ci : Wide → Wide → Bool
equals_ci [] [] = true
equals_ci (a ∷ xs) (b ∷ ys) = fold_ascii a == fold_ascii b && equals_ci xs ys
equals_ci _ _ = false

unfoldable pub matches_any : Wide → List Wide → Bool
matches_any component [] = false
matches_any component (x ∷ xs) = equals_ci component x || matches_any component xs

unfoldable pub is_sent_folder_component : Wide → Bool
is_sent_folder_component component = matches_any component sent_aliases

unfoldable pub is_drafts_folder_component : Wide → Bool
is_drafts_folder_component component = matches_any component drafts_aliases

unfoldable pub any_component : (Wide → Bool) → List Wide → Bool
any_component pred [] = false
any_component pred (c ∷ cs) = pred c || any_component pred cs

-- Some component between backslashes, not empty, satisfies the predicate.
unfoldable pub path_has_component_matching : Wide → (Wide → Bool) → Bool
path_has_component_matching path pred = any_component pred (split_on b'\\' path)

unfoldable pub path_has_sent_component : Wide → Bool
path_has_sent_component path = path_has_component_matching path is_sent_folder_component

unfoldable pub path_has_drafts_component : Wide → Bool
path_has_drafts_component path = path_has_component_matching path is_drafts_folder_component
