-- ===== src/StateDb/Tables.antt =====
-- The rows of the tables that the schema of worker/resume/state_db.cpp declares, and what its
-- prepared UPDATE and INSERT statements do to them. A nullable column is an Option, and a
-- TEXT column holds UTF-8; Columns.antt has the conversions from and to wide texts.
use eml_to_pst.Base.{
  ℕ, suc, ◌+◌, List, [], ◌∷◌, ◌++◌, Bool, false, ◌||◌, Option, none, some, ◌==◌, if◌then◌else◌,
}
use eml_to_pst.Base.Int.{ℤ}
use eml_to_pst.Base.Text.{Bytes, text_eq}
use eml_to_pst.Model.{FileTimeUtc}

pub record JobRow : Type 0 where
  pub run_id : Bytes
  pub tool_version : Bytes
  pub source_root : Bytes
  pub output_pst : Bytes
  pub root_name : Bytes
  pub outlook_bitness : Bytes
  pub created_at_utc : FileTimeUtc
  pub last_updated_at_utc : FileTimeUtc
  pub manifest_hash : Bytes
  pub folder_layout : Bytes
  pub status : Bytes

pub record FileRecord : Type 0 where
  pub id : ℕ
  pub relative_source_path : Bytes
  pub source_size : ℕ
  pub source_last_write_utc : FileTimeUtc
  pub source_sha256 : Option Bytes
  pub target_folder_path : Bytes
  pub target_entry_id : Option Bytes
  pub status : Bytes
  pub attempt_count : ℕ
  pub last_hresult : Option ℤ
  pub started_at_utc : Option FileTimeUtc
  pub completed_at_utc : Option FileTimeUtc

pub record FolderRecord : Type 0 where
  pub source_relative_folder : Bytes
  pub target_relative_folder : Bytes
  pub target_entry_id : Option Bytes
  pub rename_reason : Bytes

-- `files` is in the order of the ids, the order in which the engine keeps the table.
pub record Tables : Type 0 where
  pub job : Option JobRow
  pub files : List FileRecord
  pub folders : List FolderRecord
  pub user_version : ℕ

-- UPDATE files SET … WHERE id = ?
unfoldable pub update_where : ℕ → (FileRecord → FileRecord) → List FileRecord → List FileRecord
update_where id f [] = []
update_where id f (r ∷ rs) = (if r.id == id then f r else r) ∷ update_where id f rs

-- The number of rows that the UPDATE changed.
unfoldable pub count_where : ℕ → List FileRecord → ℕ
count_where id [] = 0
count_where id (r ∷ rs) = (if r.id == id then 1 else 0) + count_where id rs

unfoldable pub has_path : Bytes → List FileRecord → Bool
has_path path [] = false
has_path path (r ∷ rs) = text_eq r.relative_source_path path || has_path path rs

-- The id of a new row: one more than the largest, which is the last.
unfoldable pub next_id : List FileRecord → ℕ
next_id [] = 1
next_id (r ∷ []) = suc r.id
next_id (r ∷ s ∷ rs) = next_id (s ∷ rs)

-- INSERT INTO files; `none` where the path is there already (UNIQUE).
unfoldable pub insert_file :
    Bytes → ℕ → FileTimeUtc → Bytes → Bytes → List FileRecord → Option (List FileRecord)
insert_file path size last_write target status files =
    if has_path path files
    then none
    else some (
        files
        ++ record {
          id = next_id files;
          relative_source_path = path;
          source_size = size;
          source_last_write_utc = last_write;
          source_sha256 = none;
          target_folder_path = target;
          target_entry_id = none;
          status = status;
          attempt_count = 0;
          last_hresult = none;
          started_at_utc = none;
          completed_at_utc = none;
        }
          ∷ [])

-- INSERT INTO folder_map … ON CONFLICT(source_relative_folder) DO UPDATE
unfoldable pub upsert_folder_row : Bytes → Bytes → Bytes → List FolderRecord → List FolderRecord
upsert_folder_row source target reason [] =
    record {
      source_relative_folder = source;
      target_relative_folder = target;
      target_entry_id = none;
      rename_reason = reason;
    }
    ∷ []
upsert_folder_row source target reason (r ∷ rs) =
    if text_eq r.source_relative_folder source
    then record r { target_relative_folder = target; rename_reason = reason } ∷ rs
    else r ∷ upsert_folder_row source target reason rs

-- UPDATE folder_map SET target_entry_id = ?1 WHERE target_relative_folder = ?2
unfoldable pub set_entry_where : Bytes → Bytes → List FolderRecord → List FolderRecord
set_entry_where target entry_id [] = []
set_entry_where target entry_id (r ∷ rs) =
    (if text_eq r.target_relative_folder target
      then record r { target_entry_id = some entry_id }
      else r)
    ∷ set_entry_where target entry_id rs

unfoldable pub count_target : Bytes → List FolderRecord → ℕ
count_target target [] = 0
count_target target (r ∷ rs) =
    (if text_eq r.target_relative_folder target then 1 else 0) + count_target target rs
