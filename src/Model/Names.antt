-- ===== src/Model/Names.antt =====
-- The names of common/model.cpp and common/exit_codes.cpp determine the values they stand for.
use eml_to_pst.Base.{◌≡◌, refl, ◌↔◌, some, arith}
use eml_to_pst.Base.Text.{Bytes, codes, text_eq, text_eq_iff}
use eml_to_pst.Model.{FileImportStatus, status_name, file_import_status_from_string}

name-read-back : (s : FileImportStatus) → file_import_status_from_string (status_name s) ≡ some s
unfolding status_name file_import_status_from_string text_eq
name-read-back FileImportStatus.pending = refl
name-read-back _ = refl

from_string-eq_name :
    (text : Bytes) (s : FileImportStatus)
    → file_import_status_from_string text ≡ some s
    → text ≡ status_name s
unfolding file_import_status_from_string status_name
from_string-eq_name text FileImportStatus.pending h = ground (
  arith,
  text_eq_iff text (codes "PENDING"),
  text_eq_iff text (codes "IMPORTED"),
  text_eq_iff text (codes "PRESERVED_AS_ATTACHMENT"),
  text_eq_iff text (codes "FAILED_SOURCE_READ"),
  text_eq_iff text (codes "FAILED_MAPI"),
)
from_string-eq_name text _ h = ground (
  arith,
  text_eq_iff text (codes "PENDING"),
  text_eq_iff text (codes "IMPORTED"),
  text_eq_iff text (codes "PRESERVED_AS_ATTACHMENT"),
  text_eq_iff text (codes "FAILED_SOURCE_READ"),
  text_eq_iff text (codes "FAILED_MAPI"),
)

-- Reading a stored status gives `s` exactly when the text is the name of `s`: every name is read
-- back, and no other text is taken for a status.
pub from_string_iff :
    (text : Bytes) (s : FileImportStatus)
    → (file_import_status_from_string text ≡ some s) ↔ (text ≡ status_name s)
from_string_iff text s = (from_string-eq_name text s, λ e. rw e (name-read-back s))
