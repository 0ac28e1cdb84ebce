-- ===== src/Tests/Reports.antt =====
-- Runs of the JSON and CSV writers on concrete values, and instances of their theorems.
use eml_to_pst.Base.{ℕ, ◌≡◌, refl, [], ◌∷◌, ◌++◌, true, some, ◌==◌, not}
use eml_to_pst.Base.Int.{pos, negsuc}
use eml_to_pst.Base.Text.{Bytes, codes}
use eml_to_pst.Base.Numbers.{decimal, signed_decimal, digits_onto}
use eml_to_pst.Pipeline.{ErrorsCsvRow}
use eml_to_pst.Reports.Json.{
  JsonValue, Items, Fields, push, push_item, escape_byte, escape_all, write_json_string,
  write_indent, line_end, colon, write_value, to_json,
}
use eml_to_pst.Reports.Json.Escape.{read_string, read_string-write_json_string}
use eml_to_pst.Reports.Json.Minify.{Place, minify, is_plain, minify-to_json}
use eml_to_pst.Reports.Csv.{Disk, new_writer, format_hresult, upper_hex}
use eml_to_pst.Reports.Csv.Rows.{record_text, read_record, read_record-record_text}
use eml_to_pst.Reports.Csv.File.{IsRecorded, append_all, append_all-IsRecorded}

abbrev one_half : ℕ → Bytes
one_half bits = codes "0.5"

abbrev fields : Fields
fields = Fields.field (codes "a\"b") (JsonValue.int64 (negsuc 0)) (
    Fields.field (codes "list")
      (JsonValue.array
        (Items.item (JsonValue.bool true) (Items.item JsonValue.null Items.end_of_array)))
      Fields.end_of_object)

object_written :
    to_json one_half (JsonValue.object fields) (pos 0)
    ≡ codes "{\"a\\\"b\":-1,\"list\":[true,null]}"
unfolding to_json write_value write_json_string escape_all escape_byte write_indent line_end colon
    signed_decimal decimal digits_onto
object_written = refl

array_indented :
    to_json one_half (push (JsonValue.double 0) (JsonValue.array Items.end_of_array)) (pos 2)
    ≡ codes "[\n  0.5\n]"
unfolding to_json write_value write_indent line_end push push_item
array_indented = refl

hresult_written : format_hresult (negsuc 0x7FFBFFFA) ≡ codes "0x80040005"
unfolding format_hresult upper_hex
hresult_written = refl

read_string-write_json_string_example :
    read_string (write_json_string (1 ∷ codes "\"x\\") ++ codes ",1")
    ≡ some (1 ∷ codes "\"x\\", codes ",1")
read_string-write_json_string_example =
    read_string-write_json_string (1 ∷ codes "\"x\\") (codes ",1")

minify-to_json_example :
    minify Place.outside (to_json one_half (JsonValue.object fields) (pos 2))
    ≡ to_json one_half (JsonValue.object fields) (pos 0)
unfolding is_plain
minify-to_json_example = minify-to_json one_half (λ bits. refl) (JsonValue.object fields) (pos 2)

read_record-record_text_example :
    read_record (record_text (codes "a,\"b\"") (codes "c\n" ∷ []) ++ codes "next")
    ≡ some (codes "a,\"b\"" ∷ codes "c\n" ∷ [], codes "next")
read_record-record_text_example =
    read_record-record_text (codes "a,\"b\"") (codes "c\n" ∷ []) (codes "next")

-- A disk on which one write fails behind its first byte.
abbrev full_disk : Disk
full_disk = record { succeeds = λ n. not (n == 30); takes = λ n. 1 }

abbrev sample_row : ErrorsCsvRow
sample_row = record {
  relative_source_path = codes "Inbox\\1.eml";
  status = codes "FAILED_MAPI";
  attempt_count = 1;
  hresult = negsuc 0x7FFBFFFA;
  win32_error = 0;
  target_folder = codes "Inbox";
  source_size = 17;
  sha256 = [];
  details = codes "a, b";
}

append_all-IsRecorded_example :
    IsRecorded
      (sample_row ∷ sample_row ∷ sample_row ∷ [])
      (append_all full_disk (sample_row ∷ sample_row ∷ sample_row ∷ []) ([], new_writer)).0
      (append_all full_disk (sample_row ∷ sample_row ∷ sample_row ∷ []) ([], new_writer)).1
append_all-IsRecorded_example =
    append_all-IsRecorded full_disk (sample_row ∷ sample_row ∷ sample_row ∷ [])
