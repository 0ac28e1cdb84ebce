-- ===== src/Reports/Json.antt =====
-- worker/reporting/json_writer.h and json_writer.cpp: values and their text. A double is the number
-- of its bits; what `std::to_chars` writes for it is the parameter `to_chars`.
pub mod Escape
pub mod Minify
pub mod Keys
use eml_to_pst.Base.{
  ℕ, zero, suc, ◌+◌, ◌*◌, ◌/◌, ◌%◌, List, [], ◌∷◌, ◌++◌, Bool, true, false, ltb, leb, ◌==◌,
  if◌then◌else◌, replicate,
}
use eml_to_pst.Base.Int.{ℤ, pos, negsuc}
use eml_to_pst.Base.Text.{Bytes, codes, text_eq}
use eml_to_pst.Base.Numbers.{decimal, signed_decimal}

mutual
  pub data JsonValue : Type 0 where
    null : JsonValue
    bool : Bool → JsonValue
    int64 : ℤ → JsonValue
    uint64 : ℕ → JsonValue
    double : ℕ → JsonValue
    string : Bytes → JsonValue
    array : Items → JsonValue
    object : Fields → JsonValue

  pub data Items : Type 0 where
    end_of_array : Items
    item : JsonValue → Items → Items

  pub data Fields : Type 0 where
    end_of_object : Fields
    field : Bytes → JsonValue → Fields → Fields

-- `set` on the fields of an object.
unfoldable pub set_field : Bytes → JsonValue → Fields → Fields
set_field key value Fields.end_of_object = Fields.field key value Fields.end_of_object
set_field key value (Fields.field k v fields) =
    let rest = set_field key value fields in
    if text_eq k key then Fields.field k value fields else Fields.field k v rest

unfoldable pub set : Bytes → JsonValue → JsonValue → JsonValue
set key value (JsonValue.object fields) = JsonValue.object (set_field key value fields)
set key value other = other

unfoldable pub push_item : JsonValue → Items → Items
push_item value Items.end_of_array = Items.item value Items.end_of_array
push_item value (Items.item v items) = Items.item v (push_item value items)

unfoldable pub push : JsonValue → JsonValue → JsonValue
push value (JsonValue.array items) = JsonValue.array (push_item value items)
push value other = other

abbrev pub hex_digit : ℕ → ℕ
hex_digit n = if ltb n 10 then 48 + n else 87 + n

-- The bytes written for one byte of a string.
unfoldable pub escape_byte : ℕ → Bytes
escape_byte c =
    if c == b'"'
    then codes "\\\""
    else if c == b'\\'
    then codes "\\\\"
    else if c == b'\n'
    then codes "\\n"
    else if c == b'\r'
    then codes "\\r"
    else if c == b'\t'
    then codes "\\t"
    else if ltb c 0x20
    then codes "\\u00" ++ hex_digit (c / 16) ∷ hex_digit (c % 16) ∷ []
    else c ∷ []

unfoldable pub escape_all : Bytes → Bytes
escape_all [] = []
escape_all (c ∷ cs) = escape_byte c ++ escape_all cs

unfoldable pub write_json_string : Bytes → Bytes
write_json_string s = b'"' ∷ escape_all s ++ b'"' ∷ []

unfoldable pub write_indent : ℕ → ℕ → Bytes
write_indent indent depth = replicate (indent * depth) b' '

unfoldable pub line_end : ℕ → Bytes
line_end indent = if ltb 0 indent then b'\n' ∷ [] else []

unfoldable pub colon : ℕ → Bytes
colon indent = if ltb 0 indent then codes ": " else codes ":"

abbrev pub after_item : Items → Bytes
after_item Items.end_of_array = []
after_item (Items.item v items) = b',' ∷ []

abbrev pub after_field : Fields → Bytes
after_field Fields.end_of_object = []
after_field (Fields.field k v fields) = b',' ∷ []

module _ (to_chars : ℕ → Bytes) where
  unfoldable mutual
    pub write_value : JsonValue → ℕ → ℕ → Bytes
    write_value JsonValue.null indent depth = codes "null"
    write_value (JsonValue.bool true) indent depth = codes "true"
    write_value (JsonValue.bool false) indent depth = codes "false"
    write_value (JsonValue.int64 n) indent depth = signed_decimal n
    write_value (JsonValue.uint64 n) indent depth = decimal n
    write_value (JsonValue.double bits) indent depth = to_chars bits
    write_value (JsonValue.string s) indent depth = write_json_string s
    write_value (JsonValue.array Items.end_of_array) indent depth = codes "[]"
    write_value (JsonValue.array (Items.item v items)) indent depth =
        b'[' ∷ line_end indent
        ++ (write_items (Items.item v items) indent (suc depth)
            ++ (write_indent indent depth ++ b']' ∷ []))
    write_value (JsonValue.object Fields.end_of_object) indent depth = codes "{}"
    write_value (JsonValue.object (Fields.field k v fields)) indent depth =
        b'{' ∷ line_end indent
        ++ (write_fields (Fields.field k v fields) indent (suc depth)
            ++ (write_indent indent depth ++ b'}' ∷ []))

    pub write_items : Items → ℕ → ℕ → Bytes
    write_items Items.end_of_array indent depth = []
    write_items (Items.item v items) indent depth =
        write_indent indent depth
        ++ (write_value v indent depth
            ++ (after_item items ++ (line_end indent ++ write_items items indent depth)))

    pub write_fields : Fields → ℕ → ℕ → Bytes
    write_fields Fields.end_of_object indent depth = []
    write_fields (Fields.field k v fields) indent depth =
        write_indent indent depth
        ++ (write_json_string k
            ++ (colon indent
                ++ (write_value v indent depth
                    ++ (after_field fields
                        ++ (line_end indent ++ write_fields fields indent depth)))))

  -- A negative indentation writes what 0 does.
  abbrev at_least_0 : ℤ → ℕ
  at_least_0 (pos n) = n
  at_least_0 (negsuc n) = 0

  unfoldable pub to_json : JsonValue → ℤ → Bytes
  to_json value indent = write_value value (at_least_0 indent) 0
