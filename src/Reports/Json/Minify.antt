-- ===== src/Reports/Json/Minify.antt =====
-- The indentation of worker/reporting/json_writer.cpp is white space outside of strings only.
use mathlib.Core.List.{append_assoc, append-nil}
use eml_to_pst.Base.{
  ℕ, zero, suc, ◌+◌, ◌*◌, ◌/◌, ◌%◌, ◌≡◌, refl, sym, ap, ◌∙◌, [], ◌∷◌, ◌++◌, Bool, true, false, not,
  ◌&&◌, ◌||◌, ltb, ◌==◌, if◌then◌else◌, arith, inl, inr, Bool-cases, replicate,
}
use eml_to_pst.Base.Int.{ℤ, pos, negsuc}
use eml_to_pst.Base.Text.{Bytes, codes}
use eml_to_pst.Base.Numbers.{decimal, signed_decimal, digits_onto}
use eml_to_pst.Reports.Json.{
  JsonValue, Items, Fields, escape_byte, escape_all, write_json_string, write_indent, line_end,
  colon, write_value, write_items, write_fields, to_json, after_item, after_field,
}

pub data Place : Type 0 where
  outside inside escaped : Place

-- The text without the blanks and line ends outside of its strings.
unfoldable pub minify : Place → Bytes → Bytes
minify p [] = []
minify Place.outside (c ∷ cs) =
    let opened = c ∷ minify Place.inside cs in
    let rest = minify Place.outside cs in
    if c == b'"' then opened else if c == b' ' || c == b'\n' then rest else c ∷ rest
minify Place.inside (c ∷ cs) =
    let closed = c ∷ minify Place.outside cs in
    let behind = c ∷ minify Place.escaped cs in
    let more = c ∷ minify Place.inside cs in
    if c == b'"' then closed else if c == b'\\' then behind else more
minify Place.escaped (c ∷ cs) = c ∷ minify Place.inside cs

-- Neither a quote nor white space.
unfoldable pub is_plain : Bytes → Bool
is_plain [] = true
is_plain (c ∷ cs) = not (c == b'"' || c == b' ' || c == b'\n') && is_plain cs

abbrev pub IsPlain : Bytes → Type 0
IsPlain w = is_plain w ≡ true

minify_plain :
    (w rest : Bytes) → IsPlain w → minify Place.outside (w ++ rest) ≡ w ++ minify Place.outside rest
unfolding minify is_plain
minify_plain [] rest h = refl
minify_plain (c ∷ w) rest h = ground (arith, minify_plain w rest)

minify_blanks :
    (n : ℕ) (rest : Bytes)
    → minify Place.outside (replicate n b' ' ++ rest) ≡ minify Place.outside rest
unfolding minify
minify_blanks zero rest = refl
minify_blanks (suc n) rest = minify_blanks n rest

minify_spaces :
    (indent depth : ℕ) (rest : Bytes)
    → minify Place.outside (write_indent indent depth ++ rest) ≡ minify Place.outside rest
unfolding write_indent
minify_spaces indent depth rest = minify_blanks (indent * depth) rest

minify_escape :
    (c : ℕ) (rest : Bytes)
    → minify Place.inside (escape_byte c ++ rest) ≡ escape_byte c ++ minify Place.inside rest
unfolding minify escape_byte
minify_escape c rest = ground arith

minify_chars :
    (s rest : Bytes)
    → minify Place.inside (escape_all s ++ b'"' ∷ rest)
      ≡ escape_all s ++ b'"' ∷ minify Place.outside rest
unfolding minify escape_all
minify_chars [] rest = refl
minify_chars (c ∷ s) rest =
    ap (minify Place.inside) (append_assoc (escape_byte c) (escape_all s) (b'"' ∷ rest))
    ∙ minify_escape c (escape_all s ++ b'"' ∷ rest)
    ∙ ap (λ r. escape_byte c ++ r) (minify_chars s rest)
    ∙ sym (append_assoc (escape_byte c) (escape_all s) (b'"' ∷ minify Place.outside rest))

-- What `w` becomes, whatever follows.
record Shrinks (w w' : Bytes) : Type 0 where
  at : (rest : Bytes) → minify Place.outside (w ++ rest) ≡ w' ++ minify Place.outside rest

join_shrunk : {w w' u u' : Bytes} → Shrinks w w' → Shrinks u u' → Shrinks (w ++ u) (w' ++ u')
join_shrunk {w} {w'} {u} {u'} h k = record {
  at = λ rest.
      ap (minify Place.outside) (append_assoc w u rest)
      ∙ h.at (u ++ rest)
      ∙ ap (λ r. w' ++ r) (k.at rest)
      ∙ sym (append_assoc w' u' (minify Place.outside rest));
}

plain-Shrinks : (w : Bytes) → IsPlain w → Shrinks w w
plain-Shrinks w h = record { at = λ rest. minify_plain w rest h }

string-Shrinks : (s : Bytes) → Shrinks (write_json_string s) (write_json_string s)
unfolding minify write_json_string
string-Shrinks s = record {
  at = λ rest.
      ap (λ r. b'"' ∷ r)
        (ap (minify Place.inside) (append_assoc (escape_all s) (b'"' ∷ []) rest)
          ∙ minify_chars s rest
          ∙ sym (append_assoc (escape_all s) (b'"' ∷ []) (minify Place.outside rest)));
}

no_blanks : (depth : ℕ) → write_indent 0 depth ≡ []
unfolding write_indent
no_blanks depth = ap (λ n. replicate n b' ') {x = 0 * depth} {y = 0} (omega arith)

indent-Shrinks : (indent depth : ℕ) → Shrinks (write_indent indent depth) (write_indent 0 depth)
indent-Shrinks indent depth =
    rw (no_blanks depth) (record { at = λ rest. minify_spaces indent depth rest })

line_end-Shrinks : (indent : ℕ) → Shrinks (line_end indent) (line_end 0)
unfolding line_end minify
line_end-Shrinks indent = record { at = λ rest. ground arith }

colon-Shrinks : (indent : ℕ) → Shrinks (colon indent) (colon 0)
unfolding colon minify
colon-Shrinks indent = record { at = λ rest. ground arith }

digits_onto-IsPlain : (fuel n : ℕ) (rest : Bytes) → IsPlain rest → IsPlain (digits_onto fuel n rest)
unfolding digits_onto is_plain
digits_onto-IsPlain zero n rest h = h
digits_onto-IsPlain (suc fuel) n rest h =
    let digit : IsPlain ((48 + n % 10) ∷ rest) = ground (arith, h) in
    elim (Bool-cases (ltb n 10)) [
      | inl e ↦ rw (digits_onto, e) digit
      | inr e ↦ rw (digits_onto, e) (digits_onto-IsPlain fuel (n / 10) ((48 + n % 10) ∷ rest) digit)
    ]

decimal-IsPlain : (n : ℕ) → IsPlain (decimal n)
unfolding decimal is_plain
decimal-IsPlain n = digits_onto-IsPlain (suc n) n [] refl

signed_decimal-IsPlain : (n : ℤ) → IsPlain (signed_decimal n)
unfolding signed_decimal is_plain
signed_decimal-IsPlain (pos n) = decimal-IsPlain n
signed_decimal-IsPlain (negsuc n) = ground (arith, decimal-IsPlain (suc n))

after_item-IsPlain : (items : Items) → IsPlain (after_item items)
unfolding is_plain
after_item-IsPlain Items.end_of_array = refl
after_item-IsPlain (Items.item v items) = refl

after_field-IsPlain : (fields : Fields) → IsPlain (after_field fields)
unfolding is_plain
after_field-IsPlain Fields.end_of_object = refl
after_field-IsPlain (Fields.field k v fields) = refl

module _ (to_chars : ℕ → Bytes) (plain : (bits : ℕ) → IsPlain (to_chars bits)) where
  mutual
    unfolding write_value write_items write_fields is_plain

    value-Shrinks :
        (v : JsonValue) (indent depth : ℕ)
        → Shrinks (write_value to_chars v indent depth) (write_value to_chars v 0 depth)
    value-Shrinks JsonValue.null indent depth = plain-Shrinks (codes "null") refl
    value-Shrinks (JsonValue.bool true) indent depth = plain-Shrinks (codes "true") refl
    value-Shrinks (JsonValue.bool false) indent depth = plain-Shrinks (codes "false") refl
    value-Shrinks (JsonValue.int64 n) indent depth =
        plain-Shrinks (signed_decimal n) (signed_decimal-IsPlain n)
    value-Shrinks (JsonValue.uint64 n) indent depth = plain-Shrinks (decimal n) (decimal-IsPlain n)
    value-Shrinks (JsonValue.double bits) indent depth = plain-Shrinks (to_chars bits) (plain bits)
    value-Shrinks (JsonValue.string s) indent depth = string-Shrinks s
    value-Shrinks (JsonValue.array Items.end_of_array) indent depth =
        plain-Shrinks (codes "[]") refl
    value-Shrinks (JsonValue.array (Items.item v items)) indent depth =
        join_shrunk (join_shrunk (plain-Shrinks (b'[' ∷ []) refl) (line_end-Shrinks indent)) (
          join_shrunk (items_shrink (Items.item v items) indent (suc depth))
            (join_shrunk (indent-Shrinks indent depth) (plain-Shrinks (b']' ∷ []) refl)))
    value-Shrinks (JsonValue.object Fields.end_of_object) indent depth =
        plain-Shrinks (codes "{}") refl
    value-Shrinks (JsonValue.object (Fields.field k v fields)) indent depth =
        join_shrunk (join_shrunk (plain-Shrinks (b'{' ∷ []) refl) (line_end-Shrinks indent)) (
          join_shrunk (fields_shrink (Fields.field k v fields) indent (suc depth))
            (join_shrunk (indent-Shrinks indent depth) (plain-Shrinks (b'}' ∷ []) refl)))

    items_shrink :
        (items : Items) (indent depth : ℕ)
        → Shrinks (write_items to_chars items indent depth) (write_items to_chars items 0 depth)
    items_shrink Items.end_of_array indent depth = plain-Shrinks [] refl
    items_shrink (Items.item v items) indent depth = join_shrunk (indent-Shrinks indent depth) (
        join_shrunk (value-Shrinks v indent depth) (
          join_shrunk (plain-Shrinks (after_item items) (after_item-IsPlain items))
            (join_shrunk (line_end-Shrinks indent) (items_shrink items indent depth))))

    fields_shrink :
        (fields : Fields) (indent depth : ℕ)
        → Shrinks (write_fields to_chars fields indent depth) (write_fields to_chars fields 0 depth)
    fields_shrink Fields.end_of_object indent depth = plain-Shrinks [] refl
    fields_shrink (Fields.field k v fields) indent depth =
        join_shrunk (indent-Shrinks indent depth) (
          join_shrunk (string-Shrinks k) (
            join_shrunk (colon-Shrinks indent) (
              join_shrunk (value-Shrinks v indent depth) (
                join_shrunk (plain-Shrinks (after_field fields) (after_field-IsPlain fields))
                  (join_shrunk (line_end-Shrinks indent) (fields_shrink fields indent depth))))))

  value_minified :
      (v : JsonValue) (indent : ℕ)
      → minify Place.outside (write_value to_chars v indent 0) ≡ write_value to_chars v 0 0
  unfolding minify
  value_minified v indent =
      ap (minify Place.outside) (sym (append-nil (write_value to_chars v indent 0)))
      ∙ (value-Shrinks v indent 0).at []
      ∙ append-nil (write_value to_chars v 0 0)

  -- Where the text of a double holds no quote and no white space: the indented text of any value
  -- without the blanks and line ends outside of its strings is the compact text.
  pub minify-to_json :
      (v : JsonValue) (indent : ℤ)
      → minify Place.outside (to_json to_chars v indent) ≡ to_json to_chars v (pos 0)
  unfolding to_json
  minify-to_json v (pos n) = value_minified v n
  minify-to_json v (negsuc n) = value_minified v 0
