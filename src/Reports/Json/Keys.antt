-- ===== src/Reports/Json/Keys.antt =====
-- `JsonValue::set` of worker/reporting/json_writer.h as an update of a finite map.
use eml_to_pst.Base.{
  ◌≡◌, refl, ◌∙◌, Bool, false, ◌||◌, Option, none, some, if◌then◌else◌, inl, inr, Bool-cases, arith,
}
use eml_to_pst.Base.Text.{Bytes, text_eq, text_eq_iff}
use eml_to_pst.Reports.Json.{JsonValue, Fields, set_field}

unfoldable pub has_key : Bytes → Fields → Bool
has_key key Fields.end_of_object = false
has_key key (Fields.field k v fields) = text_eq k key || has_key key fields

unfoldable pub lookup : Bytes → Fields → Option JsonValue
lookup key Fields.end_of_object = none
lookup key (Fields.field k v fields) = if text_eq k key then some v else lookup key fields

-- No key stands twice.
unfoldable pub AreDistinct : Fields → Type 0
AreDistinct Fields.end_of_object = Unit
AreDistinct (Fields.field k v fields) = (has_key k fields ≡ false) × AreDistinct fields

has_key-set_field :
    (other key : Bytes) (value : JsonValue) (fields : Fields)
    → text_eq key other ≡ false
    → has_key other (set_field key value fields) ≡ has_key other fields
unfolding has_key set_field
has_key-set_field other key value Fields.end_of_object h = rw (h)
has_key-set_field other key value (Fields.field k v fields) h =
    ground (arith, has_key-set_field other key value fields h)

keeps-AreDistinct :
    (key : Bytes) (value : JsonValue) (fields : Fields)
    → AreDistinct fields
    → AreDistinct (set_field key value fields)
unfolding has_key set_field AreDistinct
keeps-AreDistinct key value Fields.end_of_object h = (refl, tt)
keeps-AreDistinct key value (Fields.field k v fields) (new, h) = elim (Bool-cases (text_eq k key)) [
  | inl e ↦ rw (set_field, e) (new, h)
  | inr e ↦
      let different : text_eq key k ≡ false =
        ground (arith, text_eq_iff k key, text_eq_iff key k) in
      rw (set_field, e)
        (has_key-set_field k key value fields different ∙ new, keeps-AreDistinct key value fields h)
]

lookup-set_field :
    (other key : Bytes) (value : JsonValue) (fields : Fields)
    → lookup other (set_field key value fields)
      ≡ (if text_eq key other then some value else lookup other fields)
unfolding lookup set_field
lookup-set_field other key value Fields.end_of_object = refl
lookup-set_field other key value (Fields.field k v fields) = ground (
  arith,
  lookup-set_field other key value fields,
  text_eq_iff k key,
  text_eq_iff k other,
  text_eq_iff key other,
)

-- On an object whose keys are distinct, `set` keeps them distinct, gives the key its value, and
-- leaves the values of all other keys.
pub set_field-IsUpdate :
    (key : Bytes) (value : JsonValue) (fields : Fields) (other : Bytes)
    → AreDistinct fields
    → AreDistinct (set_field key value fields)
      × (lookup other (set_field key value fields)
          ≡ (if text_eq key other then some value else lookup other fields))
set_field-IsUpdate key value fields other h =
    (keeps-AreDistinct key value fields h, lookup-set_field other key value fields)
