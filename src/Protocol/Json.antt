-- ===== src/Protocol/Json.antt =====
-- What internal/protocol uses of encoding/json: values, and the way `Unmarshal` fills the fields of
-- a struct. A raw message is its value, or nothing if it is empty.
use Prim.Native.Char.{code}
use beacon_desk.Prelude.{
  ℕ, ◌+◌, String, Bool, true, false, ◌&&◌, Option, none, some, List, [], ◌∷◌, ◌>>=◌, leb, ◌=ℕ◌,
  ◌==◌, if◌then◌else◌,
}
use beacon_desk.Prelude.Int.{ℤ, in_int64, pos_part, neg_part}

mutual
  pub data Json : Type 0 where
    null : Json
    boolean : Bool → Json
    int : ℤ → Json
    -- A number that is not written as an integer.
    real : Json
    text : String → Json
    array : Items → Json
    object : Fields → Json

  pub data Items : Type 0 where
    nil : Items
    item : Json → Items → Items

  pub data Fields : Type 0 where
    end : Fields
    field : String → Json → Fields → Fields

-- The simple case folding of encoding/json, as far as it meets ASCII letters.
fold_rune : ℕ → ℕ
fold_rune c =
    if leb b'A' c && leb c b'Z'
    then c + 32
    else if c =ℕ 0x212a
    then b'k'
    else if c =ℕ 0x17f
    then b's'
    else c

-- Does a key of an object name this field? Letter case does not matter.
unfoldable pub same_key : String → String → Bool
unfolding fold_rune
same_key String.[] String.[] = true
same_key String.[] (String.◌∷◌ d t) = false
same_key (String.◌∷◌ c s) String.[] = false
same_key (String.◌∷◌ c s) (String.◌∷◌ d t) =
    fold_rune (code c) =ℕ fold_rune (code d) && same_key s t

-- A later entry of the same name overwrites an earlier one; `null` leaves the field as it is.
unfoldable pub scan_field {ℓ} :
    {A : Type ℓ} → (Json → A → Option A) → String → A → Fields → Option A
unfolding same_key
scan_field assign name current end = some current
scan_field assign name current (field k v rest) =
    elim (if same_key k name then assign v current else some current) [
      | none ↦ none
      | some next ↦ scan_field assign name next rest
    ]

assign_string : Json → String → Option String
assign_string null current = some current
assign_string (text s) current = some s
assign_string _ current = none

assign_bool : Json → Bool → Option Bool
assign_bool null current = some current
assign_bool (boolean b) current = some b
assign_bool _ current = none

assign_int : Json → ℤ → Option ℤ
assign_int null current = some current
assign_int (int n) current = if in_int64 n then some n else none
assign_int _ current = none

unfoldable pub string_field : String → Fields → Option String
unfolding scan_field assign_string
string_field name fields = scan_field assign_string name "" fields

unfoldable pub bool_field : String → Fields → Option Bool
unfolding scan_field assign_bool
bool_field name fields = scan_field assign_bool name false fields

unfoldable pub int_field : String → Fields → Option ℤ
unfolding scan_field assign_int
int_field name fields = scan_field assign_int name (ℤ.pos 0) fields

-- `Unmarshal` into a struct: an empty raw message is skipped by the caller, `null` changes nothing.
abbrev pub raw_fields : Option Json → Option Fields
raw_fields none = some end
raw_fields (some null) = some end
raw_fields (some (object fields)) = some fields
raw_fields (some _) = none

-- `Marshal` of a field with `omitempty`.
abbrev pub omit_empty : String → String → Fields → Fields
omit_empty name value rest = if value == "" then rest else field name (text value) rest

abbrev pub omit_false : String → Bool → Fields → Fields
omit_false name true rest = field name (boolean true) rest
omit_false name false rest = rest

-- A field of type `[]string`: each element has to be a string or `null`.
abbrev assign_element : Json → Option String
assign_element null = some ""
assign_element (text s) = some s
assign_element _ = none

assign_strings : Items → Option (List String)
assign_strings nil = some []
assign_strings (item j rest) = do s ← assign_element j; ss ← assign_strings rest; some (s ∷ ss)

assign_string_list : Json → List String → Option (List String)
unfolding assign_strings
assign_string_list null current = some []
assign_string_list (array items) current = assign_strings items
assign_string_list _ current = none

unfoldable pub string_list_field : String → Fields → Option (List String)
unfolding scan_field assign_string_list
string_list_field name fields = scan_field assign_string_list name [] fields

-- A field of type `*bool`.
assign_pointer : Json → Option Bool → Option (Option Bool)
assign_pointer null current = some none
assign_pointer (boolean b) current = some (some b)
assign_pointer _ current = none

unfoldable pub pointer_field : String → Fields → Option (Option Bool)
unfolding scan_field assign_pointer
pointer_field name fields = scan_field assign_pointer name none fields

unfoldable pub strings : List String → Items
strings [] = nil
strings (s ∷ ss) = item (text s) (strings ss)

abbrev pub omit_zero : String → ℤ → Fields → Fields
omit_zero name value rest =
    if pos_part value + neg_part value =ℕ 0 then rest else field name (int value) rest

abbrev pub omit_nil : String → Option Bool → Fields → Fields
omit_nil name none rest = rest
omit_nil name (some b) rest = field name (boolean b) rest

abbrev pub omit_none : String → List String → Fields → Fields
omit_none name [] rest = rest
omit_none name (s ∷ ss) rest = field name (array (strings (s ∷ ss))) rest
