-- ===== src/Json/Print.antt =====
-- The text of a value, with no blanks, and how deep it is.
use libnetq.Prelude.{
  ℕ, suc, List, [], ◌++◌, Option, none, some, Bool, true, false, not, ◌&&◌, max, leb, length,
  if◌then◌else◌,
}
use libnetq.Json.{
  Printf, c_string, object_begin, object_end, array_begin, array_end, comma, colon, null_text,
  true_text, false_text,
}
use libnetq.Json.Steps.{quoted}
use libnetq.Json.Value.{
  Value, Fields, Items, object, array, string, int64, double, bool, null, no_fields, field,
  no_items, item,
}

abbrev pub digits : Option (List ℕ) → List ℕ
digits none = []
digits (some text) = text

-- A number is printed, and fits the buffer of 32 characters with its 0.
abbrev pub fits : Option (List ℕ) → Bool
fits none = false
fits (some text) = not (leb 32 (length text))

abbrev pub separator : Bool → List ℕ
separator c = if c then comma else []

module _ (lib : Printf) where
  unfoldable mutual
    pub print : Value lib.Double → List ℕ
    print (object fields) = object_begin ++ (print_fields false fields ++ object_end)
    print (array items) = array_begin ++ (print_items false items ++ array_end)
    print (string val) = quoted (c_string val)
    print (int64 val) = digits (lib.print_int val)
    print (double val) = digits (lib.print_double val)
    print (bool val) = if val then true_text else false_text
    print null = null_text

    pub print_fields : Bool → Fields lib.Double → List ℕ
    print_fields c no_fields = []
    print_fields c (field key val more) =
        (separator c ++ quoted (c_string key)) ++ ((colon ++ print val) ++ print_fields true more)

    pub print_items : Bool → Items lib.Double → List ℕ
    print_items c no_items = []
    print_items c (item val more) = (separator c ++ print val) ++ print_items true more

  unfoldable mutual
    pub printable : Value lib.Double → Bool
    printable (object fields) = printable_fields fields
    printable (array items) = printable_items items
    printable (string val) = true
    printable (int64 val) = fits (lib.print_int val)
    printable (double val) = fits (lib.print_double val)
    printable (bool val) = true
    printable null = true

    pub printable_fields : Fields lib.Double → Bool
    printable_fields no_fields = true
    printable_fields (field key val more) = printable val && printable_fields more

    pub printable_items : Items lib.Double → Bool
    printable_items no_items = true
    printable_items (item val more) = printable val && printable_items more

-- The levels that a value needs.
unfoldable mutual
  pub height : {D : Type 0} → Value D → ℕ
  height (object fields) = suc (height_fields fields)
  height (array items) = suc (height_items items)
  height (string val) = 0
  height (int64 val) = 0
  height (double val) = 0
  height (bool val) = 0
  height null = 0

  pub height_fields : {D : Type 0} → Fields D → ℕ
  height_fields no_fields = 0
  height_fields (field key val more) = max (height val) (height_fields more)

  pub height_items : {D : Type 0} → Items D → ℕ
  height_items no_items = 0
  height_items (item val more) = max (height val) (height_items more)
