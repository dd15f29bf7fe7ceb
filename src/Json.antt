-- ===== src/Json.antt =====
-- The Python dicts that the operations return and hand to `json.dumps` for the audit log.
use solfleet.Prelude.{ℕ, Bool, List, [], ◌∷◌, map, String, Option, none, some}
use solfleet.Prelude.Text.{Text, lit}

mutual
  pub data Json : Type 0 where
    null : Json
    bool : Bool → Json
    int : ℕ → Json
    -- A number of tenths, such as a time in seconds with one decimal.
    tenths : ℕ → Json
    text : Text → Json
    items : Items → Json
    fields : Fields → Json

  pub data Items : Type 0 where
    nil : Items
    cons : Json → Items → Items

  pub data Fields : Type 0 where
    end : Fields
    field : String → Json → Fields → Fields

abbrev items_of : List Json → Items
items_of [] = nil
items_of (x ∷ xs) = cons x (items_of xs)

abbrev fields_of : List (String × Json) → Fields
fields_of [] = end
fields_of ((k, v) ∷ kvs) = field k v (fields_of kvs)

abbrev pub array : List Json → Json
array xs = items (items_of xs)

abbrev pub object : List (String × Json) → Json
object kvs = fields (fields_of kvs)

abbrev pub string : String → Json
string s = text (lit s)

abbrev pub strings : List String → Json
strings xs = array (map string xs)

abbrev pub texts : List Text → Json
texts xs = array (map text xs)

abbrev pub opt_string : Option String → Json
opt_string none = null
opt_string (some s) = string s

abbrev pub opt_int : Option ℕ → Json
opt_int none = null
opt_int (some n) = int n

abbrev pub opt_text : Option Text → Json
opt_text none = null
opt_text (some t) = text t
