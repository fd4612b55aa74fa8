-- ===== src/Bson.antt =====
-- The values that the program puts into and reads from BSON documents. `bson.Raw` is the list of
-- its bytes; any value that the program only passes on (numbers, dates, floats, nested documents
-- of the user) is `raw`. A `bson.D` is a list of `field`s, or the value `doc`.
use percona_link_mongodb.Prelude.{
  ℕ, ◌-◌, ◌≡◌, refl, leb, if◌then◌else◌, String, Bool, List, [], ◌∷◌, arith, nat_eq, string_eq,
  list_eq,
}

-- `negsuc n` is -(n + 1).
pub data ℤ : Type 0 where
  pos : ℕ → ℤ
  negsuc : ℕ → ℤ

-- int64(a) - int64(b)
unfoldable pub difference : ℕ → ℕ → ℤ
difference a b = if leb b a then pos (a - b) else negsuc (b - a - 1)

abbrev pub Bytes : Type 0
Bytes = List ℕ

mutual
  pub data Value : Type 0 where
    str : String → Value
    int : ℤ → Value
    boolean : Bool → Value
    raw : Bytes → Value
    arr : Items → Value
    doc : Fields → Value

  pub data Items : Type 0 where
    nil : Items
    cons : Value → Items → Items

  pub data Fields : Type 0 where
    end : Fields
    field : String → Value → Fields → Fields

-- A bson.D held in a variable: a slice of keys and values.
abbrev pub Doc : Type 0
Doc = List (String × Value)

unfoldable pub fields_of : Doc → Fields
fields_of [] = end
fields_of ((k, v) ∷ d) = field k v (fields_of d)

unfoldable pub items_of : List Value → Items
items_of [] = nil
items_of (v ∷ vs) = cons v (items_of vs)

unfoldable pub doc_of_fields : Fields → Doc
doc_of_fields end = []
doc_of_fields (field k v fs) = (k, v) ∷ doc_of_fields fs

pub doc_of_fields-fields_of : (d : Doc) → doc_of_fields (fields_of d) ≡ d
unfolding doc_of_fields fields_of
doc_of_fields-fields_of [] = refl
doc_of_fields-fields_of ((k, v) ∷ d) = ground (arith, doc_of_fields-fields_of d)

-- bson.Timestamp: seconds and an increment. Its order is the driver's, and a parameter where used.
pub record Timestamp : Type 0 where
  pub t : ℕ
  pub i : ℕ

abbrev pub zero_timestamp : Timestamp
zero_timestamp = record { t = 0; i = 0 }
