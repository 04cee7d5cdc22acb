-- ===== src/Runtime/Json.antt =====
-- Values of a JSON document, as they stand in an event's payload (`dict[str, Any]`), and `int`
-- of such a value. Numbers are natural: the runtime stores counters and identifiers.
use open_review.Base.{
  ℕ, String, Bool, true, false, Option, none, some, List, [], ◌∷◌, ◌==◌, if◌then◌else◌,
}
use open_review.Base.Dict.{Dict}
use open_review.Base.Result.{Result, ok, err, value_error, type_error}

mutual
  pub data Json : Type 0 where
    null : Json
    bool : Bool → Json
    num : ℕ → Json
    str : String → Json
    arr : Items → Json
    obj : Fields → Json

  pub data Items : Type 0 where
    nil : Items
    cons : Json → Items → Items

  pub data Fields : Type 0 where
    end : Fields
    field : String → Json → Fields → Fields

abbrev pub items : List Json → Items
items [] = nil
items (x ∷ xs) = cons x (items xs)

abbrev pub fields : Dict Json → Fields
fields [] = end
fields ((k, v) ∷ d) = field k v (fields d)

-- `None` or a text; `None` or a number
abbrev pub opt_str : Option String → Json
opt_str none = null
opt_str (some s) = str s

abbrev pub opt_num : Option ℕ → Json
opt_num none = null
opt_num (some n) = num n

-- `d.get(key)`, with `None` for a missing key
abbrev pub or_null : Option Json → Json
or_null none = null
or_null (some v) = v

-- Python's `int` of a text: `none` where it raises `ValueError`
abbrev pub IntOfText : Type 0
IntOfText = String → Option ℕ

parsed : Option ℕ → Result ℕ
parsed none = err value_error
parsed (some n) = ok n

-- `int(value or 0)`: a falsy value counts as 0
unfoldable pub int_or_zero : IntOfText → Json → Result ℕ
unfolding parsed
int_or_zero int_of null = ok 0
int_or_zero int_of (bool true) = ok 1
int_or_zero int_of (bool false) = ok 0
int_or_zero int_of (num n) = ok n
int_or_zero int_of (str s) = if s == "" then ok 0 else parsed (int_of s)
int_or_zero int_of (arr nil) = ok 0
int_or_zero int_of (arr (cons x xs)) = err type_error
int_or_zero int_of (obj end) = ok 0
int_or_zero int_of (obj (field k v d)) = err type_error
