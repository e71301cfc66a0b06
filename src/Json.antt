-- ===== src/Json.antt =====
-- The part of `serde_json::Value` that the program reads: events are JSON, taken apart by field.
use omarchy_chatd.Base.{ℕ, Bool, true, false, Option, none, some, if◌then◌else◌, Text, text_eq}

mutual
  pub data Json : Type 0 where
    null : Json
    bool : Bool → Json
    num : ℕ → Json
    str : Text → Json
    arr : Items → Json
    obj : Fields → Json

  pub data Items : Type 0 where
    nil : Items
    cons : Json → Items → Items

  pub data Fields : Type 0 where
    end : Fields
    field : Text → Json → Fields → Fields

unfoldable pub find_field : Text → Fields → Option Json
find_field k end = none
find_field k (field j v fs) = if text_eq j k then some v else find_field k fs

-- `Value::get` with a key.
unfoldable pub get : Text → Json → Option Json
unfolding find_field
get k (obj fs) = find_field k fs
get k _ = none

-- `Value::as_str`.
abbrev pub as_str : Json → Option Text
as_str (str s) = some s
as_str _ = none

-- `value.as_object().is_none_or(|c| c.is_empty())`.
abbrev pub no_fields : Json → Bool
no_fields (obj end) = true
no_fields (obj (field k v fs)) = false
no_fields _ = true

-- `value.as_array().is_none_or(|a| a.is_empty())`.
abbrev pub no_items : Json → Bool
no_items (arr nil) = true
no_items (arr (cons v vs)) = false
no_items _ = true

-- `Option::and_then`.
infixl 5 ◌>>=◌
abbrev pub ◌>>=◌ : {A B : Type 0} → Option A → (A → Option B) → Option B
none >>= f = none
some a >>= f = f a
