-- ===== src/Json.antt =====
-- JSON values as `JSON.parse` gives them (`Json` of core/canonical.ts), field access, and `String(…)`.
use vpn_pi.Common.{
  ℕ, zero, suc, ◌+◌, ◌/◌, ◌%◌, Bool, true, false, Option, none, some, [], ◌∷◌, ◌++◌, Str, lit,
  str_eq, ◌==◌, ltb, not, ◌&&◌, is_some, if◌then◌else◌,
}

-- A number is an integer with a sign and a magnitude, or not an integer, kept as its text.
pub data Number : Type 0 where
  integer : (negative : Bool) → (magnitude : ℕ) → Number
  fraction : Str → Number

mutual
  pub data Json : Type 0 where
    null : Json
    bool : Bool → Json
    num : Number → Json
    str : Str → Json
    arr : Items → Json
    obj : Fields → Json

  pub data Items : Type 0 where
    nil : Items
    cons : Json → Items → Items

  pub data Fields : Type 0 where
    end : Fields
    field : Str → Json → Fields → Fields

-- The decimal digits of a number; `fuel` is at least the number of digits.
digits_from : ℕ → ℕ → Str → Str
digits_from zero n acc = acc
digits_from (suc fuel) n acc =
    let more = digits_from fuel (n / 10) ((48 + n % 10) ∷ acc) in
    if ltb n 10 then (48 + n % 10) ∷ acc else more

unfoldable pub decimal : ℕ → Str
unfolding digits_from
decimal n = digits_from (suc n) n []

-- `String(v)` of a number; an integer stands below 10^21, from where the source prints exponents.
unfoldable pub number_text : Number → Str
unfolding decimal
number_text (integer negative zero) = lit "0"
number_text (integer true (suc n)) = lit "-" ++ decimal (suc n)
number_text (integer false (suc n)) = decimal (suc n)
number_text (fraction text) = text

-- `o.k`.
unfoldable pub member : Str → Fields → Option Json
member k end = none
member k (field j v fs) = if j == k then some v else member k fs

unfoldable pub property : Str → Json → Option Json
unfolding member
property k (obj fs) = member k fs
property k _ = none

unfoldable mutual
  -- `String(v)`.
  pub text_of : Json → Str
  text_of null = lit "null"
  text_of (bool true) = lit "true"
  text_of (bool false) = lit "false"
  text_of (num n) = number_text n
  text_of (str s) = s
  text_of (arr xs) = text_items xs
  text_of (obj fs) = lit "[object Object]"

  -- An array's texts joined by ",".
  pub text_items : Items → Str
  text_items nil = []
  text_items (cons x xs) = text_item x ++ text_more xs

  pub text_more : Items → Str
  text_more nil = []
  text_more (cons x xs) = lit "," ++ (text_item x ++ text_more xs)

  -- An element that is null has the empty text.
  pub text_item : Json → Str
  text_item null = []
  text_item (bool true) = lit "true"
  text_item (bool false) = lit "false"
  text_item (num n) = number_text n
  text_item (str s) = s
  text_item (arr xs) = text_items xs
  text_item (obj fs) = lit "[object Object]"

-- `String(v)` does not throw: it does on an object that has its own "toString", which no JSON value
-- can make a function, and on an array that holds such an object.
unfoldable mutual
  pub has_text : Json → Bool
  has_text (arr xs) = have_texts xs
  has_text (obj fs) = not (is_some (member (lit "toString") fs))
  has_text v = true

  pub have_texts : Items → Bool
  have_texts nil = true
  have_texts (cons x xs) = has_text x && have_texts xs

-- `String(x)` where `x` may be undefined.
unfoldable pub text_or_undefined : Option Json → Str
text_or_undefined none = lit "undefined"
text_or_undefined (some v) = text_of v

-- `typeof x === "string"`.
unfoldable pub as_text : Option Json → Option Str
as_text (some (str s)) = some s
as_text _ = none
