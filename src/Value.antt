-- ===== src/Value.antt =====
-- The values that the console handles at run time. TypeScript's interfaces are not checked there,
-- so what a response or the stored user holds is any JavaScript value.
use konsul.Prelude.{
  ℕ, Bool, true, false, not, String, List, [], ◌∷◌, ◌≡◌, refl, ◌⊎◌, inl, inr, str_eq, if◌then◌else◌,
}
use konsul.Prelude.Text.{◌<>◌, nonempty}

-- A number is kept as the text that `String(n)` gives.
mutual
  pub data Value : Type 0 where
    undefined null : Value
    bool : Bool → Value
    num str : String → Value
    obj : Fields → Value
    arr : Items → Value

  pub data Fields : Type 0 where
    end : Fields
    field : String → Value → Fields → Fields

  pub data Items : Type 0 where
    nil : Items
    cons : Value → Items → Items

-- `!!v`.
abbrev pub truthy : Value → Bool
truthy undefined = false
truthy null = false
truthy (bool b) = b
truthy (num n) = not (str_eq n "0")
truthy (str s) = nonempty s
truthy (arr xs) = true
truthy (obj fs) = true

-- `v || w`.
abbrev pub or_else : Value → Value → Value
or_else v w = if truthy v then v else w

-- The text of an element under `join`: nothing for `null` and `undefined`.
abbrev blank : Value → String → String
blank undefined s = ""
blank null s = ""
blank _ s = s

-- `String(v)`, which templates and `setItem` apply.
unfoldable mutual
  pub to_text : Value → String
  to_text undefined = "undefined"
  to_text null = "null"
  to_text (bool true) = "true"
  to_text (bool false) = "false"
  to_text (num n) = n
  to_text (str s) = s
  to_text (arr xs) = join_items xs
  to_text (obj fs) = "[object Object]"

  pub join_items : Items → String
  join_items nil = ""
  join_items (cons v nil) = blank v (to_text v)
  join_items (cons v (cons w xs)) = blank v (to_text v) <> "," <> join_items (cons w xs)

-- What a failing action throws: an axios error with a response, one without, or a plain error.
pub data Error : Type 0 where
  response : ℕ → Value → Error
  unreachable : Error
  thrown : String → Error

pub data Result {ℓ} (A : Type ℓ) : Type ℓ where
  ok : A → Result A
  err : Error → Result A

unfoldable pub find_field : String → Fields → Value
find_field k end = undefined
find_field k (field j v fs) = if str_eq j k then v else find_field k fs

-- `v.k`, for a `k` that is no built-in property.
unfoldable pub get_prop : Value → String → Result Value
unfolding find_field
get_prop undefined k = err (thrown "TypeError")
get_prop null k = err (thrown "TypeError")
get_prop (obj fs) k = ok (find_field k fs)
get_prop (bool b) k = ok undefined
get_prop (num n) k = ok undefined
get_prop (str s) k = ok undefined
get_prop (arr xs) k = ok undefined

abbrev pub texts : List String → Items
texts [] = nil
texts (s ∷ l) = cons (str s) (texts l)

-- The elements, of an array only.
abbrev pub elements : Items → List Value
elements nil = []
elements (cons v xs) = v ∷ elements xs

infixl 5 ◌>>=◌
abbrev pub ◌>>=◌ {ℓ κ} : {A : Type ℓ} {B : Type κ} → Result A → (A → Result B) → Result B
ok a >>= f = f a
err e >>= f = err e

pub Result-cases {ℓ} :
    {A : Type ℓ} (r : Result A) → ((e : Error) × (r ≡ err e)) ⊎ ((a : A) × (r ≡ ok a))
Result-cases (ok a) = inr (a, refl)
Result-cases (err e) = inl (e, refl)
