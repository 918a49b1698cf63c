-- ===== src/KeywordIndex/Json.antt =====
-- The values that a JSON payload holds once it is read, and what Python makes of them.
use radio_broadcast_analysis.Prelude.{
  ℕ, String, Bool, true, false, not, Option, none, some, List, [], ◌∷◌, ◌≡◌, refl, if◌then◌else◌,
  ltb, All, nat_Eq, string_Eq, str_eq,
}

mutual
  pub data Json : Type 0 where
    null : Json
    boolean : Bool → Json
    number : ℕ → Json
    text : String → Json
    array : Items → Json
    object : Fields → Json

  pub data Items : Type 0 where
    nil : Items
    cons : Json → Items → Items

  pub data Fields : Type 0 where
    done : Fields
    field : String → Json → Fields → Fields

-- d[k], or nothing for a KeyError
unfoldable pub lookup : Fields → String → Option Json
lookup done k = none
lookup (field j v fields) k = if str_eq j k then some v else lookup fields k

-- d.get(k)
unfoldable pub get_field : Fields → String → Json
unfolding lookup
get_field fields k = elim (lookup fields k) [ none ↦ null | some v ↦ v ]

-- bool(v)
abbrev pub truthy : Json → Bool
truthy null = false
truthy (boolean b) = b
truthy (number n) = ltb 0 n
truthy (text s) = not (str_eq s "")
truthy (array nil) = false
truthy (array (cons v items)) = true
truthy (object done) = false
truthy (object (field k v fields)) = true

-- Nothing stands for an exception in the rest of the chain as well.
infixl 5 ◌>>=◌
abbrev pub ◌>>=◌ : {A B : Type 0} → Option A → (A → Option B) → Option B
none >>= f = none
some a >>= f = f a

-- [f(v) for v in items]
unfoldable pub each : {A : Type 0} → (Json → Option A) → Items → Option (List A)
each f nil = some []
each f (cons v items) = do a ← f v; rest ← each f items; some (a ∷ rest)

-- The characters of a string, and the keys of a dict, as Python iterates over them.
unfoldable pub characters : String → Items
characters String.[] = nil
characters (String.◌∷◌ c s) = cons (text (String.◌∷◌ c String.[])) (characters s)

unfoldable pub keys : Fields → Items
keys done = nil
keys (field k v fields) = cons (text k) (keys fields)

-- iter(v), or nothing for a TypeError
abbrev pub iterate : Json → Option Items
iterate (array items) = some items
iterate (text s) = some (characters s)
iterate (object fields) = some (keys fields)
iterate v = none

-- v or []
abbrev pub items_of : Json → Option Items
items_of (array items) = some items
items_of v = if truthy v then iterate v else some nil

-- d.get(k, [])
unfoldable pub list_at : Fields → String → Option Items
unfolding lookup
list_at fields k = elim (lookup fields k) [ none ↦ some nil | some v ↦ iterate v ]

-- v or {}
abbrev pub fields_of : Json → Option Fields
fields_of (object fields) = some fields
fields_of v = if truthy v then none else some done

-- [f(x) for x in xs], as the list of a payload
unfoldable pub to_items : {A : Type 0} → (A → Json) → List A → Items
to_items f [] = nil
to_items f (x ∷ xs) = cons (f x) (to_items f xs)

-- What is written as a list is read back as it was, where that is so of each element.
pub each-to_items :
    {A : Type 0} (read : Json → Option A) (write : A → Json) (xs : List A)
    → All (λ x. read (write x) ≡ some x) xs
    → each read (to_items write xs) ≡ some xs
unfolding each to_items
each-to_items read write [] h = refl
each-to_items read write (x ∷ xs) h = rw (h.0, each-to_items read write xs h.1) refl
