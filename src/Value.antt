-- ===== src/Value.antt =====
-- The values that json.loads and PyJWT hand to the program, and dicts with text keys in insertion
-- order.
use agentic_identity_lab.Prelude.{
  String, ◌≡◌, refl, Bool, true, false, not, Option, none, some, List, [], ◌∷◌, arith, ◌==◌, eq_iff,
  eqb, ℤ, pos, negsuc, is_blank, is_none, or_default, if◌then◌else◌,
}

-- What the program reads of a float: whether it is zero, and its integer part.
pub data Float : Type 0 where
  finite : (truncated : ℤ) (is_zero : Bool) → Float
  infinite : Float
  nan : Float

mutual
  pub data Value : Type 0 where
    null : Value
    bool : Bool → Value
    int : ℤ → Value
    float : Float → Value
    str : String → Value
    list : Items → Value
    dict : Dict → Value

  pub data Items : Type 0 where
    nil : Items
    cons : Value → Items → Items

  pub data Dict : Type 0 where
    empty : Dict
    entry : String → Value → Dict → Dict

unfoldable pub to_list : Items → List Value
to_list nil = []
to_list (cons v vs) = v ∷ to_list vs

-- d.get(k), with `none` for a missing key
unfoldable pub lookup : String → Dict → Option Value
lookup k empty = none
lookup k (entry j v d) = if j == k then some v else lookup k d

-- d.get(k), where None stands for a missing key too
abbrev pub get : String → Dict → Value
get k d = or_default (lookup k d) null

-- k in d
abbrev pub has_key : String → Dict → Bool
has_key k d = not (is_none (lookup k d))

-- d[k] = v
unfoldable pub set_item : String → Value → Dict → Dict
set_item k v empty = entry k v empty
set_item k v (entry j w d) = if j == k then entry j v d else entry j w (set_item k v d)

-- bool(d)
abbrev pub dict_truthy : Dict → Bool
dict_truthy empty = false
dict_truthy (entry k v d) = true

-- bool(v)
unfoldable pub truthy : Value → Bool
truthy null = false
truthy (bool b) = b
truthy (int (pos n)) = not (eqb n 0)
truthy (int (negsuc n)) = true
truthy (float (finite t z)) = not z
truthy (float infinite) = true
truthy (float nan) = true
truthy (str s) = not (is_blank s)
truthy (list nil) = false
truthy (list (cons v vs)) = true
truthy (dict d) = dict_truthy d

-- a or b
unfoldable pub or_value : Value → Value → Value
unfolding truthy
or_value a b = if truthy a then a else b

-- The keys of a dict are distinct, as in Python.
abbrev pub IsDict : Dict → Type 0
IsDict empty = Unit
IsDict (entry k v d) = (lookup k d ≡ none) × IsDict d

pub lookup-set_item :
    (j k : String) (v : Value) (d : Dict)
    → lookup j (set_item k v d) ≡ (if k == j then some v else lookup j d)
unfolding lookup set_item
lookup-set_item j k v empty = refl
lookup-set_item j k v (entry i w d) =
    ground (arith, eq_iff i k, eq_iff i j, eq_iff k j, lookup-set_item j k v d)

pub set_item-IsDict : (k : String) (v : Value) (d : Dict) → IsDict d → IsDict (set_item k v d)
unfolding set_item lookup
set_item-IsDict k v empty h = (refl, tt)
set_item-IsDict k v (entry j w d) (fresh, h) =
    ground (arith, set_item-IsDict k v d h, lookup-set_item j k v d, eq_iff j k, eq_iff k j)
