-- ===== src/System/Objects.antt =====
-- The unstructured objects that the job backends build: nested `map[string]interface{}` and
-- `[]interface{}` values, and the object with the fields that every backend fills.
use praktikum.Prelude.{ℤ, String, Bool, Option, List, [], ◌∷◌}

mutual
  pub data Json : Type 0 where
    text : String → Json
    int : ℤ → Json
    bool : Bool → Json
    array : Items → Json
    object : Fields → Json

  pub data Items : Type 0 where
    no_items : Items
    item : Json → Items → Items

  pub data Fields : Type 0 where
    no_fields : Fields
    field : String → Json → Fields → Fields

-- `[]interface{}` of the texts
abbrev pub texts : List String → Items
texts [] = no_items
texts (s ∷ ss) = item (text s) (texts ss)

-- `append(a, b...)`
abbrev pub append_items : Items → Items → Items
append_items no_items ys = ys
append_items (item x xs) ys = item x (append_items xs ys)

-- metav1.OwnerReference, as `applyJob` fills it.
pub record OwnerReference : Type 0 where
  pub api_version : String
  pub kind : String
  pub name : String
  pub uid : String
  pub controller : Bool
  pub block_owner_deletion : Bool

pub record Manifest : Type 0 where
  pub api_version : String
  pub kind : String
  pub name : String
  pub namespace : String
  pub labels : List (String × String)
  pub owner : Option OwnerReference
  pub spec : Fields
