-- ===== src/Protocol/Json.antt =====
-- The values of `canonicalValueSchema` (packages/protocol/src/schema/common.ts), and the reads and
-- writes that the program makes on such objects. A number is a natural number here.
use ai_smart_flow.Shared.{
  ℕ, ◌≡◌, refl, Bool, true, false, String, Option, none, some, arith, eq_iff, ◌==◌, text_eq,
  if◌then◌else◌,
}

mutual
  pub data Json : Type 0 where
    null : Json
    bool : Bool → Json
    num : ℕ → Json
    str : String → Json
    arr : Items → Json
    obj : Fields → Json

  pub data Items : Type 0 where
    nil : Items
    cons : Json → Items → Items

  pub data Fields : Type 0 where
    end : Fields
    field : String → Json → Fields → Fields

-- `object[key]`, absent for a key that is not there.
unfoldable pub field_get : Fields → String → Option Json
field_get end key = none
field_get (field k v rest) key = if k == key then some v else field_get rest key

-- `{ ...object, [key]: value }`
unfoldable pub field_put : Fields → String → Json → Fields
field_put end key value = field key value end
field_put (field k v rest) key value =
    if k == key then field k value rest else field k v (field_put rest key value)

-- `delete object[key]`
unfoldable pub field_delete : Fields → String → Fields
field_delete end key = end
field_delete (field k v rest) key =
    if k == key then field_delete rest key else field k v (field_delete rest key)

abbrev pub no_fields : Fields → Bool
no_fields end = true
no_fields (field k v rest) = false

pub field_get-put :
    (d : Fields) (key : String) (value : Json) (j : String)
    → field_get (field_put d key value) j ≡ (if key == j then some value else field_get d j)
unfolding field_get field_put
field_get-put end key value j = refl
field_get-put (field k v rest) key value j =
    ground (arith, eq_iff key j, eq_iff k key, eq_iff k j, field_get-put rest key value j)

pub field_get-delete :
    (d : Fields) (key j : String)
    → field_get (field_delete d key) j ≡ (if key == j then none else field_get d j)
unfolding field_get field_delete
field_get-delete end key j = ground arith
field_get-delete (field k v rest) key j =
    ground (arith, eq_iff key j, eq_iff k key, eq_iff k j, field_get-delete rest key j)
