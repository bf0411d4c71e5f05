-- ===== src/Llm/Value.antt =====
-- Go's `any`: the values that the runtime tells apart by a type switch. Go's maps and slices of
-- `any` may be nil. A float64 is kept as its bit pattern, and `other` stands for a value of any
-- further Go type, which the code passes on unread.
use kae_agent_public.Base.{ℕ, ℤ, Bool, String, Option, none, some, ◌==◌, if◌then◌else◌}

mutual
  pub data Value : Type 0 where
    null : Value
    text : String → Value
    bool : Bool → Value
    int int32 int64 : ℤ → Value
    float64 : ℕ → Value
    nil_list : Value
    list : Items → Value
    nil_dict : Value
    dict : Fields → Value
    other : ℕ → Value

  pub data Items : Type 0 where
    done : Items
    item : Value → Items → Items

  pub data Fields : Type 0 where
    end : Fields
    field : String → Value → Fields → Fields

-- `map[string]any`; `none` is the nil map.
abbrev pub AnyMap : Type 0
AnyMap = Option Fields

abbrev pub get_field : String → Fields → Option Value
get_field k end = none
get_field k (field j v fs) = if j == k then some v else get_field k fs

-- `v, ok := m[k]`; a nil map holds no key.
abbrev pub get : String → AnyMap → Option Value
get k none = none
get k (some fs) = get_field k fs
