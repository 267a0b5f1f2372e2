-- ===== src/Tools/Json.antt =====
-- base/io/json/Json.cpp: members of a parsed document. The parser is rapidjson's, and a document is
-- what it hands over: a text is the bytes of the C string that `GetString` points to, up to its NUL.
use rxs_supported.Common.{
  ℕ, ◌^◌, List, [], ◌∷◌, Bool, true, false, ◌&&◌, ltb, ◌==◌, if◌then◌else◌, Option, none, some,
}

-- `negative n` is -(n + 1); `real` is a number that is no integer.
mutual
  pub data Json : Type 0 where
    null real : Json
    bool : Bool → Json
    number negative : ℕ → Json
    text : List ℕ → Json
    array : Items → Json
    object : Members → Json

  pub data Items : Type 0 where
    nil : Items
    item : Json → Items → Items

  pub data Members : Type 0 where
    end : Members
    member : List ℕ → Json → Members → Members

-- Of two C strings.
abbrev pub str_eq : List ℕ → List ℕ → Bool
str_eq [] [] = true
str_eq (x ∷ xs) (y ∷ ys) = x == y && str_eq xs ys
str_eq _ _ = false

-- rapidjson's FindMember: the first member of that name.
unfoldable pub find_member : List ℕ → Members → Option Json
find_member key end = none
find_member key (member name value rest) =
    let found = find_member key rest in if str_eq name key then some value else found

-- FindMember of an object that is not empty, and of nothing else.
abbrev pub find : Json → List ℕ → Option Json
find (object members) key = find_member key members
find _ key = none

abbrev pub is_empty : Json → Bool
is_empty (object end) = true
is_empty (object (member name value rest)) = false
is_empty _ = true

abbrev pub is_object : Json → Bool
is_object (object members) = true
is_object _ = false

unfoldable pub get_value : Json → List ℕ → Json
get_value obj key =
    if is_empty obj then null else elim (find obj key) [ none ↦ null | some value ↦ value ]

abbrev as_text : Json → Option (List ℕ)
as_text (text t) = some t
as_text _ = none

-- A null pointer is `none`.
unfoldable pub get_string : Json → List ℕ → Option (List ℕ)
get_string obj key =
    if is_empty obj then none else elim (find obj key) [ none ↦ none | some value ↦ as_text value ]

abbrev only_object : Json → Json
only_object (object members) = object members
only_object _ = null

unfoldable pub get_object : Json → List ℕ → Json
get_object obj key =
    if is_empty obj then null else elim (find obj key) [ none ↦ null | some v ↦ only_object v ]

abbrev only_array : Json → Json
only_array (array items) = array items
only_array _ = null

unfoldable pub get_array : Json → List ℕ → Json
get_array obj key =
    if is_empty obj then null else elim (find obj key) [ none ↦ null | some v ↦ only_array v ]

abbrev as_bool : Bool → Json → Bool
as_bool default (bool b) = b
as_bool default _ = default

unfoldable pub get_bool : Json → List ℕ → Bool → Bool
get_bool obj key default =
    if is_empty obj
    then default
    else elim (find obj key) [ none ↦ default | some value ↦ as_bool default value ]

abbrev as_uint : ℕ → ℕ → Json → ℕ
as_uint bound default (number n) = if ltb n bound then n else default
as_uint bound default _ = default

unfoldable pub get_uint64 : Json → List ℕ → ℕ → ℕ
get_uint64 obj key default =
    if is_empty obj
    then default
    else elim (find obj key) [ none ↦ default | some value ↦ as_uint (2 ^ 64) default value ]

unfoldable pub get_uint : Json → List ℕ → ℕ → ℕ
get_uint obj key default =
    if is_empty obj
    then default
    else elim (find obj key) [ none ↦ default | some value ↦ as_uint (2 ^ 32) default value ]

-- An int64_t; `below n` is -(n + 1).
pub data Integer : Type 0 where
  exactly below : ℕ → Integer

-- IsInt64 and GetInt64.
unfoldable pub int64 : Json → Option Integer
int64 (number n) = if ltb n (2 ^ 63) then some (exactly n) else none
int64 (negative n) = if ltb n (2 ^ 63) then some (below n) else none
int64 _ = none
