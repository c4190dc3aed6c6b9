-- ===== src/Configuration.antt =====
-- App/configuration/Configuration.cpp: the values in the configuration file, a JSON object.
-- `D` is the type of doubles, `of_int` the conversion from an int and `to_int` the one to an int
-- that QJsonValue::toInt makes. The file holds UTF-8 texts.
pub mod Laws
mod Tests
use cwkeyer.Base.{ℕ, Bool, true, false, not, List, [], ◌∷◌, Option, none, some, if◌then◌else◌, ◌==◌}
use cwkeyer.Base.Int.{ℤ, pos}
use cwkeyer.Base.Text.{text_eq}

mutual
  pub data JsonValue (D : Type 0) : Type 0 where
    number : D → JsonValue D
    boolean : Bool → JsonValue D
    text : List ℕ → JsonValue D
    object : JsonObject D → JsonValue D

  pub data JsonObject (D : Type 0) : Type 0 where
    end : JsonObject D
    field : List ℕ → JsonValue D → JsonObject D → JsonObject D

-- What a call does: it returns, it throws std::runtime_error, or it makes a std::string of nullptr.
pub data Result (A : Type 0) : Type 0 where
  returns : A → Result A
  throws : Result A
  undefined : Result A

-- The file: whether it exists and can be opened, and the object in it if it is one.
pub record Disk (D : Type 0) : Type 0 where
  pub present : Bool
  pub readable : Bool
  pub writable : Bool
  pub root : Option (JsonObject D)

unfoldable pub map_result : {A B : Type 0} → (A → Result B) → Result A → Result B
map_result f (returns a) = f a
map_result f throws = throws
map_result f undefined = undefined

-- value.c_str() ends at the first zero.
unfoldable pub c_str : List ℕ → List ℕ
c_str [] = []
c_str (c ∷ s) = let rest = c_str s in if c == 0 then [] else c ∷ rest

module _ {D : Type 0} where
  unfoldable pub find : List ℕ → JsonObject D → Option (JsonValue D)
  find key end = none
  find key (field k v o) = if text_eq k key then some v else find key o

  -- root[key] = value
  unfoldable pub insert : List ℕ → JsonValue D → JsonObject D → JsonObject D
  insert key v end = field key v end
  insert key v (field k w o) =
      let rest = insert key v o in if text_eq k key then field k v o else field k w rest

  -- root.remove(key), of each field with that key.
  unfoldable pub remove : List ℕ → JsonObject D → JsonObject D
  remove key end = end
  remove key (field k w o) =
      let rest = remove key o in if text_eq k key then rest else field k w rest

  -- document.object(), or an empty one.
  unfoldable pub object_of : Option (JsonObject D) → JsonObject D
  object_of none = end
  object_of (some o) = o

  unfoldable pub read_full_json : Disk D → JsonObject D
  unfolding object_of
  read_full_json d = if d.present then (if d.readable then object_of d.root else end) else end

  unfoldable pub write_full_json : JsonObject D → Disk D → Result (Disk D)
  write_full_json o d =
      if not d.writable then throws else returns (record d { present = true; root = some o })

  -- What the getters share: no value if there is no file or no such key.
  unfoldable pub look_up : List ℕ → Disk D → Result (Option (JsonValue D))
  unfolding object_of
  look_up key d =
      if not d.present
      then returns none
      else if not d.readable
      then throws
      else returns (find key (object_of d.root))

  -- getValue
  to_object : Option (JsonValue D) → Option (JsonObject D)
  to_object none = none
  to_object (some (object o)) = some o
  to_object (some _) = some end

  unfoldable pub get_value : List ℕ → Disk D → Result (Option (JsonObject D))
  unfolding to_object
  get_value key d = map_result (λ v. returns (to_object v)) (look_up key d)

  -- hasValue
  is_some : Option (JsonValue D) → Bool
  is_some none = false
  is_some (some v) = true

  unfoldable pub has_value : List ℕ → Disk D → Result Bool
  unfolding is_some
  has_value key d = map_result (λ v. returns (is_some v)) (look_up key d)

  -- getValueBool
  unfoldable pub to_bool : Option (JsonValue D) → Bool
  to_bool (some (boolean b)) = b
  to_bool _ = false

  unfoldable pub get_value_bool : List ℕ → Disk D → Result Bool
  unfolding to_bool
  get_value_bool key d = map_result (λ v. returns (to_bool v)) (look_up key d)

  -- getValueString: without a value, it returns nullptr.
  unfoldable pub to_text : Option (JsonValue D) → Result (List ℕ)
  to_text none = undefined
  to_text (some (text s)) = returns s
  to_text (some _) = returns []

  unfoldable pub get_value_string : List ℕ → Disk D → Result (List ℕ)
  unfolding to_text
  get_value_string key d = map_result to_text (look_up key d)

  -- The put functions and removeValue.
  unfoldable pub put : List ℕ → JsonValue D → Disk D → Result (Disk D)
  unfolding read_full_json write_full_json
  put key v d = write_full_json (insert key v (read_full_json d)) d

  unfoldable pub put_object : List ℕ → JsonObject D → Disk D → Result (Disk D)
  put_object key o d = put key (object o) d

  unfoldable pub put_value_double : List ℕ → D → Disk D → Result (Disk D)
  put_value_double key x d = put key (number x) d

  unfoldable pub put_value_bool : List ℕ → Bool → Disk D → Result (Disk D)
  put_value_bool key b d = put key (boolean b) d

  unfoldable pub put_value_string : List ℕ → List ℕ → Disk D → Result (Disk D)
  put_value_string key s d = put key (text (c_str s)) d

  unfoldable pub remove_value : List ℕ → Disk D → Result (Disk D)
  unfolding read_full_json write_full_json
  remove_value key d = write_full_json (remove key (read_full_json d)) d

module _ {D : Type 0} (of_int : ℤ → D) (to_int : D → ℤ) where
  unfoldable pub put_value_int : List ℕ → ℤ → Disk D → Result (Disk D)
  put_value_int key n d = put key (number (of_int n)) d

  -- getValueInt
  unfoldable pub as_int : Option (JsonValue D) → ℤ
  as_int (some (number x)) = to_int x
  as_int _ = pos 0

  unfoldable pub get_value_int : List ℕ → Disk D → Result ℤ
  unfolding as_int
  get_value_int key d = map_result (λ v. returns (as_int v)) (look_up key d)

  -- getValueDouble
  unfoldable pub as_double : Option (JsonValue D) → D
  as_double (some (number x)) = x
  as_double _ = of_int (pos 0)

  unfoldable pub get_value_double : List ℕ → Disk D → Result D
  unfolding as_double
  get_value_double key d = map_result (λ v. returns (as_double v)) (look_up key d)
