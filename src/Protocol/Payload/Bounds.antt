-- ===== src/Protocol/Payload/Bounds.antt =====
-- `_validate_json_value` of src/devloop/portable_protocol.py, and the bounds that it guarantees.
use devloop.Protocol.Payload.{text_length}
use devloop.Protocol.{
  oversized_list, oversized_object, max_collection_items, not_finite, oversized_text,
  max_text_characters, too_deep, ProtocolError,
}
use devloop.Prelude.{
  raise_if-eq-ok, >>=-eq-ok, false, arith, if◌then◌else◌, ◌≤◌, ◌≡◌, ◌+◌, guard, ok, ◌>>=◌, ltb,
  raise_if, Result, length, ℕ, Bool, String,
}
use devloop.Json.{
  no_fields, no_items, null_value, items, JsonItems, fields, item_list, array_value, object_value,
  float_value, int_value, bool_value, text_value, field_names, Json, JsonFields,
}

abbrev pub count_fields : JsonFields → ℕ
count_fields object = length (field_names object)

abbrev pub check_depth : ℕ → Result ProtocolError Unit
check_depth depth = raise_if (ltb 12 depth) too_deep

unfoldable mutual
  -- `_validate_json_value(value, depth=depth)`, with the test `math.isfinite` on a float.
  pub validate_json_value : (String → Bool) → ℕ → Json → Result ProtocolError Unit
  validate_json_value finite depth (text_value text) = check_depth depth >>= λ _.
      raise_if (ltb max_text_characters (text_length text)) oversized_text
  validate_json_value finite depth null_value = check_depth depth
  validate_json_value finite depth (bool_value _) = check_depth depth
  validate_json_value finite depth (int_value _) = check_depth depth
  validate_json_value finite depth (float_value text) =
      check_depth depth >>= λ _. guard (finite text) not_finite
  validate_json_value finite depth (object_value object) = check_depth depth >>= λ _.
      raise_if (ltb max_collection_items (count_fields object)) oversized_object >>= λ _.
      validate_members finite depth object
  validate_json_value finite depth (array_value values) = check_depth depth >>= λ _.
      raise_if (ltb max_collection_items (length (item_list values))) oversized_list >>= λ _.
      validate_items finite depth values

  -- The loop over the members of an object.
  pub validate_members : (String → Bool) → ℕ → JsonFields → Result ProtocolError Unit
  validate_members finite depth no_fields = ok tt
  validate_members finite depth (fields name value rest) =
      validate_json_value finite (depth + 1) value >>= λ _. validate_members finite depth rest

  -- The loop over the members of a list.
  pub validate_items : (String → Bool) → ℕ → JsonItems → Result ProtocolError Unit
  validate_items finite depth no_items = ok tt
  validate_items finite depth (items value rest) =
      validate_json_value finite (depth + 1) value >>= λ _. validate_items finite depth rest

abbrev pub max_ℕ : ℕ → ℕ → ℕ
max_ℕ a b = if ltb a b then b else a

-- How deep a value is nested; a text or a number is not, and a collection is one deeper than its
-- deepest member.
unfoldable mutual
  pub nesting : Json → ℕ
  nesting (object_value object) = nesting_members object
  nesting (array_value values) = nesting_items values
  nesting _ = 0

  pub nesting_members : JsonFields → ℕ
  nesting_members no_fields = 0
  nesting_members (fields name value rest) = max_ℕ (nesting value + 1) (nesting_members rest)

  pub nesting_items : JsonItems → ℕ
  nesting_items no_items = 0
  nesting_items (items value rest) = max_ℕ (nesting value + 1) (nesting_items rest)

-- The length of the longest text of a value.
unfoldable mutual
  pub longest : Json → ℕ
  longest (text_value text) = text_length text
  longest (object_value object) = longest_members object
  longest (array_value values) = longest_items values
  longest _ = 0

  pub longest_members : JsonFields → ℕ
  longest_members no_fields = 0
  longest_members (fields name value rest) = max_ℕ (longest value) (longest_members rest)

  pub longest_items : JsonItems → ℕ
  longest_items no_items = 0
  longest_items (items value rest) = max_ℕ (longest value) (longest_items rest)

-- The size of the largest collection of a value.
unfoldable mutual
  pub widest : Json → ℕ
  widest (object_value object) = max_ℕ (count_fields object) (widest_members object)
  widest (array_value values) = max_ℕ (length (item_list values)) (widest_items values)
  widest _ = 0

  pub widest_members : JsonFields → ℕ
  widest_members no_fields = 0
  widest_members (fields name value rest) = max_ℕ (widest value) (widest_members rest)

  pub widest_items : JsonItems → ℕ
  widest_items no_items = 0
  widest_items (items value rest) = max_ℕ (widest value) (widest_items rest)

abbrev Within : ℕ → ℕ → ℕ → ℕ → Type 0
Within depth deep long wide = (depth + deep ≤ 12) × (long ≤ 8192) × (wide ≤ 200)

not_ltb : (a b : ℕ) → ltb a b ≡ false → b ≤ a
not_ltb a b h = ground arith

max_le : (a b c : ℕ) → a ≤ c → b ≤ c → max_ℕ a b ≤ c
max_le a b c h k = ground arith

add_max_le : (depth a b : ℕ) → depth + 1 + a ≤ 12 → depth + b ≤ 12 → depth + max_ℕ (a + 1) b ≤ 12
add_max_le depth a b h k = ground arith

mutual
  unfolding validate_json_value nesting longest widest

  within :
      (finite : String → Bool) (depth : ℕ) (value : Json)
      → validate_json_value finite depth value ≡ ok tt
      → Within depth (nesting value) (longest value) (widest value)
  within finite depth (text_value text) h = ground arith
  within finite depth null_value h = ground arith
  within finite depth (bool_value b) h = ground arith
  within finite depth (int_value n) h = ground arith
  within finite depth (float_value text) h = ground arith
  within finite depth (object_value object) h =
      let (_, shallow, h1) = >>=-eq-ok (check_depth depth) _ h in
      let (_, narrow, h2) =
        >>=-eq-ok (raise_if (ltb max_collection_items (count_fields object)) oversized_object) _
          h1 in
      let deep : depth ≤ 12 = not_ltb 12 depth (raise_if-eq-ok (ltb 12 depth) too_deep shallow) in
      let wide : count_fields object ≤ 200 =
        not_ltb 200 (count_fields object)
          (raise_if-eq-ok (ltb 200 (count_fields object)) oversized_object narrow) in
      let (a, b, c) = members-Within finite depth object h2 deep in (a, b, max_le _ _ 200 wide c)
  within finite depth (array_value values) h =
      let (_, shallow, h1) = >>=-eq-ok (check_depth depth) _ h in
      let (_, narrow, h2) =
        >>=-eq-ok (raise_if (ltb max_collection_items (length (item_list values))) oversized_list) _
          h1 in
      let deep : depth ≤ 12 = not_ltb 12 depth (raise_if-eq-ok (ltb 12 depth) too_deep shallow) in
      let wide : length (item_list values) ≤ 200 =
        not_ltb 200 (length (item_list values))
          (raise_if-eq-ok (ltb 200 (length (item_list values))) oversized_list narrow) in
      let (a, b, c) = items-Within finite depth values h2 deep in (a, b, max_le _ _ 200 wide c)

  members-Within :
      (finite : String → Bool) (depth : ℕ) (object : JsonFields)
      → validate_members finite depth object ≡ ok tt
      → depth ≤ 12
      → Within depth (nesting_members object) (longest_members object) (widest_members object)
  members-Within finite depth no_fields h d = ground arith
  members-Within finite depth (fields name value rest) h d =
      let (_, first, later) = >>=-eq-ok (validate_json_value finite (depth + 1) value) _ h in
      let (a, b, c) = within finite (depth + 1) value first in
      let (a', b', c') = members-Within finite depth rest later d in
      (add_max_le depth _ _ a a', max_le _ _ 8192 b b', max_le _ _ 200 c c')

  items-Within :
      (finite : String → Bool) (depth : ℕ) (values : JsonItems)
      → validate_items finite depth values ≡ ok tt
      → depth ≤ 12
      → Within depth (nesting_items values) (longest_items values) (widest_items values)
  items-Within finite depth no_items h d = ground arith
  items-Within finite depth (items value rest) h d =
      let (_, first, later) = >>=-eq-ok (validate_json_value finite (depth + 1) value) _ h in
      let (a, b, c) = within finite (depth + 1) value first in
      let (a', b', c') = items-Within finite depth rest later d in
      (add_max_le depth _ _ a a', max_le _ _ 8192 b b', max_le _ _ 200 c c')

-- A payload that is accepted is nested at most 12 deep, each of its texts has at most 8192
-- characters, and each of its objects and lists at most 200 members.
pub validate_json_value_bounds :
    (finite : String → Bool) (value : Json)
    → validate_json_value finite 0 value ≡ ok tt
    → (nesting value ≤ 12) × (longest value ≤ 8192) × (widest value ≤ 200)
validate_json_value_bounds finite value h = omega (arith, within finite 0 value h)
