-- ===== src/Unafs/Query.antt =====
-- libs/unafs/src/query.rs: queries, and their syntax.
pub mod Values
pub mod Written
use una_os.Prelude.{ℕ, zero, suc, ◌+◌, ◌-◌, ◌*◌, ◌^◌, List, [], ◌∷◌, ◌++◌, Option, none, some, Bool}
use una_os.Prelude.{true, false, not, ◌&&◌, ◌||◌, ltb, leb, ◌==◌, if◌then◌else◌}
use una_os.Prelude.{length, take, drop, slice}
use una_os.Prelude.Text.{Text}
use una_os.Prelude.Text.Scan.{trim, starts_with, ends_with_byte, find, split, is_empty}
use una_os.Prelude.Checked.{Checked, panicked, failed, parsed, ◌>>=◌}
use una_os.Unafs.Inode.{AttributeValue, int, float, string, blob, vector}

-- The threshold of a similarity query is the bit pattern of an `f32`.
pub data QueryOp : Type 0 where
  equal : QueryOp
  unequal : QueryOp
  greater : QueryOp
  less : QueryOp
  similarity_gt : ℕ → QueryOp

pub record Query : Type 0 where
  pub key : Text
  pub op : QueryOp
  pub value : AttributeValue
  pub secondary_filters : List (Text × Text)

-- The messages of the source.
pub data QueryError : Type 0 where
  invalid_syntax : QueryError
  secondary_operator : Text → QueryError
  invalid_number : QueryError
  similarity_operator : QueryError
  invalid_threshold : QueryError
  malformed_call : QueryError
  missing_comma : QueryError
  not_a_vector : QueryError

abbrev pub Answer : Type 0 → Type 0
Answer A = Checked QueryError A

-- `parse::<f32>`, and `f as f64`, on bit patterns.
pub record FloatSyntax : Type 0 where
  pub parse_f32 : Text → Option ℕ
  pub widen : ℕ → ℕ

abbrev pub quote : ℕ
quote = 0x22

-- `&input[1..input.len() - 1]`, which panics on a text of one byte.
unfoldable pub inner : Text → Answer Text
inner input = if leb 2 (length input) then parsed (slice input 1 (length input - 2)) else panicked

pub is_quoted : Text → Bool
is_quoted input = starts_with (quote ∷ []) input && ends_with_byte quote input

-- The decimal digits of a number, if there is nothing else.
pub digits : ℕ → Text → Option ℕ
digits acc [] = some acc
digits acc (b ∷ bs) =
    let rest = digits (acc * 10 + (b - 0x30)) bs in if leb 0x30 b && leb b 0x39 then rest else none

abbrev below : ℕ → Option ℕ → Option ℕ
below limit none = none
below limit (some n) = if ltb n limit then some n else none

pub number : Text → Option ℕ
unfolding digits
number [] = none
number (b ∷ bs) = digits 0 (b ∷ bs)

abbrev negated : Option ℕ → Option ℕ
negated none = none
negated (some zero) = some 0
negated (some (suc n)) = some (2 ^ 64 - suc n)

-- `parse::<i64>`: a sign and digits, as a bit pattern.
pub parse_i64 : Text → Option ℕ
unfolding number
parse_i64 [] = none
parse_i64 (b ∷ bs) =
    if b == 0x2d
    then negated (below (2 ^ 63 + 1) (number bs))
    else if b == 0x2b
    then below (2 ^ 63) (number bs)
    else below (2 ^ 63) (number (b ∷ bs))

-- "similarity("
abbrev pub similarity : Text
similarity = 0x73 ∷ 0x69 ∷ 0x6d ∷ 0x69 ∷ 0x6c ∷ 0x61 ∷ 0x72 ∷ 0x69 ∷ 0x74 ∷ 0x79 ∷ 0x28 ∷ []

as_vector : Text → ℕ → AttributeValue → Answer Query
as_vector key threshold (vector v) =
    parsed
      (record { key = key; op = similarity_gt threshold; value = vector v; secondary_filters = [] })
as_vector key threshold _ = failed not_a_vector

-- `lhs["similarity(".len()..lhs.len() - 1]`
arguments : Text → Answer Text
arguments lhs =
    if not (ends_with_byte 0x29 lhs)
    then failed malformed_call
    else if leb 12 (length lhs)
    then parsed (slice lhs 11 (length lhs - 12))
    else panicked

-- The operators in the order in which they are tried.
abbrev pub operators : List (Text × QueryOp)
operators =
    (0x3d ∷ 0x3d ∷ [], equal)
    ∷ (0x21 ∷ 0x3d ∷ [], unequal)
    ∷ (0x3e ∷ [], greater)
    ∷ (0x3c ∷ [], less)
    ∷ []

pub parse_filters : List Text → Answer (List (Text × Text))
unfolding is_quoted inner
parse_filters [] = parsed []
parse_filters (part ∷ parts) =
    let filter = trim part in
    elim (find (0x3d ∷ 0x3d ∷ []) filter) [
      | none ↦ failed (secondary_operator filter)
      | some idx ↦ do
        let val = trim (drop (idx + 2) filter)
        val ← (if is_quoted val then inner val else parsed val)
        rest ← parse_filters parts
        parsed ((trim (take idx filter), val) ∷ rest)
    ]

-- " AND "
abbrev pub and_word : Text
and_word = 0x20 ∷ 0x41 ∷ 0x4e ∷ 0x44 ∷ 0x20 ∷ []

module _ (floats : FloatSyntax) where
  open floats use {parse_f32, widen}

  parse_vector : List Text → Answer (List ℕ)
  parse_vector [] = parsed []
  parse_vector (p ∷ ps) = elim (parse_f32 (trim p)) [
    | none ↦ failed invalid_number
    | some f ↦ do fs ← parse_vector ps; parsed (f ∷ fs)
  ]

  -- What is neither quoted nor in brackets.
  parse_word : Text → AttributeValue
  unfolding parse_i64
  parse_word input = elim (parse_i64 input) [
    | some i ↦ int i
    | none ↦ elim (parse_f32 input) [ some f ↦ float (widen f) | none ↦ string input ]
  ]

  -- `parse_value` after the text is trimmed.
  pub parse_trimmed : Text → Answer AttributeValue
  unfolding is_quoted parse_vector parse_word inner
  parse_trimmed input =
      if is_quoted input
      then inner input >>= (λ s. parsed (string s))
      else if starts_with (0x5b ∷ []) input && ends_with_byte 0x5d input
      then inner input >>= (λ s. parse_vector (split (0x2c ∷ []) s) >>= (λ v. parsed (vector v)))
      else parsed (parse_word input)

  unfoldable pub parse_value : Text → Answer AttributeValue
  unfolding parse_trimmed
  parse_value input = parse_trimmed (trim input)

  similarity_of : List Text → Answer Query
  unfolding as_vector arguments parse_value
  similarity_of (lhs ∷ rhs ∷ []) = elim (parse_f32 (trim rhs)) [
    | none ↦ failed invalid_threshold
    | some threshold ↦ do
      args ← arguments (trim lhs)
      elim (find (0x2c ∷ []) args) [
        | none ↦ failed missing_comma
        | some comma ↦ do
          value ← parse_value (trim (drop (comma + 1) args))
          as_vector (trim (take comma args)) threshold value
      ]
  ]
  similarity_of _ = failed similarity_operator

  pub parse_similarity : Text → Answer Query
  unfolding similarity_of
  parse_similarity input = similarity_of (split (0x3e ∷ []) input)

  pub by_operator : List (Text × QueryOp) → Text → Answer Query
  unfolding parse_value
  by_operator [] input = failed invalid_syntax
  by_operator ((op, query_op) ∷ ops) input = elim (find op input) [
    | none ↦ by_operator ops input
    | some idx ↦ do
      value ← parse_value (trim (drop (idx + length op) input))
      parsed (record {
        key = trim (take idx input);
        op = query_op;
        value = value;
        secondary_filters = [];
      })
  ]

  pub parse_primary : Text → Answer Query
  unfolding parse_similarity by_operator
  parse_primary input =
      if starts_with similarity input then parse_similarity input else by_operator operators input

  parse_parts : List Text → Answer Query
  unfolding parse_primary parse_filters
  parse_parts [] = failed invalid_syntax
  parse_parts (part ∷ parts) = do
    q ← parse_primary (trim part)
    filters ← parse_filters parts
    parsed (record q { secondary_filters = filters })

  unfoldable pub parse : Text → Answer Query
  unfolding parse_parts
  parse input = parse_parts (split and_word (trim input))
