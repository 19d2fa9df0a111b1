-- ===== src/Unafs/Fs/Search.antt =====
-- libs/unafs/src/fs.rs: the query engine. The arithmetic of floats is a parameter, on bit patterns.
pub mod Candidates
pub mod Hits
use Prim.Native.Nat.{compare, Ordering}
use una_os.Prelude.{
  ℕ, zero, suc, ◌+◌, ◌-◌, ◌*◌, ◌/◌, ◌%◌, ◌^◌, List, [], ◌∷◌, ◌++◌, Option, none, some,
}
use una_os.Prelude.{Bool, true, false, not, ◌&&◌, ◌||◌, ltb, leb, ◌==◌, if◌then◌else◌, length}
use una_os.Prelude.Text.{Text, text_eq, text_lt}
use una_os.Prelude.Map
use una_os.Prelude.Map.{Map}
use una_os.Prelude.Outcome.{Outcome}
use una_os.Prelude.Checked.{Checked}
use una_os.Prelude.Exec.{Result, err, ◌>>=◌, ◌>>◌, pure, gets}
use una_os.Unafs.Storage.{BlockDevice}
use una_os.Unafs.Hash.{hash_bytes}
use una_os.Unafs.Inode.{Inode, ExtentList, AttributeValue, int, float, string, blob, vector}
use una_os.Unafs.Catalog
use una_os.Unafs.Catalog.{CatalogEntry, hash_value}
use una_os.Unafs.Query.{QueryOp, Query, equal, unequal, greater, less, similarity_gt}
use una_os.Unafs.Query.{FloatSyntax, parse}
use una_os.Unafs.Fs.{
  FileSystemError, query as query_error, serialization, UnaFs, Codecs, Fs, read_inode,
}
use una_os.Unafs.Fs.Data.{read_data, read_from_extents}
use una_os.Unafs.Fs.Dirs.{or_error}
use una_os.Unafs.Fs.Attributes.{total_length}

pub record Floats : Type 0 where
  pub zero32 : ℕ
  pub one32 : ℕ
  pub add32 : ℕ → ℕ → ℕ
  pub mul32 : ℕ → ℕ → ℕ
  pub div32 : ℕ → ℕ → ℕ
  pub sqrt32 : ℕ → ℕ
  pub eq32 : ℕ → ℕ → Bool
  pub gt32 : ℕ → ℕ → Bool
  pub eq64 : ℕ → ℕ → Bool
  pub cmp64 : ℕ → ℕ → Option Ordering

-- `i1.partial_cmp(i2)` on the bit patterns of two `i64`.
pub cmp_i64 : ℕ → ℕ → Ordering
cmp_i64 a b = compare ((a + 2 ^ 63) % 2 ^ 64) ((b + 2 ^ 63) % 2 ^ 64)

pub cmp_text : Text → Text → Ordering
cmp_text a b = if text_eq a b then Ordering.eq else if text_lt a b then Ordering.lt else Ordering.gt

abbrev is_gt : Option Ordering → Bool
is_gt (some Ordering.gt) = true
is_gt _ = false

abbrev is_lt : Option Ordering → Bool
is_lt (some Ordering.lt) = true
is_lt _ = false

module _ (floats : Floats) where
  open floats use {zero32, one32, add32, mul32, div32, sqrt32, eq32, gt32, eq64, cmp64}

  -- `a.iter().zip(b).map(|(x, y)| x * y).sum()`
  sum_products : ℕ → List ℕ → List ℕ → ℕ
  sum_products acc [] ys = acc
  sum_products acc (x ∷ xs) [] = acc
  sum_products acc (x ∷ xs) (y ∷ ys) = sum_products (add32 acc (mul32 x y)) xs ys

  pub cosine_similarity : List ℕ → List ℕ → ℕ
  unfolding sum_products
  cosine_similarity a b =
      if not (length a == length b)
      then zero32
      else (let dot = sum_products zero32 a b in
          let mag_a = sqrt32 (sum_products zero32 a a) in
          let mag_b = sqrt32 (sum_products zero32 b b) in
          if eq32 mag_a zero32 || eq32 mag_b zero32 then zero32 else div32 dot (mul32 mag_a mag_b))

  floats_equal : List ℕ → List ℕ → Bool
  floats_equal [] [] = true
  floats_equal [] (y ∷ ys) = false
  floats_equal (x ∷ xs) [] = false
  floats_equal (x ∷ xs) (y ∷ ys) = eq32 x y && floats_equal xs ys

  -- The derived `PartialEq` of AttributeValue.
  pub values_equal : AttributeValue → AttributeValue → Bool
  unfolding floats_equal
  values_equal (int a) (int b) = a == b
  values_equal (float a) (float b) = eq64 a b
  values_equal (string a) (string b) = text_eq a b
  values_equal (blob a) (blob b) = text_eq a b
  values_equal (vector a) (vector b) = floats_equal a b
  values_equal _ _ = false

  pub partial_cmp_attr : AttributeValue → AttributeValue → Option Ordering
  unfolding cmp_i64 cmp_text
  partial_cmp_attr (int a) (int b) = some (cmp_i64 a b)
  partial_cmp_attr (float a) (float b) = cmp64 a b
  partial_cmp_attr (string a) (string b) = some (cmp_text a b)
  partial_cmp_attr _ _ = none

  similar_enough : ℕ → AttributeValue → AttributeValue → Option ℕ
  unfolding cosine_similarity
  similar_enough threshold (vector a) (vector b) =
      let score = cosine_similarity a b in if gt32 score threshold then some score else none
  similar_enough threshold _ _ = none

  -- The score of a value that meets the condition.
  pub check_condition : AttributeValue → QueryOp → AttributeValue → Option ℕ
  unfolding values_equal partial_cmp_attr similar_enough
  check_condition val equal target = if values_equal val target then some one32 else none
  check_condition val unequal target = if not (values_equal val target) then some one32 else none
  check_condition val greater target =
      if is_gt (partial_cmp_attr val target) then some one32 else none
  check_condition val less target = if is_lt (partial_cmp_attr val target) then some one32 else none
  check_condition val (similarity_gt threshold) target = similar_enough threshold val target

  -- `pass_secondary`: every filter finds a string with its value.
  pub is_string : Option AttributeValue → Text → Bool
  is_string (some (string s)) wanted = text_eq s wanted
  is_string _ wanted = false

  pub passes : Map AttributeValue → List (Text × Text) → Bool
  unfolding is_string
  passes attributes [] = true
  passes attributes ((key, wanted) ∷ filters) =
      is_string (Map.get key attributes) wanted && passes attributes filters

  -- What is pushed for an inode with the value, if there is one.
  pub scored : Query → Inode → Option AttributeValue → List (Inode × ℕ)
  unfolding check_condition passes
  scored q node none = []
  scored q node (some val) = elim (check_condition val q.op q.value) [
    | none ↦ []
    | some score ↦ if passes node.attributes q.secondary_filters then (node, score) ∷ [] else []
  ]

-- `target_val_hash`, which only an equality has.
pub value_hash : Query → Option ℕ
value_hash q = elim q.op [ equal ↦ some (hash_value q.value) | _ ↦ none ]

abbrev pub same_hash : Option ℕ → ℕ → Bool
same_hash none hash = true
same_hash (some wanted) hash = hash == wanted

pub matching : ℕ → Option ℕ → List CatalogEntry → List ℕ
matching key_hash val_hash [] = []
matching key_hash val_hash (e ∷ es) =
    let rest = matching key_hash val_hash es in
    if e.key_hash == key_hash && same_hash val_hash e.val_hash then e.inode_id ∷ rest else rest

-- `candidates.sort()`
pub insert_id : ℕ → List ℕ → List ℕ
insert_id x [] = x ∷ []
insert_id x (y ∷ ys) = let rest = insert_id x ys in if leb x y then x ∷ y ∷ ys else y ∷ rest

pub sort_ids : List ℕ → List ℕ
unfolding insert_id
sort_ids [] = []
sort_ids (x ∷ xs) = insert_id x (sort_ids xs)

-- `candidates.dedup()`: an element equal to the one before it is dropped.
pub dedup_after : ℕ → List ℕ → List ℕ
dedup_after last [] = []
dedup_after last (x ∷ xs) = let rest = dedup_after x xs in if last == x then rest else x ∷ rest

pub dedup : List ℕ → List ℕ
unfolding dedup_after
dedup [] = []
dedup (x ∷ xs) = x ∷ dedup_after x xs

pub candidates : Query → List CatalogEntry → List ℕ
unfolding value_hash matching sort_ids dedup
candidates q entries = dedup (sort_ids (matching (hash_bytes q.key) (value_hash q) entries))

module _ {D : Type 0} ⦃dev : BlockDevice D⦄ (c : Codecs) (floats : Floats) where
  -- A large value that does not deserialise is passed over.
  pub value_of : Inode → Text → Fs D (Option AttributeValue)
  value_of node key = elim (Map.get key node.attributes) [
    | some v ↦ pure (some v)
    | none ↦ elim (Map.get key node.large_attributes) [
      | none ↦ pure none
      | some extents ↦ do
        bytes ← read_from_extents c extents 0 (total_length extents) (total_length extents)
        pure (c.attribute.deserialize bytes)
    ]
  ]

  pub query_loop : Query → List ℕ → Fs D (List (Inode × ℕ))
  unfolding value_of scored
  query_loop q [] = pure []
  query_loop q (id ∷ ids) = do
    node ← read_inode c id
    val ← value_of node q.key
    rest ← query_loop q ids
    pure (scored floats q node val ++ rest)

  -- `query`, from the parsed query on.
  pub run_query : Query → Fs D (List (Inode × ℕ))
  unfolding candidates query_loop
  run_query q = do
    catalog_id ← gets (λ s. s.superblock.catalog_inode)
    ids ←
        (if catalog_id == 0 then pure [] else (do
          node ← read_inode c catalog_id
          bytes ← read_data c catalog_id 0 node.size
          entries ← or_error serialization (Catalog.deserialize_catalog c.catalog bytes)
          pure (candidates q entries)))
    query_loop q ids

  -- A query that does not parse is an error; one on which the parser panics takes the caller with it.
  unfoldable pub query :
      FloatSyntax → Text → UnaFs D → Outcome (Result FileSystemError (List (Inode × ℕ)) × UnaFs D)
  unfolding run_query
  query syntax query_str s = elim (parse syntax query_str) [
    | Checked.panicked ↦ Outcome.panicked
    | Checked.failed e ↦ Outcome.returned (err (query_error e), s)
    | Checked.parsed q ↦ Outcome.returned (run_query q s)
  ]
