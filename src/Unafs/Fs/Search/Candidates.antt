-- ===== src/Unafs/Fs/Search/Candidates.antt =====
-- libs/unafs/src/fs.rs, query: which inodes the catalog offers, and in which order.
use una_os.Prelude.{ℕ, ◌<◌, ◌≤◌, ◌≡◌, refl, ap, ◌∙◌, arith, inl, inr, List, [], ◌∷◌}
use una_os.Prelude.{Bool, false, ◌&&◌, ◌||◌, ◌==◌}
use una_os.Prelude.{Bool-cases}
use una_os.Unafs.Hash.{hash_bytes}
use una_os.Unafs.Catalog.{CatalogEntry, hash_value}
use una_os.Unafs.Query.{QueryOp, Query, equal, unequal, greater, less, similarity_gt}
use una_os.Unafs.Fs.Search.{
  same_hash, value_hash, matching, insert_id, sort_ids, dedup_after, dedup,
}
use una_os.Unafs.Fs.Search.{candidates}

abbrev pub contains : ℕ → List ℕ → Bool
contains x [] = false
contains x (y ∷ ys) = x == y || contains x ys

-- Whether the hashes of an entry are those that the query asks for: an equality asks for the hash of
-- its value too, any other comparison only for that of the key.
abbrev pub asked : QueryOp → Query → CatalogEntry → Bool
asked equal q e = e.key_hash == hash_bytes q.key && e.val_hash == hash_value q.value
asked unequal q e = e.key_hash == hash_bytes q.key
asked greater q e = e.key_hash == hash_bytes q.key
asked less q e = e.key_hash == hash_bytes q.key
asked (similarity_gt bound) q e = e.key_hash == hash_bytes q.key

-- Whether an entry of the catalog offers the inode.
abbrev pub offered : ℕ → Query → List CatalogEntry → Bool
offered x q [] = false
offered x q (e ∷ es) = (asked q.op q e && x == e.inode_id) || offered x q es

-- In increasing order, each number once.
abbrev pub Above : ℕ → List ℕ → Type 0
Above x [] = Unit {0}
Above x (y ∷ ys) = (x < y) × Above y ys

abbrev pub IsIncreasing : List ℕ → Type 0
IsIncreasing [] = Unit {0}
IsIncreasing (x ∷ xs) = Above x xs

-- In order, where a number may stand more than once.
abbrev AtLeast : ℕ → List ℕ → Type 0
AtLeast x [] = Unit {0}
AtLeast x (y ∷ ys) = (x ≤ y) × AtLeast y ys

abbrev IsOrdered : List ℕ → Type 0
IsOrdered [] = Unit {0}
IsOrdered (x ∷ xs) = AtLeast x xs

asked-matching :
    (op : QueryOp) (q : Query) (e : CatalogEntry)
    → q.op ≡ op
    → (e.key_hash == hash_bytes q.key && same_hash (value_hash q) e.val_hash) ≡ asked op q e
unfolding value_hash
asked-matching equal q e h = rw (h, value_hash) refl
asked-matching unequal q e h = rw (h, value_hash) (ground arith)
asked-matching greater q e h = rw (h, value_hash) (ground arith)
asked-matching less q e h = rw (h, value_hash) (ground arith)
asked-matching (similarity_gt bound) q e h = rw (h, value_hash) (ground arith)

contains-matching :
    (x : ℕ) (q : Query) (es : List CatalogEntry)
    → contains x (matching (hash_bytes q.key) (value_hash q) es) ≡ offered x q es
unfolding matching
contains-matching x q [] = refl
contains-matching x q (e ∷ es) =
    let same = asked-matching q.op q e refl in
    elim (Bool-cases (asked q.op q e)) [
      | inl fits ↦
          rw (same, fits, matching) (ap (λ t. x == e.inode_id || t) (contains-matching x q es))
      | inr other ↦ rw (same, other, matching) (contains-matching x q es)
    ]

contains-insert_id :
    (x y : ℕ) (ys : List ℕ) → contains x (insert_id y ys) ≡ (x == y || contains x ys)
unfolding insert_id
contains-insert_id x y [] = refl
contains-insert_id x y (z ∷ ys) = ground (arith, contains-insert_id x y ys)

contains-sort_ids : (x : ℕ) (xs : List ℕ) → contains x (sort_ids xs) ≡ contains x xs
unfolding sort_ids
contains-sort_ids x [] = refl
contains-sort_ids x (y ∷ ys) =
    contains-insert_id x y (sort_ids ys) ∙ ap (λ t. x == y || t) (contains-sort_ids x ys)

insert_id-AtLeast : (x y : ℕ) (ys : List ℕ) → x ≤ y → AtLeast x ys → AtLeast x (insert_id y ys)
unfolding insert_id
insert_id-AtLeast x y [] h k = (h, tt)
insert_id-AtLeast x y (z ∷ ys) h k = ground (arith, insert_id-AtLeast z y ys)

insert_id-IsOrdered : (y : ℕ) (ys : List ℕ) → IsOrdered ys → IsOrdered (insert_id y ys)
unfolding insert_id
insert_id-IsOrdered y [] h = tt
insert_id-IsOrdered y (z ∷ ys) h = ground (arith, insert_id-AtLeast z y ys)

sort_ids-IsOrdered : (xs : List ℕ) → IsOrdered (sort_ids xs)
unfolding sort_ids
sort_ids-IsOrdered [] = tt
sort_ids-IsOrdered (x ∷ xs) = insert_id-IsOrdered x (sort_ids xs) (sort_ids-IsOrdered xs)

contains-dedup_after :
    (x last : ℕ) (xs : List ℕ)
    → (x == last || contains x (dedup_after last xs)) ≡ (x == last || contains x xs)
unfolding dedup_after
contains-dedup_after x last [] = refl
contains-dedup_after x last (y ∷ ys) = ground (arith, contains-dedup_after x y ys)

dedup_after-Above : (last : ℕ) (xs : List ℕ) → AtLeast last xs → Above last (dedup_after last xs)
unfolding dedup_after
dedup_after-Above last [] h = tt
dedup_after-Above last (y ∷ ys) h = ground (arith, dedup_after-Above y ys h.1)

contains-dedup : (x : ℕ) (xs : List ℕ) → contains x (dedup xs) ≡ contains x xs
unfolding dedup
contains-dedup x [] = refl
contains-dedup x (y ∷ ys) = contains-dedup_after x y ys

dedup-IsIncreasing : (xs : List ℕ) → IsOrdered xs → IsIncreasing (dedup xs)
unfolding dedup
dedup-IsIncreasing [] h = tt
dedup-IsIncreasing (y ∷ ys) h = dedup_after-Above y ys h

-- The candidates of a query are exactly the inodes of the entries whose key hash is that of the
-- query's key and, for an equality, whose value hash is that of its value. They come in increasing
-- order, each once, whatever the order and the repetitions of the catalog.
pub candidates-exact :
    (q : Query) (entries : List CatalogEntry)
    → ((x : ℕ) → contains x (candidates q entries) ≡ offered x q entries)
      × IsIncreasing (candidates q entries)
unfolding candidates
candidates-exact q entries =
    let found = matching (hash_bytes q.key) (value_hash q) entries in
    (
      λ x.
          contains-dedup x (sort_ids found)
          ∙ contains-sort_ids x found
          ∙ contains-matching x q entries,
      dedup-IsIncreasing (sort_ids found) (sort_ids-IsOrdered found),
    )
