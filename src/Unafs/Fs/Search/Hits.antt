-- ===== src/Unafs/Fs/Search/Hits.antt =====
-- libs/unafs/src/fs.rs, query: its result against a filter over the candidates.
use una_os.Prelude.{ℕ, ◌≡◌, ◌≢◌, refl, arith, List, [], ◌∷◌, ◌++◌, Option, none, some}
use una_os.Prelude.{All, ◌==◌, true, false, ◌↔◌, inl, inr, ap, sym, ◌∙◌}
use una_os.Prelude.{Option-cases, Bool-cases, and_left, and_right}
use mathlib.Core.Path.{subst}
use una_os.Prelude.Text.{Text, text_eq→eq, text_eq_refl}
use una_os.Prelude.Members.{In, In-append}
use una_os.Prelude.Map
use una_os.Prelude.Map.{Map}
use una_os.Prelude.Exec.{ok}
use una_os.Unafs.Storage.{BlockDevice}
use una_os.Unafs.Inode.{Inode, ExtentList, AttributeValue, int, float, string, blob, vector}
use una_os.Unafs.Catalog
use una_os.Unafs.Catalog.{CatalogEntry}
use una_os.Unafs.Query.{Query}
use una_os.Unafs.Fs.{UnaFs, Codecs, read_inode}
use una_os.Unafs.Fs.Data.{read_data, read_from_extents}
use una_os.Unafs.Fs.Attributes.{total_length}
use una_os.Unafs.Fs.Search.{Floats, scored, candidates, value_of, query_loop, run_query}
use una_os.Unafs.Fs.Search.{check_condition, passes, is_string}

is_string-eq :
    (floats : Floats) (o : Option AttributeValue) (wanted : Text)
    → (is_string floats o wanted ≡ true) ↔ (o ≡ some (string wanted))
unfolding is_string
is_string-eq floats none wanted = (λ h. absurd (cc h), λ h. absurd (cc h))
is_string-eq floats (some (int i)) wanted = (λ h. absurd (cc h), λ h. absurd (cc h))
is_string-eq floats (some (float f)) wanted = (λ h. absurd (cc h), λ h. absurd (cc h))
is_string-eq floats (some (string s)) wanted = (
  λ h. ap (λ t. some (string t)) (text_eq→eq s wanted h),
  λ h. let e : s ≡ wanted = cc h in rw e (text_eq_refl wanted),
)
is_string-eq floats (some (blob b)) wanted = (λ h. absurd (cc h), λ h. absurd (cc h))
is_string-eq floats (some (vector v)) wanted = (λ h. absurd (cc h), λ h. absurd (cc h))

passes-All :
    (floats : Floats) (attributes : Map AttributeValue) (filters : List (Text × Text))
    → (passes floats attributes filters ≡ true)
      ↔ All (λ f. Map.get f.0 attributes ≡ some (string f.1)) filters
unfolding passes
passes-All floats attributes [] = (λ h. tt, λ h. refl)
passes-All floats attributes ((key, wanted) ∷ filters) =
    let first = is_string-eq floats (Map.get key attributes) wanted in
    let rest = passes-All floats attributes filters in
    (
      λ h. (first.0 (and_left _ _ h), rest.0 (and_right _ _ h)),
      λ h. let a = first.1 h.0 in let b = rest.1 h.1 in rw (a, b),
    )

abbrev Chosen : Floats → Query → Inode → Inode → Option AttributeValue → ℕ → Type 0
Chosen floats q node found value score =
    (node ≡ found)
    × (v : AttributeValue) × (value ≡ some v)
    × (check_condition floats v q.op q.value ≡ some score)
    × (passes floats found.attributes q.secondary_filters ≡ true)

scored-In :
    (floats : Floats) (q : Query) (node found : Inode) (value : Option AttributeValue) (score : ℕ)
    → In (found, score) (scored floats q node value) ↔ Chosen floats q node found value score
unfolding scored
scored-In floats q node found value score = (forth value, back)
  where
    forth :
        (value : Option AttributeValue)
        → In (found, score) (scored floats q node value)
        → Chosen floats q node found value score
    forth none h = absurd h
    forth (some v) h = elim (Option-cases (check_condition floats v q.op q.value)) [
      | inl e ↦
          let l : scored floats q node (some v) ≡ [] = rw (e, scored) in
          absurd (subst (λ (t : List (Inode × ℕ)). In (found, score) t) l h)
      | inr (t, e) ↦ elim (Bool-cases (passes floats node.attributes q.secondary_filters)) [
        | inl p ↦
            let l : scored floats q node (some v) ≡ ((node, t) ∷ []) = rw (e, p, scored) in
            elim (subst (λ (t : List (Inode × ℕ)). In (found, score) t) l h) [
              | inl k ↦
                  let n : node ≡ found = sym (ap (λ (r : Inode × ℕ). r.0) k) in
                  (
                    n,
                    v,
                    refl,
                    e ∙ ap some (sym (ap (λ (r : Inode × ℕ). r.1) k)),
                    subst (λ (n : Inode). passes floats n.attributes q.secondary_filters ≡ true) n
                        p,
                  )
              | inr k ↦ absurd k
            ]
        | inr p ↦
            let l : scored floats q node (some v) ≡ [] = rw (e, p, scored) in
            absurd (subst (λ (t : List (Inode × ℕ)). In (found, score) t) l h)
      ]
    ]

    back : Chosen floats q node found value score → In (found, score) (scored floats q node value)
    back (n, v, has, meets, passed) =
        let p =
          subst (λ (n : Inode). passes floats n.attributes q.secondary_filters ≡ true) (sym n)
            passed in
        let l : scored floats q node value ≡ ((node, score) ∷ []) = rw (has, meets, p, scored) in
        subst (λ (t : List (Inode × ℕ)). In (found, score) t) (sym l)
          (inl (ap (λ (n : Inode). (n, score)) (sym n)))

module _ {D : Type 0} ⦃dev : BlockDevice D⦄ (c : Codecs) (floats : Floats) (s : UnaFs D) where
  -- The value of an attribute, where it is small, absent, or large and read from its extents.
  pub data HasValue (node : Inode) (key : Text) : Option AttributeValue → Type 0 where
    small : {v : AttributeValue} → Map.get key node.attributes ≡ some v → HasValue node key (some v)
    absent :
        Map.get key node.attributes ≡ none
        → Map.get key node.large_attributes ≡ none
        → HasValue node key none
    large :
        {extents : ExtentList} {bytes : List ℕ}
        → Map.get key node.attributes ≡ none
        → Map.get key node.large_attributes ≡ some extents
        → read_from_extents c extents 0 (total_length extents) (total_length extents) s
          ≡ (ok bytes, s)
        → HasValue node key (c.attribute.deserialize bytes)

  value_of-HasValue :
      (node : Inode) (key : Text) {v : Option AttributeValue}
      → HasValue node key v
      → value_of c floats node key s ≡ (ok v, s)
  unfolding value_of
  value_of-HasValue node key (small e) = rw (e, value_of)
  value_of-HasValue node key (absent e f) = rw (e, f, value_of)
  value_of-HasValue node key (large {extents} {bytes} e f read) = rw (e, f, read, value_of)

  module _ (q : Query) (nodes : ℕ → Inode) (value : ℕ → Option AttributeValue) where
    -- What the loop collects.
    abbrev hits : List ℕ → List (Inode × ℕ)
    hits [] = []
    hits (id ∷ ids) = scored floats q (nodes id) (value id) ++ hits ids

    -- What the disk holds of an inode.
    abbrev pub Holds : ℕ → Type 0
    Holds id = (read_inode c id s ≡ (ok (nodes id), s)) × HasValue (nodes id) q.key (value id)

    query_loop-hits :
        (ids : List ℕ) → All Holds ids → query_loop c floats q ids s ≡ (ok (hits ids), s)
    unfolding query_loop
    query_loop-hits [] h = refl
    query_loop-hits (id ∷ ids) h =
        rw (h.0.0, value_of-HasValue (nodes id) q.key h.0.1, query_loop-hits ids h.1)

    run_query-hits :
        (catalog_node : Inode) (bytes : List ℕ) (entries : List CatalogEntry)
        → s.superblock.catalog_inode ≢ 0
        → read_inode c s.superblock.catalog_inode s ≡ (ok catalog_node, s)
        → read_data c s.superblock.catalog_inode 0 catalog_node.size s ≡ (ok bytes, s)
        → Catalog.deserialize_catalog c.catalog bytes ≡ some entries
        → All Holds (candidates q entries)
        → run_query c floats q s ≡ (ok (hits (candidates q entries)), s)
    unfolding run_query
    run_query-hits catalog_node bytes entries there node data_read decoded h =
        let e : (s.superblock.catalog_inode == 0) ≡ false = ground arith in
        rw (e, node, data_read, decoded) (query_loop-hits (candidates q entries) h)

    -- What makes an inode a result: it is read, its value meets the condition with the score, and every
    -- filter finds its string among the small attributes.
    pub record IsHit (found : Inode) (score id : ℕ) : Type 0 where
      pub read : nodes id ≡ found
      pub v : AttributeValue
      pub has : value id ≡ some v
      pub meets : check_condition floats v q.op q.value ≡ some score
      pub filtered : All (λ f. Map.get f.0 found.attributes ≡ some (string f.1)) q.secondary_filters

    hits-IsHit :
        (found : Inode) (score : ℕ) (ids : List ℕ)
        → In (found, score) (hits ids) ↔ ((id : ℕ) × In id ids × IsHit found score id)
    hits-IsHit found score [] = (λ h. absurd h, λ h. absurd h.1)
    hits-IsHit found score (id ∷ ids) =
        let rest = hits-IsHit found score ids in
        let here = scored-In floats q (nodes id) found (value id) score in
        let parts = In-append (found, score) (scored floats q (nodes id) (value id)) (hits ids) in
        (
          λ h. elim (parts.0 h) [
            | inl k ↦
                let m = here.0 k in
                (
                  id,
                  inl refl,
                  record {
                    read = m.0;
                    v = m.1;
                    has = m.2;
                    meets = m.3;
                    filtered = (passes-All floats found.attributes q.secondary_filters).0 m.4;
                  },
                )
            | inr k ↦ let r = rest.0 k in (r.0, inr r.1, r.2)
          ],
          λ h. elim h.1 [
            | inl e ↦
                let m : IsHit found score id = subst (λ (i : ℕ). IsHit found score i) e h.2 in
                parts.1 (
                  inl (
                    here.1 (
                      (
                        m.read,
                        m.v,
                        m.has,
                        m.meets,
                        (passes-All floats found.attributes q.secondary_filters).1 m.filtered,
                      ))))
            | inr k ↦ parts.1 (inr (rest.1 (h.0, k, h.2)))
          ],
        )

    -- Where the catalog and the inodes that it offers are read, the query succeeds and changes nothing.
    -- An inode is among its results with a score exactly when a candidate is read as it, has a value
    -- under the query's key, small or large, which meets the condition with that score, and has every
    -- secondary filter's string among its small attributes.
    pub run_query-IsHit :
        (catalog_node : Inode) (bytes : List ℕ) (entries : List CatalogEntry)
        → s.superblock.catalog_inode ≢ 0
        → read_inode c s.superblock.catalog_inode s ≡ (ok catalog_node, s)
        → read_data c s.superblock.catalog_inode 0 catalog_node.size s ≡ (ok bytes, s)
        → Catalog.deserialize_catalog c.catalog bytes ≡ some entries
        → All Holds (candidates q entries)
        → (results : List (Inode × ℕ)) × (run_query c floats q s ≡ (ok results, s))
          × ((found : Inode) (score : ℕ)
              → In (found, score) results
                ↔ ((id : ℕ) × In id (candidates q entries) × IsHit found score id))
    run_query-IsHit catalog_node bytes entries there node data_read decoded h = (
      hits (candidates q entries),
      run_query-hits catalog_node bytes entries there node data_read decoded h,
      λ found score. hits-IsHit found score (candidates q entries),
    )
