-- ===== src/Unafs/Bitmap/Alloc.antt =====
-- What `allocate` claims: the first free block, and nothing else.
use una_os.Prelude.{ℕ, suc, ◌+◌, ◌-◌, ◌*◌, ◌≤◌, ◌<◌, List, [], ◌∷◌, ◌≡◌, refl, ap, arith}
use una_os.Prelude.{Option, true, false, none, some, ◌⊎◌, ◌↔◌, inl, inr, Bool-cases, Option-cases}
use una_os.Prelude.{length, All, IsByte, leb, ◌==◌, if◌then◌else◌, leb→le, ==→eq}
use una_os.Prelude.Bits.{bit, set_bit, bit-set_bit, set_bit-lt, bit_of_full}
use una_os.Unafs.Bitmap.{SpaceMap, first_clear, claim, allocate}
use una_os.Unafs.Bitmap.Search.{first_clear-some, first_clear-none}
use una_os.Unafs.Bitmap.Used.{used_at, used, IsValid, used_head, used_tail}

-- `bits'` is `bits` with `r`, its first free block, in use.
pub record Claims (bits : List ℕ) (r : ℕ) (bits' : List ℕ) : Type 0 where
  pub was_free : used_at bits r ≡ false
  pub marks : (j : ℕ) → used_at bits' j ≡ (if r == j then true else used_at bits j)
  pub first : (j : ℕ) → j < r → used_at bits j ≡ true
  pub width : length bits' ≡ length bits
  pub bytes : All IsByte bits'

Claims-head :
    (byte k : ℕ) (bytes : List ℕ)
    → byte < 256
    → All IsByte bytes
    → k < 8
    → bit byte k ≡ false
    → ((j : ℕ) → j < k → bit byte j ≡ true)
    → Claims (byte ∷ bytes) k (set_bit byte k ∷ bytes)
Claims-head byte k bytes small all hk clear before = record {
  was_free = rw (used_head byte bytes k hk) clear;
  marks = λ j. elim (Bool-cases (leb 8 j)) [
    | inl far ↦ ground (arith, used_tail (set_bit byte k) bytes j, used_tail byte bytes j)
    | inr near ↦ ground (
      arith,
      used_head (set_bit byte k) bytes j,
      used_head byte bytes j,
      bit-set_bit byte k small hk j,
    )
  ];
  first = λ j h. rw (used_head byte bytes j (omega arith)) (before j h);
  width = refl;
  bytes = (set_bit-lt byte k small hk, all);
}

Claims-tail :
    (byte r : ℕ) (bytes bytes' : List ℕ)
    → byte < 256
    → ((j : ℕ) → j < 8 → bit byte j ≡ true)
    → Claims bytes r bytes'
    → Claims (byte ∷ bytes) (r + 8) (byte ∷ bytes')
Claims-tail byte r bytes bytes' small full c = record {
  was_free =
      let e : r + 8 - 8 ≡ r = omega arith in
      rw (used_tail byte bytes (r + 8) (omega arith), e) c.was_free;
  marks = λ j. elim (Bool-cases (leb 8 j)) [
    | inl far ↦ ground (arith, used_tail byte bytes' j, used_tail byte bytes j, c.marks (j - 8))
    | inr near ↦ ground (arith, used_head byte bytes' j, used_head byte bytes j)
  ];
  first = λ j h. elim (Bool-cases (leb 8 j)) [
    | inl far ↦ ground (arith, used_tail byte bytes j, c.first (j - 8))
    | inr near ↦ ground (arith, used_head byte bytes j, full j)
  ];
  width = ap suc c.width;
  bytes = (small, c.bytes);
}

-- The round of the loop: it goes on past a full byte, or it ends at the byte's first clear bit.
claim_round :
    (n idx byte : ℕ) (bytes : List ℕ)
    → byte < 256
    → (((j : ℕ) → j < 8 → bit byte j ≡ true)
        × (claim n idx (byte ∷ bytes) ≡ elim (claim n (idx + 1) bytes) [
          | none ↦ none
          | some (id, bytes') ↦ some (id, byte ∷ bytes')
        ]))
      ⊎ ((k : ℕ) × (first_clear byte 0 8 ≡ some k)
          × (claim n idx (byte ∷ bytes)
              ≡ (if leb n (idx * 8 + k) then none else some (idx * 8 + k, set_bit byte k ∷ bytes))))
unfolding claim
claim_round n idx byte bytes small = elim (Bool-cases (byte == 255)) [
  | inl full ↦ inl ((λ j h. rw (==→eq byte 255 full) (bit_of_full j h)), ground arith)
  | inr more ↦ elim (Option-cases (first_clear byte 0 8)) [
    | inl e ↦ inl ((λ j h. first_clear-none byte 0 8 e j (omega arith) (omega arith)), ground arith)
    | inr (k, e) ↦ inr (k, e, ground arith)
  ]
]

claim-some :
    (n idx : ℕ) (bits : List ℕ) (id : ℕ) (bits' : List ℕ)
    → All IsByte bits
    → claim n idx bits ≡ some (id, bits')
    → (r : ℕ) × (id ≡ idx * 8 + r) × (id < n) × Claims bits r bits'
claim-some n idx [] id bits' all e = absurd (unfold claim in cc e)
claim-some n idx (byte ∷ bytes) id bits' (small, all) e =
    elim (claim_round n idx byte bytes small) [
      | inl (full, step) ↦ elim (Option-cases (claim n (idx + 1) bytes)) [
        | inl none_left ↦ absurd (ground (arith, step))
        | inr ((id', bytes'), found) ↦
            let (r, at, small_id, c) = claim-some n (idx + 1) bytes id' bytes' all found in
            let same : (id' ≡ id) × (byte ∷ bytes' ≡ bits') = ground (arith, step) in
            (
              r + 8,
              omega arith,
              rw (← same.0) small_id,
              rw (← same.1) (Claims-tail byte r bytes bytes' small full c),
            )
      ]
      | inr (k, here, step) ↦
          let (_, hk, clear, before) = first_clear-some byte 0 8 k here in
          let got : (idx * 8 + k ≡ id) × (idx * 8 + k < n) × (set_bit byte k ∷ bytes ≡ bits') =
            ground (arith, step) in
          (
            k,
            omega arith,
            omega arith,
            rw (← got.2)
                (Claims-head byte k bytes small all hk clear (λ j h. before j (omega arith) h)),
          )
    ]

claim-none :
    (n idx : ℕ) (bits : List ℕ)
    → All IsByte bits
    → claim n idx bits ≡ none
    → (j : ℕ) → j < 8 * length bits
    → idx * 8 + j < n
    → used_at bits j ≡ true
claim-none n idx [] all e j h k = absurd (omega arith)
claim-none n idx (byte ∷ bytes) (small, all) e j h k = elim (claim_round n idx byte bytes small) [
  | inl (full, step) ↦ elim (Bool-cases (leb 8 j)) [
    | inl far ↦ rw (used_tail byte bytes j (leb→le 8 j far)) (
        claim-none n (idx + 1) bytes all (ground (arith, step)) (j - 8) (ground arith)
          (ground arith))
    | inr near ↦ rw (used_head byte bytes j (ground arith)) (full j (ground arith))
  ]
  | inr (r, here, step) ↦
      let (_, hr, clear, before) = first_clear-some byte 0 8 r here in
      let last : n ≤ idx * 8 + r = ground (arith, step) in
      rw (used_head byte bytes j (omega arith)) (before j (omega arith) (omega arith))
]

-- What a successful `allocate` returns: the lowest free block of the disk, which it marks.
pub record Allocates (m : SpaceMap) (id : ℕ) (m' : SpaceMap) : Type 0 where
  pub in_range : id < m.block_count
  pub was_free : used m id ≡ false
  pub lowest : (j : ℕ) → j < id → used m j ≡ true
  pub marks : (j : ℕ) → used m' j ≡ (if id == j then true else used m j)
  pub count : m'.block_count ≡ m.block_count
  pub valid : IsValid m'
  pub width : length m'.bits ≡ length m.bits

-- On a valid map, a block that `allocate` returns is the lowest free block and inside the disk; it
-- is in use afterwards, every other block is as before, and the map stays valid with its size.
pub allocate-Allocates :
    (m : SpaceMap) (id : ℕ) → IsValid m → (allocate m).0 ≡ some id → Allocates m id (allocate m).1
unfolding allocate
allocate-Allocates m id v e = elim (Option-cases (claim m.block_count 0 m.bits)) [
  | inl full ↦ absurd (ground arith)
  | inr ((id', bits'), found) ↦
      let (r, at, small, c) = claim-some m.block_count 0 m.bits id' bits' v.bytes found in
      let same : id' ≡ id = ground arith in
      let here : r ≡ id = omega arith in
      rw (found, allocate)
        (record {
          in_range = omega arith;
          was_free = rw (← here) c.was_free;
          lowest = λ j h. c.first j (omega arith);
          marks = λ j. rw (← here) (c.marks j);
          count = refl;
          valid = record { bytes = c.bytes; covers = omega (arith, v.covers, c.width) };
          width = c.width;
        })
]

allocate_kept : (m : SpaceMap) → (allocate m).0 ≡ none → allocate m ≡ (none, m)
unfolding allocate
allocate_kept m e = elim (Option-cases (claim m.block_count 0 m.bits)) [
  | inl full ↦ rw (full, allocate) refl
  | inr ((id, bits'), found) ↦ absurd (ground arith)
]

none_iff_full :
    (m : SpaceMap)
    → IsValid m
    → ((allocate m).0 ≡ none) ↔ ((j : ℕ) → j < m.block_count → used m j ≡ true)
unfolding allocate
none_iff_full m v = elim (Option-cases (claim m.block_count 0 m.bits)) [
  | inl full ↦ (
    λ e j h.
        claim-none m.block_count 0 m.bits v.bytes full j (omega (arith, v.covers)) (omega arith),
    λ all. rw (full, allocate),
  )
  | inr ((id, bits'), found) ↦
      let (r, at, small, c) = claim-some m.block_count 0 m.bits id bits' v.bytes found in
      (λ e. absurd (ground arith), λ all. absurd (ground (arith, all r (omega arith), c.was_free)))
]

-- On a valid map `allocate` fails exactly when every block of the disk is in use, and when it fails it
-- leaves the map as it is.
pub allocate-none :
    (m : SpaceMap)
    → IsValid m
    → (((allocate m).0 ≡ none) ↔ ((j : ℕ) → j < m.block_count → used m j ≡ true))
      × (((allocate m).0 ≡ none) ↔ (allocate m ≡ (none, m)))
allocate-none m v =
    (none_iff_full m v, (allocate_kept m, λ e. ap (λ (p : Option ℕ × SpaceMap). p.0) e))
