-- ===== src/Elessar/Indexer/Sections.antt =====
-- libs/elessar/src/context/indexer.rs: the sections of a Cargo.toml, and what they list.
use una_os.Prelude.{List, [], ◌∷◌, ◌++◌, Option, none, some, Bool, true}
use una_os.Prelude.{false, ◌≡◌, ◌↔◌, ◌⊎◌, inl, inr, ap, sym, ◌∙◌, refl, arith, if◌then◌else◌}
use una_os.Prelude.{Bool-cases}
use una_os.Prelude.Members.{In, In-append}
use una_os.Prelude.Text.{Text}
use una_os.Prelude.Text.Scan.{starts_with, is_empty, split, trim}
use una_os.Elessar.Indexer.{entry, first_clean}
use una_os.Elessar.Indexer.{dependencies_header, bracket}

abbrev pub opens : Text → Bool
opens line = starts_with dependencies_header line

abbrev pub is_header : Text → Bool
is_header line = starts_with bracket line

-- A line of a section that is neither a comment nor empty gives what stands in front of its `=`, less
-- the spaces around it, unless that is empty.
pub record GivesName (l d : Text) : Type 0 where
  pub no_comment : starts_with (0x23 ∷ []) l ≡ false
  pub filled : is_empty l ≡ false
  pub before :
      (first : Text) × (rest : List Text) × (split (0x3D ∷ []) l ≡ first ∷ rest) × (trim first ≡ d)
  pub named : is_empty d ≡ false

first-GivesName :
    (l d : Text) (parts : List Text)
    → split (0x3D ∷ []) l ≡ parts
    → starts_with (0x23 ∷ []) l ≡ false
    → is_empty l ≡ false
    → (first_clean parts ≡ some d) ↔ GivesName l d
unfolding first_clean
first-GivesName l d [] e c f =
    (λ h. absurd (cc h), λ g. let (first, rest, at, name) = g.before in absurd (cc (e, at)))
first-GivesName l d (first ∷ rest) e c f = (
  λ h. elim (Bool-cases (is_empty (trim first))) [
    | inl t ↦ absurd (let k : none ≡ some d = sym (rw (t, first_clean) refl) ∙ h in cc k)
    | inr n ↦
        let same : trim first ≡ d =
          let k : some (trim first) ≡ some d = sym (rw (n, first_clean) refl) ∙ h in cc k in
        record {
          no_comment = c;
          filled = f;
          before = (first, rest, e, same);
          named = rw (← same) n;
        }
  ],
  λ g.
      let (other, more, at, name) = g.before in
      let same : first ≡ other = cc (e, at) in
      let kept : trim first ≡ d = ap trim same ∙ name in let n = g.named in rw (kept, n) refl,
)

entry-GivesName : (l d : Text) → (entry l ≡ some d) ↔ GivesName l d
unfolding entry
entry-GivesName l d = elim (Bool-cases (starts_with (0x23 ∷ []) l)) [
  | inl t ↦ (
    λ h. absurd (let k : none ≡ some d = sym (rw (t, entry) refl) ∙ h in cc k),
    λ g. absurd (cc (t, g.no_comment)),
  )
  | inr c ↦ elim (Bool-cases (is_empty l)) [
    | inl t ↦ (
      λ h. absurd (let k : none ≡ some d = sym (rw (c, t, entry) refl) ∙ h in cc k),
      λ g. absurd (cc (t, g.filled)),
    )
    | inr f ↦ rw (c, f, entry) (first-GivesName l d (split (0x3D ∷ []) l) refl c f)
  ]
]

-- A dependency of the lines in front of the next header.
pub data InRun (d : Text) : List Text → Type 0 where
  here : {l : Text} {ls : List Text} → is_header l ≡ false → GivesName l d → InRun d (l ∷ ls)
  next : {l : Text} {ls : List Text} → is_header l ≡ false → InRun d ls → InRun d (l ∷ ls)

-- A dependency of a section: a line behind its header, or the header itself.
pub data IsListed (d : Text) : List Text → Type 0 where
  header : {l : Text} {ls : List Text} → opens l ≡ true → GivesName l d → IsListed d (l ∷ ls)
  under : {l : Text} {ls : List Text} → opens l ≡ true → InRun d ls → IsListed d (l ∷ ls)
  later : {l : Text} {ls : List Text} → IsListed d ls → IsListed d (l ∷ ls)

-- Whether the section is open behind a line.
abbrev pub flag : Bool → Text → Bool
flag b l = if opens l then true else if is_header l then false else b

abbrev as_list : Option Text → List Text
as_list none = []
as_list (some d) = d ∷ []

abbrev pub added : Bool → Text → List Text
added false l = []
added true l = as_list (entry l)

abbrev pub collected : Bool → List Text → List Text
collected b [] = []
collected b (l ∷ ls) = added (flag b l) l ++ collected (flag b l) ls

as_list-In : (d : Text) (o : Option Text) → In d (as_list o) ↔ (o ≡ some d)
as_list-In d none = (λ h. absurd h, λ h. absurd (cc h))
as_list-In d (some x) =
    (λ h. elim h [ inl e ↦ ap some (sym e) | inr e ↦ absurd e ], λ h. inl (cc h))

opens-closes : (l : Text) → opens l ≡ true → is_header l ≡ true
unfolding starts_with
opens-closes [] h = absurd (cc h)
opens-closes (b ∷ l) h = ground (arith, h)

InRun-cons :
    (d l : Text) (ls : List Text)
    → InRun d (l ∷ ls)
    → (is_header l ≡ false) × (GivesName l d ⊎ InRun d ls)
InRun-cons d l ls (here h e) = (h, inl e)
InRun-cons d l ls (next h r) = (h, inr r)

IsListed-cons :
    (d l : Text) (ls : List Text)
    → IsListed d (l ∷ ls)
    → ((opens l ≡ true) × (GivesName l d ⊎ InRun d ls)) ⊎ IsListed d ls
IsListed-cons d l ls (header o e) = inl (o, inl e)
IsListed-cons d l ls (under o r) = inl (o, inr r)
IsListed-cons d l ls (later r) = inr r

InRun-nil : (d : Text) → ¬ InRun d []
InRun-nil d h = elim h [ ]

IsListed-nil : (d : Text) → ¬ IsListed d []
IsListed-nil d h = elim h [ ]

-- What the two states of the section collect, behind a line that keeps them.
unfoldable pub Collects : Text → List Text → Type 0
Collects d ls =
    (In d (collected true ls) ↔ (InRun d ls ⊎ IsListed d ls))
    × (In d (collected false ls) ↔ IsListed d ls)

module _ (d l : Text) (ls : List Text) (ih : Collects d ls) where
  line_or_rest :
      In d (added true l ++ collected true ls) ↔ (GivesName l d ⊎ (InRun d ls ⊎ IsListed d ls))
  unfolding Collects
  line_or_rest =
      let parts = In-append d (added true l) (collected true ls) in
      let line = as_list-In d (entry l) in
      let names = entry-GivesName l d in
      (
        λ h. elim (parts.0 h) [ inl e ↦ inl (names.0 (line.0 e)) | inr r ↦ inr (ih.0.0 r) ],
        λ h. elim h [
          | inl e ↦ parts.1 (inl (line.1 (names.1 e)))
          | inr r ↦ parts.1 (inr (ih.0.1 r))
        ],
      )

  behind_opening : opens l ≡ true → In d (added true l ++ collected true ls) ↔ IsListed d (l ∷ ls)
  behind_opening o = (
    λ h. elim (line_or_rest.0 h) [
      | inl e ↦ header o e
      | inr r ↦ elim r [ inl run ↦ under o run | inr rest ↦ later rest ]
    ],
    λ h. line_or_rest.1 (elim (IsListed-cons d l ls h) [
      | inl e ↦ elim e.1 [ inl line ↦ inl line | inr run ↦ inr (inl run) ]
      | inr rest ↦ inr (inr rest)
    ]),
  )

  behind_other : opens l ≡ false → In d (collected false ls) ↔ IsListed d (l ∷ ls)
  unfolding Collects
  behind_other f = (
    λ h. later (ih.1.0 h),
    λ h. elim (IsListed-cons d l ls h) [ inl e ↦ absurd (cc (f, e.0)) | inr rest ↦ ih.1.1 rest ],
  )

  no_run : is_header l ≡ true → InRun d (l ∷ ls) ⊎ IsListed d (l ∷ ls) → IsListed d (l ∷ ls)
  no_run t (inl run) = absurd (cc (t, (InRun-cons d l ls run).0))
  no_run t (inr listed) = listed

  behind_plain :
      opens l ≡ false
      → is_header l ≡ false
      → In d (added true l ++ collected true ls) ↔ (InRun d (l ∷ ls) ⊎ IsListed d (l ∷ ls))
  behind_plain o f = (
    λ h. elim (line_or_rest.0 h) [
      | inl e ↦ inl (here f e)
      | inr r ↦ elim r [ inl run ↦ inl (next f run) | inr rest ↦ inr (later rest) ]
    ],
    λ h. line_or_rest.1 (elim h [
      | inl run ↦ elim (InRun-cons d l ls run).1 [ inl line ↦ inl line | inr run ↦ inr (inl run) ]
      | inr listed ↦ elim (IsListed-cons d l ls listed) [
        | inl e ↦ absurd (cc (o, e.0))
        | inr rest ↦ inr (inr rest)
      ]
    ]),
  )

  Collects-cons : Collects d (l ∷ ls)
  unfolding Collects
  Collects-cons = elim (Bool-cases (opens l)) [
    | inl o ↦
        let b = behind_opening o in
        let t = opens-closes l o in rw o ((λ h. inr (b.0 h), λ h. b.1 (no_run t h)), b)
    | inr o ↦ elim (Bool-cases (is_header l)) [
      | inl t ↦ let b = behind_other o in rw (o, t) ((λ h. inr (b.0 h), λ h. b.1 (no_run t h)), b)
      | inr f ↦ rw (o, f) (behind_plain o f, behind_other o)
    ]
  ]

pub collected-Collects : (d : Text) (ls : List Text) → Collects d ls
unfolding Collects
collected-Collects d [] = (
  (
    λ h. absurd h,
    λ h. elim h [ inl r ↦ absurd (InRun-nil d r) | inr r ↦ absurd (IsListed-nil d r) ],
  ),
  (λ h. absurd h, IsListed-nil d),
)
collected-Collects d (l ∷ ls) = Collects-cons d l ls (collected-Collects d ls)
