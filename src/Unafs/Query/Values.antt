-- ===== src/Unafs/Query/Values.antt =====
-- libs/unafs/src/query.rs: which texts parse_value panics on, and how it reads a quoted one.
use una_os.Prelude.{ℕ, ◌-◌, ◌≤◌, ◌≡◌, ◌↔◌, refl, arith, inl, inr}
use una_os.Prelude.{List, [], ◌∷◌, true, false, ◌&&◌, ◌==◌}
use una_os.Prelude.{Bool-cases, Option-cases, length, slice, and_left, and_right}
use una_os.Prelude.Text.{Text}
use una_os.Prelude.Text.Scan.{trim, starts_with, ends_with_byte, split}
use una_os.Prelude.Checked.{panicked, parsed, ◌>>=◌, bind-panicked}
use una_os.Unafs.Inode.{string, vector}
use una_os.Unafs.Query.{FloatSyntax, quote, inner, is_quoted, parse_vector, parse_trimmed}
use una_os.Unafs.Query.{parse_value}

-- A text that begins with one byte and ends with another has two bytes at least.
two_bytes :
    (p q : ℕ) (s : Text)
    → (p == q) ≡ false
    → starts_with (p ∷ []) s ≡ true
    → ends_with_byte q s ≡ true
    → 2 ≤ length s
unfolding starts_with ends_with_byte
two_bytes p q [] ne h k = absurd (cc h)
two_bytes p q (b ∷ []) ne h k = absurd (ground arith)
two_bytes p q (b ∷ c ∷ s) ne h k = omega arith

inner_in : (s : Text) → 2 ≤ length s → inner s ≡ parsed (slice s 1 (length s - 2))
unfolding inner
inner_in s h = ground arith

module _ (floats : FloatSyntax) where
  parse_vector_returns : (ps : List Text) → parse_vector floats ps ≡ panicked → ⊥
  unfolding parse_vector
  parse_vector_returns [] h = cc h
  parse_vector_returns (p ∷ ps) h = elim (Option-cases (floats.parse_f32 (trim p))) [
    | inl bad ↦ cc (rw (bad, parse_vector) at h)
    | inr (f, fine) ↦
        elim (bind-panicked (parse_vector floats ps) _ (rw (fine, parse_vector) at h)) [
          | inl later ↦ parse_vector_returns ps later
          | inr (fs, e, k) ↦ cc k
        ]
  ]

  lone_quoted :
      (s : Text)
      → is_quoted s ≡ true
      → (inner s >>= (λ t. parsed (string t))) ≡ panicked
      → s ≡ quote ∷ []
  unfolding is_quoted starts_with ends_with_byte inner
  lone_quoted [] q h = absurd (cc q)
  lone_quoted (b ∷ []) q h = let e : b ≡ quote = ground arith in rw e
  lone_quoted (b ∷ c ∷ s) q h = absurd (ground arith)

  vector_returns :
      (s : Text)
      → (parse_vector floats (split (0x2c ∷ []) s) >>= (λ v. parsed (vector v))) ≡ panicked
      → ⊥
  vector_returns s h = elim (bind-panicked (parse_vector floats (split (0x2c ∷ []) s)) _ h) [
    | inl e ↦ parse_vector_returns (split (0x2c ∷ []) s) e
    | inr (v, e, k) ↦ cc k
  ]

  lone_quote : (s : Text) → parse_trimmed floats s ≡ panicked → s ≡ quote ∷ []
  unfolding parse_trimmed
  lone_quote s h = elim (Bool-cases (is_quoted s)) [
    | inl quoted ↦ lone_quoted s quoted (rw quoted at h)
    | inr other ↦ elim (Bool-cases (starts_with (0x5b ∷ []) s && ends_with_byte 0x5d s)) [
      | inl brackets ↦
          let long = two_bytes 0x5b 0x5d s refl (and_left _ _ brackets) (and_right _ _ brackets) in
          absurd (
            vector_returns (slice s 1 (length s - 2))
              (rw (inner_in s long) at (rw brackets at (rw other at h))))
      | inr word ↦ cc (rw word at (rw other at h))
    ]
  ]

  lone_quote-panics : parse_trimmed floats (quote ∷ []) ≡ panicked
  unfolding parse_trimmed is_quoted starts_with ends_with_byte inner
  lone_quote-panics = refl

  -- parse_value panics on the texts that are one quotation mark between spaces, and on no other.
  pub parse_value-panics :
      (input : Text) → (parse_value floats input ≡ panicked) ↔ (trim input ≡ quote ∷ [])
  unfolding parse_value
  parse_value-panics input = (lone_quote (trim input), λ e. rw e lone_quote-panics)
