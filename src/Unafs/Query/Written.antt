-- ===== src/Unafs/Query/Written.antt =====
-- libs/unafs/src/query.rs: an equality between a key and a quoted text, written and parsed.
use una_os.Prelude.{leb, ℕ, ◌+◌, ◌-◌, ◌≡◌, refl, ap, ◌∙◌, sym, arith}
use una_os.Prelude.{[], ◌∷◌, ◌++◌, append_assoc, none, some, true, false}
use una_os.Prelude.{length, take, drop, slice, length-append, take-append_exact, drop-append_exact}
use una_os.Prelude.Text.{Text}
use una_os.Prelude.Text.Scan.{is_space, trim, trim_end, starts_with, find, Without}
use una_os.Prelude.Text.Scan.{
  trim_end-kept, trim_end-space, find-append, split-none, ends_with_byte-append,
}
use una_os.Prelude.Checked.{parsed}
use una_os.Unafs.Inode.{string}
use una_os.Unafs.Query.{FloatSyntax, equal, quote, inner, is_quoted, parse_value}
use una_os.Unafs.Query.{by_operator, similarity, and_word, parse}

abbrev quoted : Text → Text
quoted v = quote ∷ (v ++ (quote ∷ []))

-- `key == "value"`
abbrev pub written : Text → Text → Text
written key v = key ++ (0x20 ∷ 0x3d ∷ 0x3d ∷ 0x20 ∷ quoted v)

-- A key that begins with a byte that is no space, ends without a space and has no `=`.
pub record IsKey (first : ℕ) (key : Text) : Type 0 where
  pub begins : is_space first ≡ false
  pub ends : trim_end (first ∷ key) ≡ first ∷ key
  pub plain : Without 0x3d (first ∷ key)

trim-quoted : (v : Text) → trim (quoted v) ≡ quoted v
unfolding trim
trim-quoted v = trim_end-kept (quote ∷ v) quote refl

trim_spaced : (v : Text) → trim (0x20 ∷ quoted v) ≡ quoted v
unfolding trim
trim_spaced v = trim_end-kept (quote ∷ v) quote refl

inner-quoted : (v : Text) → inner (quoted v) ≡ parsed v
unfolding inner slice
inner-quoted v =
    let size = length-append v (quote ∷ []) in
    let long : leb 2 (length (quoted v)) ≡ true = ground (arith, size) in
    rw long
      (ap parsed (take-append_exact v (quote ∷ []) (length (quoted v) - 2) (omega (arith, size))))

module _ (floats : FloatSyntax) where
  parse_quoted : (v : Text) → parse_value floats (quoted v) ≡ parsed (string v)
  unfolding parse_value is_quoted starts_with
  parse_quoted v = rw (trim-quoted v, ends_with_byte-append quote (quote ∷ v), inner-quoted v)

  module _ (first : ℕ) (key v : Text) (k : IsKey first key) where
    trim-written : trim (written (first ∷ key) v) ≡ written (first ∷ key) v
    unfolding trim
    trim-written =
        let front = (first ∷ key) ++ (0x20 ∷ 0x3d ∷ 0x3d ∷ 0x20 ∷ quote ∷ v) in
        let e : written (first ∷ key) v ≡ front ++ (quote ∷ []) =
          sym (append_assoc (first ∷ key) (0x20 ∷ 0x3d ∷ 0x3d ∷ 0x20 ∷ quote ∷ v) (quote ∷ [])) in
        rw k.begins (ap trim_end e ∙ trim_end-kept front quote refl ∙ sym e)

    key_part : trim (take (length (first ∷ key) + 1) (written (first ∷ key) v)) ≡ first ∷ key
    unfolding trim
    key_part =
        let rest = 0x3d ∷ 0x3d ∷ 0x20 ∷ quoted v in
        let cut : take (length (first ∷ key) + 1) (written (first ∷ key) v)
            ≡ (first ∷ key) ++ (0x20 ∷ []) =
          ap (take (length (first ∷ key) + 1)) (sym (append_assoc (first ∷ key) (0x20 ∷ []) rest))
          ∙ take-append_exact ((first ∷ key) ++ (0x20 ∷ [])) rest (length (first ∷ key) + 1)
              (omega (arith, length-append (first ∷ key) (0x20 ∷ []))) in
        rw (cut, k.begins) (trim_end-space (first ∷ key) ∙ k.ends)

    value_part : drop (length (first ∷ key) + 1 + 2) (written (first ∷ key) v) ≡ 0x20 ∷ quoted v
    value_part =
        let front = 0x20 ∷ 0x3d ∷ 0x3d ∷ [] in
        ap (drop (length (first ∷ key) + 1 + 2))
          (sym (append_assoc (first ∷ key) front (0x20 ∷ quoted v)))
        ∙ drop-append_exact ((first ∷ key) ++ front) (0x20 ∷ quoted v)
            (length (first ∷ key) + 1 + 2) (omega (arith, length-append (first ∷ key) front))

    operator_at :
        find (0x3d ∷ 0x3d ∷ []) (written (first ∷ key) v) ≡ some (length (first ∷ key) + 1)
    unfolding find
    operator_at = find-append 0x3d (0x3d ∷ []) (first ∷ key) _ 1 k.plain refl

    -- An equality between a key and a quoted text is parsed back to the key and the text, if the key
    -- has no `=` and no spaces at its ends and does not begin a call of similarity, and " AND " stands
    -- nowhere in it.
    pub parse-written :
        starts_with similarity (written (first ∷ key) v) ≡ false
        → find and_word (written (first ∷ key) v) ≡ none
        → parse floats (written (first ∷ key) v)
          ≡ parsed
              (record { key = first ∷ key; op = equal; value = string v; secondary_filters = [] })
    unfolding parse
    parse-written no_call no_and =
        rw
          (
            trim-written,
            split-none and_word (written (first ∷ key) v) no_and,
            trim-written,
            no_call,
          )
          (rw (operator_at, by_operator)
            (rw (value_part, trim_spaced v, parse_quoted v, key_part) refl))
