-- ===== src/State/Fields/Escaping.antt =====
-- Escaped values are one line each, and are read back.
use req_pack_core.Prelude.{
  ℕ, true, false, not, ◌==◌, ◌≡◌, refl, ap, sym, ◌∙◌, nat_eq, Text, text_eq, [], ◌∷◌, ◌++◌, Option,
  none, some, all_of, All, append-nil, Bool-cases, inl, inr, nat_beq_iff,
}
use req_pack_core.State.Fields.{
  split_first, add_to_split, unescape_at, unescape_from, transaction_database_escape_field,
  transaction_database_unescape_field,
}

-- No byte of the text is the given one.
abbrev pub Without : ℕ → Text → Type 0
Without byte = All (λ c. (c == byte) ≡ false)

-- To check a literal.
pub all_of-Without : (byte : ℕ) (t : Text) → all_of (λ c. not (c == byte)) t ≡ true → Without byte t
unfolding all_of
all_of-Without byte [] h = tt
all_of-Without byte (c ∷ t) h = elim (Bool-cases (c == byte)) [
  | inl e ↦ cc
  | inr e ↦ (e, all_of-Without byte t (rw e at h))
]

unescape_from_plain :
    (c : ℕ) (t : Text) → (c == 92) ≡ false → unescape_from false (c ∷ t) ≡ c ∷ unescape_from false t
unfolding unescape_from
unescape_from_plain c t e = rw e

-- The loop undoes the escaping, and goes on behind it.
pub unescape_from-escape :
    (value rest : Text)
    → unescape_from false (transaction_database_escape_field value ++ rest)
      ≡ value ++ unescape_from false rest
unfolding transaction_database_escape_field unescape_from
unescape_from-escape [] rest = refl
unescape_from-escape (c ∷ value) rest = elim (Bool-cases (c == 92)) [
  | inl e ↦ rw ((nat_beq_iff c 92).0 e) (ap (◌∷◌ 92) (unescape_from-escape value rest))
  | inr e ↦ elim (Bool-cases (c == 10)) [
    | inl f ↦ rw ((nat_beq_iff c 10).0 f) (ap (◌∷◌ 10) (unescape_from-escape value rest))
    | inr f ↦ rw (e, f) (unescape_from_plain c _ e ∙ ap (◌∷◌ c) (unescape_from-escape value rest))
  ]
]

unescape_at-add :
    (c : ℕ) (value : Text) (o : Option (Text × Text))
    → unescape_at (c ∷ value) (add_to_split c o) ≡ c ∷ unescape_at value o
unfolding unescape_at add_to_split
unescape_at-add c value none = refl
unescape_at-add c value (some (before, behind)) = refl

unescape_at-split :
    (value : Text) → unescape_at value (split_first 92 value) ≡ unescape_from false value
unfolding split_first
unescape_at-split [] = unfold unescape_at unescape_from in refl
unescape_at-split (c ∷ value) = elim (Bool-cases (c == 92)) [
  | inl e ↦ rw ((nat_beq_iff c 92).0 e) (unfold unescape_at in refl)
  | inr e ↦
      rw (e, unescape_at-add c value (split_first 92 value), unescape_at-split value)
        (sym (unescape_from_plain c value e))
]

-- The search for the first backslash only saves work: the result is that of the loop over the whole
-- value.
pub unescape-eq-unescape_from :
    (value : Text) → transaction_database_unescape_field value ≡ unescape_from false value
unfolding transaction_database_unescape_field
unescape-eq-unescape_from value = unescape_at-split value

-- Every value is read back from its escaped form.
pub unescape-escape :
    (value : Text)
    → transaction_database_unescape_field (transaction_database_escape_field value) ≡ value
unfolding unescape_from
unescape-escape value =
    unescape-eq-unescape_from (transaction_database_escape_field value)
    ∙ rw (append-nil, append-nil) at (unescape_from-escape value [])

-- An escaped value has no line break.
pub escape-Without : (value : Text) → Without 10 (transaction_database_escape_field value)
unfolding transaction_database_escape_field
escape-Without [] = tt
escape-Without (c ∷ value) = elim (Bool-cases (c == 10)) [
  | inl f ↦ rw ((nat_beq_iff c 10).0 f) (refl, (refl, escape-Without value))
  | inr f ↦ elim (Bool-cases (c == 92)) [
    | inl e ↦ rw ((nat_beq_iff c 92).0 e) (refl, (refl, escape-Without value))
    | inr e ↦ rw (e, f) (f, escape-Without value)
  ]
]

-- Bytes other than the two that are escaped stay as they are.
pub unescape-plain :
    (value : Text) → Without 92 value → transaction_database_unescape_field value ≡ value
unfolding unescape_from
unescape-plain value h = unescape-eq-unescape_from value ∙ loop value h
  where
    loop : (t : Text) → Without 92 t → unescape_from false t ≡ t
    loop [] h = refl
    loop (c ∷ t) h = unescape_from_plain c t h.0 ∙ ap (◌∷◌ c) (loop t h.1)
