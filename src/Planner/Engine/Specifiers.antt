-- ===== src/Planner/Engine/Specifiers.antt =====
-- Package specifiers: `name` and `name@version`.
use req_pack_core.Prelude.{
  ℕ, zero, suc, ◌+◌, ◌-◌, ◌<◌, false, ◌||◌, ◌==◌, if◌then◌else◌, nat_eq, Text, text_eq, [], ◌∷◌,
  ◌++◌, length, length-append, take, drop, is_empty, All, Option, none, some, ◌≡◌, ◌≢◌, refl, ap,
  arith, Bool-cases, inl, inr, sym, Option-cases,
}
use native.Mathlib.Numerals.{add-one}
use req_pack_core.Types.{Package, Request}
use req_pack_core.Planner.Engine.{
  rfind_at, split_at, split_specifier, planner_make_requested_package,
  planner_package_specifier_from_package,
}

-- No byte of the text is an at sign.
abbrev pub NoAt : Text → Type 0
NoAt = All (λ c. (c == b'@') ≡ false)

rfind_at-split :
    (s : Text) (i : ℕ)
    → rfind_at s ≡ some i
    → (s ≡ take i s ++ (b'@' ∷ drop (i + 1) s)) × (i < length s)
unfolding rfind_at
rfind_at-split [] i h = cc
rfind_at-split (c ∷ rest) i h = elim (Option-cases (rfind_at rest)) [
  | inl e ↦
      let at_sign : c ≡ b'@' = ground arith in
      let first : i ≡ 0 = ground arith in rw (first, at_sign) (refl, omega arith)
  | inr (j, e) ↦
      let later : i ≡ suc j = ground arith in
      let (parts, below) = rfind_at-split rest j e in
      rw (later, add-one) (ap (◌∷◌ c) (rw add-one at parts), omega arith)
]

rfind_at-none : (s : Text) → NoAt s → rfind_at s ≡ none
unfolding rfind_at
rfind_at-none [] h = refl
rfind_at-none (c ∷ rest) h = rw (rfind_at-none rest h.1, h.0) refl

rfind_at-append :
    (name version : Text) → NoAt version → rfind_at (name ++ (b'@' ∷ version)) ≡ some (length name)
unfolding rfind_at
rfind_at-append [] version h = rw (rfind_at-none version h) refl
rfind_at-append (c ∷ name) version h = rw (rfind_at-append name version h) (ground arith)

drop-ne_nil : (n : ℕ) (s : Text) → n < length s → is_empty (drop n s) ≡ false
drop-ne_nil n [] h = elim h [ ]
drop-ne_nil zero (c ∷ s) h = refl
drop-ne_nil (suc n) (c ∷ s) h = drop-ne_nil n s (omega arith)

abbrev join : Text × Text → Text
join (name, version) = if is_empty version then name else name ++ (b'@' ∷ version)

split_at-join : (s : Text) (o : Option ℕ) → rfind_at s ≡ o → join (split_at s o) ≡ s
unfolding split_at
split_at-join s none e = refl
split_at-join s (some i) e = elim (Bool-cases (i == 0 || i == length s - 1)) [
  | inl edge ↦ rw edge refl
  | inr inner ↦
      let (parts, below) = rfind_at-split s i e in
      let rest : i + 1 < length s = ground arith in
      rw (inner, drop-ne_nil (i + 1) s rest) (sym parts)
]

-- Whatever the specifier, the package made from it is written back as that specifier.
pub specifier-make_requested :
    (request : Request) (system specifier : Text)
    → planner_package_specifier_from_package
        (planner_make_requested_package request system specifier)
      ≡ specifier
unfolding planner_make_requested_package planner_package_specifier_from_package
specifier-make_requested request system specifier = split_at-join specifier _ refl

-- What a name must be to be read back when no version follows: its last at sign, if any, comes
-- first, as in a scoped name.
abbrev pub IsName : Text → Type 0
IsName [] = Unit
IsName (c ∷ name) = NoAt name

split_specifier-name : (name : Text) → IsName name → split_specifier name ≡ (name, [])
unfolding split_specifier rfind_at
split_specifier-name [] h = refl
split_specifier-name (c ∷ name) h = elim (Bool-cases (c == b'@')) [
  | inl at_sign ↦ rw (rfind_at-none name h, split_at, at_sign) refl
  | inr other ↦ rw (rfind_at-none name h, split_at, other) refl
]

take-append : (name rest : Text) → take (length name) (name ++ rest) ≡ name
take-append [] rest = refl
take-append (c ∷ name) rest = ap (◌∷◌ c) (take-append name rest)

drop-append :
    (name : Text) (c : ℕ) (rest : Text) → drop (length name + 1) (name ++ (c ∷ rest)) ≡ rest
drop-append [] c rest = refl
drop-append (b ∷ name) c rest = rw add-one (rw add-one at (drop-append name c rest))

split_specifier-versioned :
    (name version : Text)
    → name ≢ []
    → version ≢ []
    → NoAt version
    → split_specifier (name ++ (b'@' ∷ version)) ≡ (name, version)
unfolding split_specifier
split_specifier-versioned [] version named versioned plain = absurd (named refl)
split_specifier-versioned name [] named versioned plain = absurd (versioned refl)
split_specifier-versioned (c ∷ name) (d ∷ version) named versioned plain =
    let size = length-append (c ∷ name) (b'@' ∷ d ∷ version) in
    let inner : (length (c ∷ name) == 0
          || length (c ∷ name) == length (c ∷ name ++ (b'@' ∷ d ∷ version)) - 1)
        ≡ false =
      ground (arith, size) in
    rw (rfind_at-append (c ∷ name) (d ∷ version) plain, split_at, inner)
      (rw (take-append (c ∷ name) (b'@' ∷ d ∷ version), drop-append (c ∷ name) b'@' (d ∷ version))
        refl)

-- What a package needs to be asked for by its specifier.
abbrev pub IsSpecifiable : Text → Text → Type 0
IsSpecifiable name [] = IsName name
IsSpecifiable name (c ∷ version) = (name ≢ []) × NoAt (c ∷ version)

split_specifier-join :
    (name version : Text)
    → IsSpecifiable name version
    → split_specifier (join (name, version)) ≡ (name, version)
split_specifier-join name [] h = split_specifier-name name h
split_specifier-join name (c ∷ version) h =
    split_specifier-versioned name (c ∷ version) h.0 (λ e. cc) h.1

-- The specifier of a package that is no local target is read back as the package's name and
-- version, if the version has no at sign and stands behind a name, or if there is no version and
-- the name has no at sign behind its first byte.
pub make_requested-specifier :
    (request : Request) (system : Text) (p : Package)
    → p.local_target ≡ false
    → IsSpecifiable p.name p.version
    → let made =
        planner_make_requested_package request system (planner_package_specifier_from_package p) in
      (made.name ≡ p.name) × (made.version ≡ p.version)
unfolding planner_make_requested_package planner_package_specifier_from_package
make_requested-specifier request system p remote h =
    rw remote
      (let e = split_specifier-join p.name p.version h in (ap (λ s. s.0) e, ap (λ s. s.1) e))
