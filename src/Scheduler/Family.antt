-- ===== src/Scheduler/Family.antt =====
-- The vectors that a run indexes by group: a function and the number of groups.
use req_pack_core.Prelude.{
  ◌++◌, ℕ, zero, suc, ◌+◌, ◌≤◌, ◌<◌, false, ◌==◌, nat_eq, nat_beq_iff, if◌then◌else◌, ◌≡◌, refl, ap,
  arith, Bool-cases, inl, inr, List, [], ◌∷◌,
}

-- `v[i] = a`
abbrev pub update {ℓ} : {A : Type ℓ} → (ℕ → A) → ℕ → A → ℕ → A
update v i a j = if i == j then a else v j

-- How often a number stands in a list.
unfoldable pub count : ℕ → List ℕ → ℕ
count a [] = 0
count a (b ∷ bs) = (if b == a then 1 else 0) + count a bs

-- The sum of the first values of a vector.
unfoldable pub total : ℕ → (ℕ → ℕ) → ℕ
total zero f = 0
total (suc n) f = total n f + f n

pub total_zero : (n : ℕ) (f : ℕ → ℕ) → total n f ≡ 0 → (p : ℕ) → p < n → f p ≡ 0
unfolding total
total_zero zero f e p h = elim h [ ]
total_zero (suc n) f e p h = elim (Bool-cases (p == n)) [
  | inl same ↦ rw ((nat_beq_iff p n).0 same) (omega arith)
  | inr other ↦ total_zero n f (omega arith) p (ground arith)
]

total_beyond :
    (n : ℕ) (f g : ℕ → ℕ) (p : ℕ)
    → ((q : ℕ) → (p == q) ≡ false → g q ≡ f q)
    → n ≤ p
    → total n g ≡ total n f
unfolding total
total_beyond zero f g p same h = refl
total_beyond (suc n) f g p same h =
    omega (arith, total_beyond n f g p same (omega arith), same n (ground arith))

-- Two sums that differ at one place.
pub total_step :
    (n : ℕ) (f g : ℕ → ℕ) (p : ℕ)
    → ((q : ℕ) → (p == q) ≡ false → g q ≡ f q)
    → g p ≡ 0
    → p < n
    → total n g + f p ≡ total n f
unfolding total
total_step zero f g p same gone h = elim h [ ]
total_step (suc n) f g p same gone h = elim (Bool-cases (p == n)) [
  | inl last ↦
      let e : p ≡ n = (nat_beq_iff p n).0 last in
      omega (arith, total_beyond n f g p same (omega arith), rw e at gone, ap f e)
  | inr other ↦ omega (arith, total_step n f g p same gone (ground arith), same n other)
]

-- Two sums that differ by one at one place.
pub total_more :
    (n : ℕ) (f g : ℕ → ℕ) (p : ℕ)
    → ((q : ℕ) → (p == q) ≡ false → g q ≡ f q)
    → g p ≡ f p + 1
    → p < n
    → total n g ≡ total n f + 1
unfolding total
total_more zero f g p same more h = elim h [ ]
total_more (suc n) f g p same more h = elim (Bool-cases (p == n)) [
  | inl last ↦
      let e : p ≡ n = (nat_beq_iff p n).0 last in
      omega (arith, total_beyond n f g p same (omega arith), rw e at more)
  | inr other ↦ omega (arith, total_more n f g p same more (ground arith), same n other)
]

pub total_same : (n : ℕ) (f g : ℕ → ℕ) → ((q : ℕ) → g q ≡ f q) → total n g ≡ total n f
unfolding total
total_same zero f g same = refl
total_same (suc n) f g same = omega (arith, total_same n f g same, same n)

pub total_of_zero : (n : ℕ) → total n (λ p. 0) ≡ 0
unfolding total
total_of_zero zero = refl
total_of_zero (suc n) = omega (arith, total_of_zero n)

pub count-append :
    (j : ℕ) (xs : List ℕ) (t : ℕ)
    → count j (xs ++ (t ∷ [])) ≡ count j xs + (if t == j then 1 else 0)
unfolding count
count-append j [] t = omega arith
count-append j (x ∷ xs) t = omega (arith, count-append j xs t)
