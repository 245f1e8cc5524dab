-- ===== src/Prelude/Texts.antt =====
-- A `std::string` is the list of its bytes.
use Prim.Native.Nat.{ℕ, ◌+◌}
use Prim.Native.Char.{code}
use Prim.Native.String.{String}
use mathlib.Core.Path.{◌≡◌, refl, ap₂}
use mathlib.Core.Logic.{◌↔◌}
use mathlib.Core.Bool.{Bool, true, false, ◌&&◌}
use mathlib.Core.List.{List, [], ◌∷◌, ◌++◌, map}
use native.Mathlib.Omega.{arith}
use req_pack_core.Prelude.Tests.{EqTest, if◌then◌else◌, leb, nat_beq}

abbrev pub Text : Type 0
Text = List ℕ

-- A literal's bytes, for an ASCII literal.
abbrev pub codes : String → Text
codes String.[] = []
codes (String.◌∷◌ c s) = code c ∷ codes s

unfoldable pub text_beq : Text → Text → Bool
text_beq [] [] = true
text_beq [] (b ∷ t) = false
text_beq (a ∷ s) [] = false
text_beq (a ∷ s) (b ∷ t) = nat_beq a b && text_beq s t

text_beq_sound : (s t : Text) → text_beq s t ≡ true → s ≡ t
unfolding text_beq
text_beq_sound [] [] h = refl
text_beq_sound [] (b ∷ t) h = cc
text_beq_sound (a ∷ s) [] h = cc
text_beq_sound (a ∷ s) (b ∷ t) h = ground (arith, text_beq_sound s t)

text_beq_refl : (s : Text) → text_beq s s ≡ true
unfolding text_beq
text_beq_refl [] = refl
text_beq_refl (a ∷ s) = ground (arith, text_beq_refl s)

pub text_beq_iff : (s t : Text) → (text_beq s t ≡ true) ↔ (s ≡ t)
text_beq_iff s t = (text_beq_sound s t, λ p. rw p (text_beq_refl t))

instance abbrev pub text_eq : EqTest Text
text_eq = record { same = text_beq; same_iff = text_beq_iff }

-- `std::tolower` in the "C" locale.
unfoldable pub tolower : ℕ → ℕ
tolower c = if leb 65 c && leb c 90 then c + 32 else c

unfoldable pub to_lower_copy : Text → Text
unfolding tolower
to_lower_copy value = map tolower value

pub tolower_idem : (c : ℕ) → tolower (tolower c) ≡ tolower c
unfolding tolower
tolower_idem c = ground arith

-- Lowering twice is lowering once.
pub to_lower_copy_idem : (t : Text) → to_lower_copy (to_lower_copy t) ≡ to_lower_copy t
unfolding to_lower_copy
to_lower_copy_idem [] = refl
to_lower_copy_idem (c ∷ t) = ap₂ (◌∷◌) (tolower_idem c) (to_lower_copy_idem t)

-- `value.rfind(prefix, 0) == 0`
unfoldable pub starts_with : Text → Text → Bool
starts_with value [] = true
starts_with [] (p ∷ prefix) = false
starts_with (c ∷ value) (p ∷ prefix) = nat_beq c p && starts_with value prefix

pub starts_with-append : (prefix rest : Text) → starts_with (prefix ++ rest) prefix ≡ true
unfolding starts_with
starts_with-append [] [] = refl
starts_with-append [] (c ∷ rest) = refl
starts_with-append (p ∷ prefix) rest = ground (arith, starts_with-append prefix rest)
