-- ===== src/Prelude/Equality.antt =====
-- One Boolean equality test for every type that the program compares.
use Prim.Native.Nat.{ℕ}
use Prim.Native.String.{String}
use mathlib.Core.Path.{◌≡◌, refl}
use mathlib.Core.Bool.{Bool, true, false}
use mathlib.Core.Option.{Option, none, some}
use native.Mathlib.Omega.{arith}
use text.Mathlib.Text.{◌==◌ as str_eq}
use text.Mathlib.TextEquality.{eq_iff}
use workato_take_home.Prelude.Tests.{eqb, eqb_iff}

-- A Boolean test of two values that holds of equal ones alone.
pub record Comparable {ℓ} (T : Type ℓ) : Type ℓ where
  pub matches : T → T → Bool
  pub sound : (x y : T) → matches x y ≡ true → x ≡ y
  pub reflexive : (x : T) → matches x x ≡ true

infix 50 ◌==◌
abbrev pub ◌==◌ {ℓ} : {T : Type ℓ} ⦃c : Comparable T⦄ → T → T → Bool
◌==◌ ⦃c⦄ = c.matches

instance abbrev pub string_eq : Comparable String
string_eq = record {
  matches = str_eq;
  sound = λ s t. (eq_iff s t).0;
  reflexive = λ s. (eq_iff s s).1 refl;
}

instance abbrev pub nat_eq : Comparable ℕ
nat_eq = record {
  matches = eqb;
  sound = λ m n. (eqb_iff m n).0;
  reflexive = λ n. (eqb_iff n n).1 refl;
}

-- An enumeration, by the positions of its members.
abbrev pub by_index {ℓ} :
    {T : Type ℓ} (index : T → ℕ) → ((s t : T) → index s ≡ index t → s ≡ t) → Comparable T
by_index index injective = record {
  matches = λ s t. eqb (index s) (index t);
  sound = λ s t h. injective s t ((eqb_iff (index s) (index t)).0 h);
  reflexive = λ s. (eqb_iff (index s) (index s)).1 refl;
}

module _ {ℓ} {A : Type ℓ} ⦃c : Comparable A⦄ where
  abbrev pub option_eq : Option A → Option A → Bool
  option_eq none none = true
  option_eq (some a) (some b) = a == b
  option_eq _ _ = false

  -- SQL `o = a`: null is equal to nothing.
  abbrev pub holds_value : Option A → A → Bool
  holds_value none b = false
  holds_value (some a) b = a == b

  pub ==_refl : (a : A) → (a == a) ≡ true
  ==_refl a = c.reflexive a

  pub ==→≡ : (a b : A) → (a == b) ≡ true → a ≡ b
  ==→≡ a b h = c.sound a b h

  pub holds_value→≡ : (o : Option A) (a : A) → holds_value o a ≡ true → o ≡ some a
  holds_value→≡ none a h = ground arith
  holds_value→≡ (some b) a h = ground (arith, ==→≡ b a)
