-- ===== src/Prelude/Texts.antt =====
-- Texts are native strings. The code compares them whole, asks whether they are blank, and prints
-- whole numbers into messages.
use Prim.Native.Nat.{ℕ, zero, suc, ◌/◌, ◌%◌}
use Prim.Native.Char.{Char, code}
use Prim.Native.String
use mathlib.Core.Path.{◌≡◌, refl}
use mathlib.Core.Bool.{Bool, true, false, ◌&&◌, ◌||◌}
use mathlib.Core.List.{List, [], ◌∷◌}
use text.Mathlib.Text.{◌==◌}
use cpp_wiki.Prelude.Tests.{leb, eqb, if◌then◌else◌}
use cpp_wiki.Prelude.Int.{ℤ, pos, negsuc}
pub use Prim.Native.String.{String}

-- Concatenation of texts. (The operator of the lists is `◌++◌`.)
infixr 65 ◌+++◌
abbrev pub ◌+++◌ : String → String → String
s +++ t = String.◌++◌ s t

abbrev pub is_empty : String → Bool
is_empty s = s == ""

-- `std::isspace` in the "C" locale: a space, or one of \t \n \v \f \r.
abbrev pub is_space : Char → Bool
is_space c = eqb (code c) 32 || (leb 9 (code c) && leb (code c) 13)

-- Every character is a space; so the empty text is blank too.
unfoldable pub is_blank : String → Bool
is_blank String.[] = true
is_blank (String.◌∷◌ c s) = is_space c && is_blank s

-- One decimal digit.
digit : ℕ → String
digit d =
    if eqb d 0
    then "0"
    else if eqb d 1
    then "1"
    else if eqb d 2
    then "2"
    else if eqb d 3
    then "3"
    else if eqb d 4
    then "4"
    else if eqb d 5
    then "5"
    else if eqb d 6
    then "6"
    else if eqb d 7
    then "7"
    else if eqb d 8
    then "8"
    else "9"

-- The digits of `n` in front of `rest`; a fuel of `n` is enough, since each round divides by ten.
digits_onto : ℕ → ℕ → String → String
digits_onto zero n rest = digit (n % 10) +++ rest
digits_onto (suc fuel) n rest =
    let more = digits_onto fuel (n / 10) (digit (n % 10) +++ rest) in
    if eqb (n / 10) 0 then digit (n % 10) +++ rest else more

-- `std::to_string` of a signed integer.
unfoldable pub show_ℤ : ℤ → String
unfolding digit digits_onto
show_ℤ (pos n) = digits_onto n n ""
show_ℤ (negsuc n) = "-" +++ digits_onto (suc n) (suc n) ""

show_ℤ_runs : (show_ℤ (pos 0) ≡ "0") × (show_ℤ (pos 2048) ≡ "2048") × (show_ℤ (negsuc 11) ≡ "-12")
unfolding show_ℤ
show_ℤ_runs = (refl, refl, refl)

-- Membership in a list of texts, as `std::find` and `std::unordered_set::contains` compute it.
abbrev pub elem : String → List String → Bool
elem s [] = false
elem s (t ∷ ts) = t == s || elem s ts

-- No text stands twice in the list.
abbrev pub Distinct : List String → Type 0
Distinct [] = Unit
Distinct (s ∷ ss) = (elem s ss ≡ false) × Distinct ss
