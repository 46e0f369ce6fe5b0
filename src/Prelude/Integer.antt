-- ===== src/Prelude/Integer.antt =====
-- `parseInt(text, 10)` and `String(number)` on integers, which are exact up to 2 ^ 53.
use Prim.Native.Nat.{ℕ, zero, suc, ◌+◌, ◌-◌, ◌*◌, ◌/◌, ◌%◌, ◌≤◌}
use Prim.Native.String.{String, ◌++◌ as ◌++ˢ◌}
use mathlib.Core.Path.{◌≡◌, refl, sym, ap, ◌∙◌, subst}
use mathlib.Core.Bool.{Bool, true, ◌&&◌, ◌||◌}
use mathlib.Core.Logic.{inl, inr}
use mathlib.Core.Option.{Option, none, some}
use mathlib.Core.List.{List, [], ◌∷◌, ◌++◌}
use native.Mathlib.Omega.{arith}
use text.Mathlib.TextLemmas.{nil-append, cons-append}
use Prim.Native.Char.{code}
use volunteer_training.Prelude.Tests.{ltb, leb, nat_beq, if◌then◌else◌, Bool-cases}
use volunteer_training.Prelude.Int.{ℤ, pos, negsuc}
use volunteer_training.Prelude.Text.{units_of, utf16, digit, decimal_from, decimal}

abbrev pub is_space : ℕ → Bool
is_space c =
    (leb 9 c && leb c 13)
    || nat_beq c 32
    || nat_beq c 0xa0
    || nat_beq c 0x1680
    || (leb 0x2000 c && leb c 0x200a)
    || nat_beq c 0x2028
    || nat_beq c 0x2029
    || nat_beq c 0x202f
    || nat_beq c 0x205f
    || nat_beq c 0x3000
    || nat_beq c 0xfeff

abbrev pub skip_spaces : List ℕ → List ℕ
skip_spaces [] = []
skip_spaces (c ∷ cs) = let rest = skip_spaces cs in if is_space c then rest else c ∷ cs

abbrev pub is_digit : ℕ → Bool
is_digit c = leb 48 c && leb c 57

abbrev pub next_value : Option ℕ → ℕ → ℕ
next_value none c = c - 48
next_value (some n) c = n * 10 + (c - 48)

-- The digits from the start, up to what is no digit; `none` is NaN.
abbrev pub parse_digits : List ℕ → Option ℕ → Option ℕ
parse_digits [] acc = acc
parse_digits (c ∷ cs) acc =
    let rest = parse_digits cs (some (next_value acc c)) in if is_digit c then rest else acc

abbrev pub positive : Option ℕ → Option ℤ
positive none = none
positive (some n) = some (pos n)

abbrev pub negative : Option ℕ → Option ℤ
negative none = none
negative (some zero) = some (pos 0)
negative (some (suc n)) = some (negsuc n)

abbrev pub parse_signed : List ℕ → Option ℤ
parse_signed [] = none
parse_signed (c ∷ cs) =
    if nat_beq c 45
    then negative (parse_digits cs none)
    else if nat_beq c 43
    then positive (parse_digits cs none)
    else positive (parse_digits (c ∷ cs) none)

unfoldable pub parse_int : String → Option ℤ
unfolding utf16
parse_int s = parse_signed (skip_spaces (utf16 s))

unfoldable pub int_text : ℤ → String
unfolding decimal
int_text (pos n) = decimal n
int_text (negsuc n) = "-" ++ˢ decimal (suc n)

units_of-append : (c : ℕ) (xs ys : List ℕ) → units_of c xs ++ ys ≡ units_of c (xs ++ ys)
units_of-append c xs ys = elim (Bool-cases (ltb c 0x10000)) [
  | inl h ↦ rw h refl
  | inr h ↦ rw h refl
]

utf16-append : (s t : String) → utf16 (s ++ˢ t) ≡ utf16 s ++ utf16 t
unfolding utf16
utf16-append String.[] t = ap utf16 (nil-append t)
utf16-append (String.◌∷◌ c s) t =
    ap utf16 (cons-append c s t)
    ∙ ap (units_of (code c)) (utf16-append s t)
    ∙ sym (units_of-append (code c) (utf16 s) (utf16 t))

abbrev all_digits : List ℕ → Bool
all_digits [] = true
all_digits (c ∷ cs) = is_digit c && all_digits cs

-- A list of digits that stands for the number.
abbrev IsDecimal : ℕ → List ℕ → Type 0
IsDecimal n xs = (all_digits xs ≡ true) × (parse_digits xs none ≡ some n)

digit_lem : (n : ℕ) → n ≤ 9 → utf16 (digit n) ≡ (48 + n) ∷ []
unfolding utf16
digit_lem zero h = refl
digit_lem (suc zero) h = refl
digit_lem (suc (suc zero)) h = refl
digit_lem (suc (suc (suc zero))) h = refl
digit_lem (suc (suc (suc (suc zero)))) h = refl
digit_lem (suc (suc (suc (suc (suc zero))))) h = refl
digit_lem (suc (suc (suc (suc (suc (suc zero)))))) h = refl
digit_lem (suc (suc (suc (suc (suc (suc (suc zero))))))) h = refl
digit_lem (suc (suc (suc (suc (suc (suc (suc (suc zero)))))))) h = refl
digit_lem (suc (suc (suc (suc (suc (suc (suc (suc (suc n))))))))) h =
    let none_left : n ≡ 0 = omega arith in rw none_left refl

digit-IsDecimal : (n : ℕ) → n ≤ 9 → IsDecimal n (utf16 (digit n))
digit-IsDecimal n h = rw (digit_lem n h) (ground (arith, h), ground (arith, h))

parse_digits-append :
    (xs ys : List ℕ) (acc : Option ℕ)
    → all_digits xs ≡ true
    → parse_digits (xs ++ ys) acc ≡ parse_digits ys (parse_digits xs acc)
parse_digits-append [] ys acc h = refl
parse_digits-append (c ∷ cs) ys acc h =
    ground (arith, h, parse_digits-append cs ys (some (next_value acc c)))

all_digits-append : (xs ys : List ℕ) → all_digits (xs ++ ys) ≡ (all_digits xs && all_digits ys)
all_digits-append [] ys = refl
all_digits-append (c ∷ cs) ys = ground (arith, all_digits-append cs ys)

snoc-IsDecimal :
    (m d : ℕ) (xs : List ℕ) → IsDecimal m xs → d ≤ 9 → IsDecimal (m * 10 + d) (xs ++ (48 + d) ∷ [])
snoc-IsDecimal m d xs (all, value) h =
    let last : is_digit (48 + d) ≡ true = ground (arith, h) in
    let sum : m * 10 + (48 + d - 48) ≡ m * 10 + d = omega arith in
    (
      all_digits-append xs ((48 + d) ∷ []) ∙ ground (arith, all, last),
      parse_digits-append xs ((48 + d) ∷ []) none all
          ∙ ap (parse_digits ((48 + d) ∷ [])) value
          ∙ rw last (ap some sum),
    )

decimal_from-IsDecimal : (f n : ℕ) → n ≤ f → IsDecimal n (utf16 (decimal_from f n))
unfolding decimal_from
decimal_from-IsDecimal zero n h = digit-IsDecimal n (omega arith)
decimal_from-IsDecimal (suc f) n h = elim (Bool-cases (ltb n 10)) [
  | inl one ↦ rw one (digit-IsDecimal n (ground arith))
  | inr more ↦ rw more (
      let text =
        utf16-append (decimal_from f (n / 10)) (digit (n % 10))
        ∙ ap (λ l. utf16 (decimal_from f (n / 10)) ++ l) (digit_lem (n % 10) (omega arith)) in
      let big : 10 ≤ n = ground arith in
      let whole : n / 10 * 10 + n % 10 ≡ n = omega arith in
      rw text (
        subst (λ k. IsDecimal k (utf16 (decimal_from f (n / 10)) ++ (48 + n % 10) ∷ [])) whole
          (snoc-IsDecimal (n / 10) (n % 10) (utf16 (decimal_from f (n / 10)))
            (decimal_from-IsDecimal f (n / 10) (omega (arith, h, big))) (omega arith))))
]

skip_spaces-digits : (xs : List ℕ) → all_digits xs ≡ true → skip_spaces xs ≡ xs
skip_spaces-digits [] h = refl
skip_spaces-digits (c ∷ cs) h = ground (arith, h)

parse_signed-digits :
    (xs : List ℕ) → all_digits xs ≡ true → parse_signed xs ≡ positive (parse_digits xs none)
parse_signed-digits [] h = refl
parse_signed-digits (c ∷ cs) h = ground (arith, h)

decimal-IsDecimal : (n : ℕ) → IsDecimal n (utf16 (decimal n))
unfolding decimal
decimal-IsDecimal n = decimal_from-IsDecimal n n (omega arith)

-- A printed integer reads as itself.
pub parse_int-int_text : (z : ℤ) → parse_int (int_text z) ≡ some z
unfolding parse_int int_text
parse_int-int_text (pos n) =
    let (all, value) = decimal-IsDecimal n in
    ap parse_signed (skip_spaces-digits (utf16 (decimal n)) all)
    ∙ parse_signed-digits (utf16 (decimal n)) all
    ∙ ap positive value
parse_int-int_text (negsuc n) =
    let (all, value) = decimal-IsDecimal (suc n) in
    ap (λ l. parse_signed (skip_spaces l)) (utf16-append "-" (decimal (suc n))) ∙ ap negative value
