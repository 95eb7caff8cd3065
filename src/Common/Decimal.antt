-- ===== src/Common/Decimal.antt =====
-- `strconv.FormatUint(n, 10)`, `strconv.ParseUint(s, 10, 64)` and `strconv.Atoi` on bytes.
use uptp.Common.Tests.{Bool-cases, Result, ok, err, ltb, leb, nat_beq, if◌then◌else◌}
use uptp.Common.Int.{ℤ, pos, negsuc}
use Prim.Native.String.{String, ◌++◌ as append}
use Prim.Native.Nat.{ℕ, zero, suc, ◌+◌, ◌-◌, ◌*◌, ◌/◌, ◌%◌, ◌^◌, ◌≤◌, ◌<◌}
use mathlib.Core.Path.{◌≡◌, refl, ap, ◌∙◌}
use mathlib.Core.Bool.{Bool, true, false, ◌&&◌}
use mathlib.Core.List.{List, [], ◌∷◌}
use mathlib.Core.Option.{Option, none, some}
use mathlib.Core.Logic.{◌≢◌, inl, inr}
use native.Mathlib.Nat.{pow-suc}
use native.Mathlib.Omega.{arith}

-- The decimal digits of `n` before `acc`, for at most `fuel` digits.
unfoldable pub format_loop : ℕ → ℕ → List ℕ → List ℕ
format_loop zero n acc = acc
format_loop (suc fuel) n acc =
    let digit = n % 10 + 48 in
    let rest = format_loop fuel (n / 10) (digit ∷ acc) in if ltb n 10 then digit ∷ acc else rest

-- A uint64 has at most 20 digits.
unfoldable pub format_uint : ℕ → List ℕ
format_uint n = format_loop 20 n []

abbrev pub is_digit : ℕ → Bool
is_digit c = leb 48 c && leb c 57

-- How the loop of `ParseUint` ends: at a byte that is no digit, past the largest uint64, or at the
-- end of the text.
pub data Parsed : Type 0 where
  bad_syntax out_of_range : Parsed
  valid : ℕ → Parsed

unfoldable pub parse_loop : ℕ → List ℕ → Parsed
parse_loop n [] = valid n
parse_loop n (c ∷ cs) =
    let next = n * 10 + (c - 48) in
    let rest = parse_loop next cs in
    if is_digit c then (if ltb next (2 ^ 64) then rest else out_of_range) else bad_syntax

unfoldable pub parse_digits : List ℕ → Parsed
parse_digits [] = bad_syntax
parse_digits (c ∷ cs) = parse_loop 0 (c ∷ cs)

-- Of a range error no caller reads the number.
abbrev uint_result : Parsed → Result ℕ
uint_result bad_syntax = err "invalid syntax"
uint_result out_of_range = err "value out of range"
uint_result (valid n) = ok n

unfoldable pub parse_uint : List ℕ → Result ℕ
unfolding parse_digits
parse_uint s = uint_result (parse_digits s)

abbrev signed : Bool → Parsed → ℤ × Option String
signed minus bad_syntax = (pos 0, some "invalid syntax")
signed false out_of_range = (pos (2 ^ 63 - 1), some "value out of range")
signed true out_of_range = (negsuc (2 ^ 63 - 1), some "value out of range")
signed false (valid n) =
    if ltb n (2 ^ 63) then (pos n, none) else (pos (2 ^ 63 - 1), some "value out of range")
signed true (valid zero) = (pos 0, none)
signed true (valid (suc n)) =
    if ltb n (2 ^ 63) then (negsuc n, none) else (negsuc (2 ^ 63 - 1), some "value out of range")

-- The number and the error of `Atoi` with 64-bit ints; beside an error the number is 0 or the
-- nearest int.
unfoldable pub atoi : List ℕ → ℤ × Option String
unfolding parse_digits parse_loop
atoi [] = signed false bad_syntax
atoi (c ∷ cs) =
    if nat_beq c b'-'
    then signed true (parse_digits cs)
    else if nat_beq c b'+'
    then signed false (parse_digits cs)
    else signed false (parse_digits (c ∷ cs))

pub data AllDigits : List ℕ → Type 0 where
  nil : AllDigits []
  cons : (d : ℕ) (ds : List ℕ) → d < 10 → AllDigits ds → AllDigits ((d + 48) ∷ ds)

-- The number that digits make behind `n`.
unfoldable pub value : ℕ → List ℕ → ℕ
value n [] = n
value n (c ∷ cs) = value (n * 10 + (c - 48)) cs

le-value : (n : ℕ) (s : List ℕ) → AllDigits s → n ≤ value n s
unfolding value
le-value n s nil = omega arith
le-value n s (cons d ds h hs) = omega (arith, le-value (n * 10 + (d + 48 - 48)) ds hs)

parse_loop-value :
    (n : ℕ) (s : List ℕ) → AllDigits s → value n s < 2 ^ 64 → parse_loop n s ≡ valid (value n s)
unfolding parse_loop value
parse_loop-value n s nil lt = refl
parse_loop-value n s (cons d ds h hs) lt = ground (
  arith,
  parse_loop-value (n * 10 + (d + 48 - 48)) ds hs,
  le-value (n * 10 + (d + 48 - 48)) ds hs,
)

format_loop-value :
    (fuel n : ℕ) (acc : List ℕ) → n < 10 ^ fuel → value 0 (format_loop fuel n acc) ≡ value n acc
unfolding value format_loop
format_loop-value zero n acc h = let e : n ≡ 0 = omega arith in rw e
format_loop-value (suc fuel) n acc h =
    ground (arith, format_loop-value fuel (n / 10) ((n % 10 + 48) ∷ acc), pow-suc 10 fuel)

format_loop-AllDigits :
    (fuel n : ℕ) (acc : List ℕ) → AllDigits acc → AllDigits (format_loop fuel n acc)
unfolding format_loop
format_loop-AllDigits zero n acc h = h
format_loop-AllDigits (suc fuel) n acc h =
    let digit : AllDigits ((n % 10 + 48) ∷ acc) = cons (n % 10) acc (omega arith) h in
    elim (Bool-cases (ltb n 10)) [
      | inl e ↦ rw e digit
      | inr e ↦ rw e (format_loop-AllDigits fuel (n / 10) _ digit)
    ]

ok_of_digits :
    (s : List ℕ) (n : ℕ) → s ≢ [] → AllDigits s → value 0 s ≡ n → n < 2 ^ 64 → parse_uint s ≡ ok n
unfolding parse_uint
ok_of_digits [] n ne h e lt = absurd (ne refl)
ok_of_digits (c ∷ cs) n ne h e lt =
    ap uint_result (parse_loop-value 0 (c ∷ cs) h (rw e lt) ∙ ap valid e)

format_loop-cons : (fuel n d : ℕ) (acc : List ℕ) → format_loop fuel n (d ∷ acc) ≢ []
unfolding format_loop
format_loop-cons zero n d acc e = cc
format_loop-cons (suc fuel) n d acc e = elim (Bool-cases (ltb n 10)) [
  | inl b ↦ let e' : (n % 10 + 48) ∷ d ∷ acc ≡ [] = rw b at e in cc
  | inr b ↦
      let e' : format_loop fuel (n / 10) ((n % 10 + 48) ∷ d ∷ acc) ≡ [] = rw b at e in
      absurd (format_loop-cons fuel (n / 10) _ _ e')
]

pub format_uint-cons : (n : ℕ) → format_uint n ≢ []
unfolding format_uint format_loop
format_uint-cons n e = elim (Bool-cases (ltb n 10)) [
  | inl b ↦ let e' : (n % 10 + 48) ∷ [] ≡ [] = rw b at e in cc
  | inr b ↦
      let e' : format_loop 19 (n / 10) ((n % 10 + 48) ∷ []) ≡ [] = rw b at e in
      absurd (format_loop-cons 19 (n / 10) _ _ e')
]

pub format_uint-AllDigits : (n : ℕ) → AllDigits (format_uint n)
unfolding format_uint
format_uint-AllDigits n = format_loop-AllDigits 20 n [] nil

-- The parser reads back every uint64 that was formatted.
pub parse_uint-format_uint : (n : ℕ) → n < 2 ^ 64 → parse_uint (format_uint n) ≡ ok n
unfolding format_uint
parse_uint-format_uint n h =
    ok_of_digits (format_loop 20 n []) n (format_uint-cons n) (format_loop-AllDigits 20 n [] nil)
      (format_loop-value 20 n [] (omega arith) ∙ (unfold value in refl)) h

parse_digits_valid :
    (s : List ℕ) (n : ℕ)
    → s ≢ []
    → AllDigits s
    → value 0 s ≡ n
    → n < 2 ^ 64
    → parse_digits s ≡ valid n
unfolding parse_digits
parse_digits_valid [] n ne h e lt = absurd (ne refl)
parse_digits_valid (c ∷ cs) n ne h e lt = parse_loop-value 0 (c ∷ cs) h (rw e lt) ∙ ap valid e

atoi_digits :
    (s : List ℕ) (n : ℕ)
    → AllDigits s
    → parse_digits s ≡ valid n
    → n < 2 ^ 63
    → atoi s ≡ (pos n, none)
unfolding atoi
atoi_digits s n nil v lt = absurd (unfold parse_digits in ground (arith, v))
atoi_digits s n (cons d ds h hs) v lt = ground (arith, v, h, lt)

-- `Atoi` reads back every int that is not negative and was formatted.
pub atoi-format_uint : (n : ℕ) → n < 2 ^ 63 → atoi (format_uint n) ≡ (pos n, none)
unfolding format_uint
atoi-format_uint n h =
    let digits = format_loop-AllDigits 20 n [] nil in
    atoi_digits (format_loop 20 n []) n digits
      (parse_digits_valid (format_loop 20 n []) n (format_uint-cons n) digits
        (format_loop-value 20 n [] (omega arith) ∙ (unfold value in refl)) (omega arith))
      h

abbrev digit_text : ℕ → String
digit_text zero = "0"
digit_text (suc zero) = "1"
digit_text (suc (suc zero)) = "2"
digit_text (suc (suc (suc zero))) = "3"
digit_text (suc (suc (suc (suc zero)))) = "4"
digit_text (suc (suc (suc (suc (suc zero))))) = "5"
digit_text (suc (suc (suc (suc (suc (suc zero)))))) = "6"
digit_text (suc (suc (suc (suc (suc (suc (suc zero))))))) = "7"
digit_text (suc (suc (suc (suc (suc (suc (suc (suc zero)))))))) = "8"
digit_text _ = "9"

abbrev digits_text : List ℕ → String
digits_text [] = ""
digits_text (c ∷ cs) = append (digit_text (c - 48)) (digits_text cs)

-- `strconv.Itoa`
unfoldable pub format_int_bytes : ℤ → List ℕ
unfolding format_uint format_loop
format_int_bytes (pos n) = format_uint n
format_int_bytes (negsuc n) = b'-' ∷ format_uint (n + 1)

-- `%d` of an int
unfoldable pub format_int : ℤ → String
unfolding format_uint format_loop
format_int (pos n) = digits_text (format_uint n)
format_int (negsuc n) = append "-" (digits_text (format_uint (n + 1)))
