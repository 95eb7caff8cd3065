-- ===== src/Types/Id.antt =====
-- types/id.go: the JSON form of an ID, a number below 2 ^ 64 that is written as a text. A text is the list
-- of its bytes and is ASCII; encoding/json at a text is an argument.
use uptp.Common.{
  ℕ, ◌+◌, ◌<◌, ◌^◌, ◌≡◌, ◌≢◌, ◌∙◌, ap, refl, arith, Bool, false, ◌||◌, Option, none, some, String,
  List, [], ◌∷◌, ◌++◌, Answer, gives, fails, ok, err, panic, if◌then◌else◌, ◌==◌, nat_eq,
  append-nil,
}
use uptp.Common.Decimal.{
  format_uint, parse_uint, parse_uint-format_uint, is_digit, AllDigits, nil, cons,
  format_uint-AllDigits, format_uint-cons,
}

-- `json.Marshal` and `json.Unmarshal` at a text; B is what a document holds. What is marshalled is read
-- back.
pub record TextJson (B : Type 0) : Type 0 where
  pub marshal : List ℕ → Answer B
  pub unmarshal : B → Answer (List ℕ)
  pub unmarshal-marshal : (s : List ℕ) (v : B) → marshal s ≡ gives v → unmarshal v ≡ gives s

-- The spaces that `fmt.Sscanf` skips; a newline is an error.
abbrev is_space : ℕ → Bool
is_space c = c == 32 || (c == 9 || (c == 11 || (c == 12 || c == 13)))

unfoldable pub skip_space : List ℕ → Answer (List ℕ)
skip_space [] = gives []
skip_space (c ∷ cs) =
    let rest = skip_space cs in
    if c == 10 then fails "unexpected newline" else if is_space c then rest else gives (c ∷ cs)

-- The digits that a text begins with
unfoldable pub leading_digits : List ℕ → List ℕ
leading_digits [] = []
leading_digits (c ∷ cs) = let rest = leading_digits cs in if is_digit c then c ∷ rest else []

-- `fmt.Sscanf(s, "%d", &v)` into a uint64; what follows the digits is not looked at.
unfoldable pub scan_uint : List ℕ → Answer ℕ
scan_uint s = elim (skip_space s) [
  | fails e ↦ fails e
  | gives [] ↦ fails "unexpected EOF"
  | gives (c ∷ cs) ↦ elim (leading_digits (c ∷ cs)) [
    | [] ↦ fails "expected integer"
    | d ∷ ds ↦ elim (parse_uint (d ∷ ds)) [ ok n ↦ gives n | err e ↦ fails e | panic ↦ fails "" ]
  ]
]

-- `String`
unfoldable pub string : ℕ → List ℕ
string id = format_uint id

module _ {B : Type 0} (json : TextJson B) where
  -- `MarshalJSON`
  unfoldable pub marshal_json : ℕ → Answer B
  marshal_json id = json.marshal (string id)

  -- `UnmarshalJSON`: its error, and the ID, which an error leaves as it was.
  unfoldable pub unmarshal_json : B → ℕ → Option String × ℕ
  unmarshal_json v id = elim (json.unmarshal v) [
    | fails e ↦ (some e, id)
    | gives s ↦ elim (scan_uint s) [ fails e ↦ (some e, id) | gives n ↦ (none, n) ]
  ]

-- Whether a text does not begin with a digit.
abbrev pub NotDigits : List ℕ → Type 0
NotDigits [] = Unit {0}
NotDigits (c ∷ cs) = is_digit c ≡ false

leading_digits-append :
    (s rest : List ℕ) → AllDigits s → NotDigits rest → leading_digits (s ++ rest) ≡ s
unfolding leading_digits
leading_digits-append s [] nil h = refl
leading_digits-append s (c ∷ cs) nil h = ground (arith, h)
leading_digits-append s rest (cons d ds b hs) h =
    ground (arith, b, leading_digits-append ds rest hs h)

scan_digits :
    (s rest : List ℕ) (n : ℕ)
    → AllDigits s
    → s ≢ []
    → NotDigits rest
    → parse_uint s ≡ ok n
    → scan_uint (s ++ rest) ≡ gives n
unfolding scan_uint skip_space
scan_digits s rest n nil ne h p = absurd (ne refl)
scan_digits s rest n (cons d ds b hs) ne h p =
    let taken = leading_digits-append ((d + 48) ∷ ds) rest (cons d ds b hs) h in
    ground (arith, b, taken, p)

-- An ID that is written as a text is read back, also where more follows it that does not begin with a
-- digit: what follows is not looked at.
pub unmarshal_json-string :
    {B : Type 0} (json : TextJson B) (id old : ℕ) (rest : List ℕ) (v : B)
    → id < 2 ^ 64
    → NotDigits rest
    → json.marshal (string id ++ rest) ≡ gives v
    → unmarshal_json json v old ≡ (none, id)
unfolding unmarshal_json string
unmarshal_json-string json id old rest v h n m = ground (
  arith,
  json.unmarshal-marshal (format_uint id ++ rest) v m,
  scan_digits (format_uint id) rest id (format_uint-AllDigits id) (format_uint-cons id) n
      (parse_uint-format_uint id h),
)

pub unmarshal-marshal_json :
    {B : Type 0} (json : TextJson B) (id old : ℕ) (v : B)
    → id < 2 ^ 64
    → marshal_json json id ≡ gives v
    → unmarshal_json json v old ≡ (none, id)
unfolding marshal_json
unmarshal-marshal_json json id old v h m =
    unmarshal_json-string json id old [] v h tt (ap json.marshal (append-nil (string id)) ∙ m)
