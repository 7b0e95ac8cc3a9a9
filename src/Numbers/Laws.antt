-- ===== src/Numbers/Laws.antt =====
-- What getNum(), getLong() and getInt() accept, and what they return.
use bookcode_linux.Common.{
  ℕ, ◌+◌, ◌*◌, ◌^◌, ◌<◌, ◌≡◌, refl, Bool, true, false, not, ◌&&◌, Option, none, some, List, [], ◌∷◌,
  Bytes, ◌++◌, Lacks, append-nil, ap, sym, ◌∙◌, ◌==◌, ltb, if◌then◌else◌, arith, if_rule, subst,
  Option-cases, inl, inr,
}
use bookcode_linux.Common.Int.{ℤ, pos}
use bookcode_linux.Numbers.Strtol.{Parsed, strtol, digits, digit, is_space, starts_digit}
use bookcode_linux.Numbers.{
  get_num, get_int, gn_nonneg, gn_gt_0, has_flag, base_of, checked, is_negative, is_positive,
  is_int, is_empty,
}

-- A decimal numeral, and its value after a value read so far.
abbrev pub AllDigits : List ℕ → Type 0
AllDigits [] = Unit
AllDigits (d ∷ ds) = (d < 10) × AllDigits ds

abbrev pub numeral : List ℕ → Bytes
numeral [] = []
numeral (d ∷ ds) = (b'0' + d) ∷ numeral ds

abbrev pub decimal : ℕ → List ℕ → ℕ
decimal acc [] = acc
decimal acc (d ∷ ds) = decimal (acc * 10 + d) ds

digit-numeral : (d : ℕ) → d < 10 → digit (b'0' + d) ≡ d
digit-numeral d h = ground arith

below : (d : ℕ) → d < 10 → ltb d 10 ≡ true
below d h = ground arith

digits-numeral :
    (acc : ℕ) (ds : List ℕ) (rest : Bytes)
    → AllDigits ds
    → starts_digit 10 rest ≡ false
    → digits 10 acc (numeral ds ++ rest) ≡ (decimal acc ds, rest)
unfolding digits
digits-numeral acc [] [] h e = refl
digits-numeral acc [] (c ∷ rest) h e = rw (digits, e) refl
digits-numeral acc (d ∷ ds) rest (h, hs) e =
    rw (digits, digit-numeral d h, below d h, digit-numeral d h)
      (digits-numeral (acc * 10 + d) ds rest hs e)

-- A numeral in front of something else.
pub strtol-prefix :
    (d : ℕ) (ds : List ℕ) (rest : Bytes)
    → AllDigits (d ∷ ds)
    → decimal 0 (d ∷ ds) < 2 ^ 63
    → starts_digit 10 rest ≡ false
    → strtol 10 (numeral (d ∷ ds) ++ rest)
      ≡ record { value = pos (decimal 0 (d ∷ ds)); rest = rest; in_range = true }
unfolding strtol
strtol-prefix d ds rest h k e =
    let sp : is_space (b'0' + d) ≡ false = ground arith in
    let minus : (b'0' + d == b'-') ≡ false = ground arith in
    let plus : (b'0' + d == b'+') ≡ false = ground arith in
    let fits : ltb (decimal 0 (d ∷ ds)) (2 ^ 63) ≡ true = ground arith in
    rw (sp, minus, plus, digit-numeral d h.0, below d h.0, digits-numeral 0 (d ∷ ds) rest h e, fits)
      refl

pub strtol-numeral :
    (d : ℕ) (ds : List ℕ)
    → AllDigits (d ∷ ds)
    → decimal 0 (d ∷ ds) < 2 ^ 63
    → strtol 10 (numeral (d ∷ ds))
      ≡ record { value = pos (decimal 0 (d ∷ ds)); rest = []; in_range = true }
strtol-numeral d ds h k =
    ap (strtol 10) (sym (append-nil (numeral (d ∷ ds)))) ∙ strtol-prefix d ds [] h k refl

-- A number as digits, the first of them apart.
abbrev pub Num : Type 0
Num = ℕ × List ℕ

abbrev pub text : Num → Bytes
text (d, ds) = numeral (d ∷ ds)

abbrev pub value : Num → ℕ
value (d, ds) = decimal 0 (d ∷ ds)

pub numeral-Lacks : (c : ℕ) (ds : List ℕ) → c < 48 → AllDigits ds → Lacks c (numeral ds)
numeral-Lacks c [] l h = tt
numeral-Lacks c (d ∷ ds) l (h, hs) = (ground arith, numeral-Lacks c ds l hs)

-- What getNum() promises of a value under its flags, and getInt() besides.
abbrev pub Allowed : ℕ → ℤ → Type 0
Allowed flags v =
    ((has_flag flags gn_nonneg && is_negative v) ≡ false)
    × ((has_flag flags gn_gt_0 && not (is_positive v)) ≡ false)

abbrev pub Within : ℕ → Option ℤ → Type 0
Within flags none = Unit
Within flags (some v) = Allowed flags v × (is_int v ≡ true)

guarded :
    (a b c d : Bool) (x v : ℤ)
    → (if not a
        then none
        else if not b
        then none
        else if c
        then none
        else if d
        then none
        else some x)
      ≡ some v
    → ((c ≡ false) × (d ≡ false)) × (x ≡ v)
guarded false b c d x v e = cc
guarded true false c d x v e = cc
guarded true true true d x v e = cc
guarded true true false true x v e = cc
guarded true true false false x v e = ((refl, refl), cc)

checked-Allowed :
    (flags : ℕ) (p : Parsed) (v : ℤ)
    → checked flags p ≡ some v
    → Allowed flags p.value × (p.value ≡ v)
checked-Allowed flags p v e =
    guarded p.in_range (is_empty p.rest) (has_flag flags gn_nonneg && is_negative p.value)
      (has_flag flags gn_gt_0 && not (is_positive p.value)) p.value v e

get_num-Allowed :
    (arg : Option Bytes) (flags : ℕ) (v : ℤ) → get_num arg flags ≡ some v → Allowed flags v
unfolding get_num
get_num-Allowed none flags v e = cc
get_num-Allowed (some []) flags v e = cc
get_num-Allowed (some (c ∷ arg)) flags v e =
    let (h, k) = checked-Allowed flags (strtol (base_of flags) (c ∷ arg)) v e in
    subst (Allowed flags) k h

-- A value that getInt() returns fits into an `int` and is not negative or zero where the flags
-- forbid it, for every argument.
pub get_int-Within : (arg : Option Bytes) (flags : ℕ) → Within flags (get_int arg flags)
unfolding get_int
get_int-Within arg flags = elim (Option-cases (get_num arg flags)) [
  | inl e ↦ rw (e, get_int) tt
  | inr (v, e) ↦
      rw (e, get_int)
        (if_rule (Within flags) (is_int v) (λ t. (get_num-Allowed arg flags v e, t)) (λ f. tt))
]

-- A decimal numeral whose value is a `long` is accepted under every choice of flags that asks for
-- base ten, unless it is 0 and the flags ask for a value above 0; the result is its value.
pub get_num-numeral :
    (d : ℕ) (ds : List ℕ) (flags : ℕ)
    → AllDigits (d ∷ ds)
    → decimal 0 (d ∷ ds) < 2 ^ 63
    → base_of flags ≡ 10
    → get_num (some (numeral (d ∷ ds))) flags ≡ (
        if has_flag flags gn_gt_0 && (decimal 0 (d ∷ ds) == 0)
        then none
        else some (pos (decimal 0 (d ∷ ds))))
unfolding get_num
get_num-numeral d ds flags h k b = rw (b, strtol-numeral d ds h k) (ground arith)

-- getNum returns the value of every decimal numeral that fits a long, under flags that ask for
-- base ten, unless it is 0 and the flags ask for a value above 0. And a value that getInt
-- returns, for any argument, fits an int and is not negative or zero where its flags forbid it.
pub get_num-get_int :
    (d : ℕ) (ds : List ℕ) (flags : ℕ) (arg : Option Bytes) (int_flags : ℕ)
    → AllDigits (d ∷ ds)
    → decimal 0 (d ∷ ds) < 2 ^ 63
    → base_of flags ≡ 10
    → (get_num (some (numeral (d ∷ ds))) flags ≡ (
        if has_flag flags gn_gt_0 && (decimal 0 (d ∷ ds) == 0)
        then none
        else some (pos (decimal 0 (d ∷ ds)))))
      × Within int_flags (get_int arg int_flags)
get_num-get_int d ds flags arg int_flags h k b =
    (get_num-numeral d ds flags h k b, get_int-Within arg int_flags)
