-- ===== src/Semop/Text.antt =====
-- One operation of an argument of svsem_op.c as it is written, and that it is read back.
use bookcode_linux.Common.{
  ℕ, zero, suc, ◌-◌, ◌<◌, ◌≤◌, ◌^◌, ◌%◌, ◌≡◌, refl, ap, ap₂, sym, ◌∙◌, none, some, Bool, true,
  false, not, ◌||◌, List, [], ◌∷◌, ◌++◌, Bytes, ltb, ==_iff, arith, append_assoc, subst,
  if◌then◌else◌,
}
use bookcode_linux.Common.Int.{ℤ, pos}
use bookcode_linux.Numbers.Strtol.{strtol, starts_digit}
use bookcode_linux.Numbers.Laws.{AllDigits, decimal, strtol-prefix, Num, text, value}
use bookcode_linux.Semop.{
  Sembuf, to_short, low_bits, negate, begins_digit, parse_flags, signed_op, ends_op, with_flags,
  with_op, after_sign, after_num, parse_op, is_sign,
}

-- The three forms of an operation.
pub data Sign : Type 0 where
  plus : Sign
  minus : Sign
  equals : Sign

abbrev pub sign_char : Sign → ℕ
sign_char plus = b'+'
sign_char minus = b'-'
sign_char equals = b'='

-- The letters behind an operation: `n` for true, `u` for false.
abbrev pub letters : List Bool → Bytes
letters [] = []
letters (true ∷ fl) = b'n' ∷ letters fl
letters (false ∷ fl) = b'u' ∷ letters fl

abbrev pub any_n : List Bool → Bool
any_n [] = false
any_n (b ∷ fl) = b || any_n fl

abbrev pub any_u : List Bool → Bool
any_u [] = false
any_u (b ∷ fl) = not b || any_u fl

-- An operation as it is written.
pub record Op : Type 0 where
  pub num : Num
  pub sign : Sign
  pub val : Num
  pub flags : List Bool

abbrev pub op_text : Op → Bytes
op_text o = text o.num ++ sign_char o.sign ∷ (text o.val ++ letters o.flags)

abbrev pub signed : Sign → ℕ → ℤ
signed plus n = pos n
signed minus n = negate (pos n)
signed equals n = pos n

abbrev pub op_value : Op → Sembuf
op_value o = record {
  sem_num = value o.num;
  sem_op = signed o.sign (value o.val);
  nowait = any_n o.flags;
  undo = any_u o.flags;
}

-- "=" takes only 0.
abbrev pub IsZeroFor : Sign → ℕ → Type 0
IsZeroFor plus n = Unit
IsZeroFor minus n = Unit
IsZeroFor equals n = n ≡ 0

abbrev pub IsNumber : Num → ℕ → Type 0
IsNumber (d, ds) m = AllDigits (d ∷ ds) × (decimal 0 (d ∷ ds) < m)

-- The numbers fit the fields.
abbrev pub IsOp : Op → Type 0
IsOp o = IsNumber o.num (2 ^ 16) × IsNumber o.val (2 ^ 15) × IsZeroFor o.sign (value o.val)

or_false : (a : Bool) → a ≡ (a || false)
or_false true = refl
or_false false = refl

or_true : (a : Bool) → true ≡ (a || true)
or_true true = refl
or_true false = refl

parse_flags-letters :
    (a b : Bool) (fl : List Bool) (rest : Bytes)
    → ends_op rest ≡ true
    → parse_flags a b (letters fl ++ rest) ≡ ((a || any_n fl, b || any_u fl), rest)
unfolding parse_flags
parse_flags-letters a b [] [] e = ap₂ (λ x y. ((x, y), [])) (or_false a) (or_false b)
parse_flags-letters a b [] (c ∷ rest) e =
    subst (λ d. parse_flags a b (d ∷ rest) ≡ ((a || false, b || false), d ∷ rest))
      (sym ((==_iff c b',').0 e)) (ap₂ (λ x y. ((x, y), b',' ∷ rest)) (or_false a) (or_false b))
parse_flags-letters a b (true ∷ fl) rest e =
    parse_flags-letters true b fl rest e ∙ ap (λ x. ((x, b || any_u fl), rest)) (or_true a)
parse_flags-letters a b (false ∷ fl) rest e =
    parse_flags-letters a true fl rest e ∙ ap (λ x. ((a || any_n fl, x), rest)) (or_true b)

low_bits_small : (n : ℕ) → n < 2 ^ 16 → low_bits (pos n) ≡ n
low_bits_small n h = omega arith

to_short_small : (n : ℕ) → n < 2 ^ 15 → to_short (pos n) ≡ pos n
to_short_small n h =
    let same : n % 2 ^ 16 ≡ n = omega arith in
    let low : ltb n (2 ^ 15) ≡ true = ground arith in rw (same, low) refl

to_short_negated : (n : ℕ) → n < 2 ^ 15 → to_short (negate (pos n)) ≡ negate (pos n)
to_short_negated zero h = refl
to_short_negated (suc n) h =
    let same : n % 2 ^ 16 ≡ n = omega arith in
    let high : ltb (2 ^ 16 - 1 - n) (2 ^ 15) ≡ false = ground arith in
    let back : 2 ^ 16 - 1 - (2 ^ 16 - 1 - n) ≡ n = omega arith in rw (same, high, back) refl

signed_op-signed :
    (s : Sign) (n : ℕ)
    → n < 2 ^ 15
    → IsZeroFor s n
    → signed_op (sign_char s) (to_short (pos n)) ≡ some (signed s n)
signed_op-signed plus n h z = ap some (to_short_small n h)
signed_op-signed minus n h z =
    ap some (ap (λ v. to_short (negate v)) (to_short_small n h) ∙ to_short_negated n h)
signed_op-signed equals n h z = rw z refl

-- Behind a number stands nothing that continues it.
letters-rest :
    (fl : List Bool) (rest : Bytes)
    → ends_op rest ≡ true
    → starts_digit 10 (letters fl ++ rest) ≡ false
letters-rest [] [] e = refl
letters-rest [] (c ∷ rest) e =
    subst (λ d. starts_digit 10 (d ∷ rest) ≡ false) (sym ((==_iff c b',').0 e)) refl
letters-rest (true ∷ fl) rest e = refl
letters-rest (false ∷ fl) rest e = refl

sign-rest : (s : Sign) (rest : Bytes) → starts_digit 10 (sign_char s ∷ rest) ≡ false
sign-rest plus rest = refl
sign-rest minus rest = refl
sign-rest equals rest = refl

pub is_sign-char : (s : Sign) → is_sign (sign_char s) ≡ true
is_sign-char plus = refl
is_sign-char minus = refl
is_sign-char equals = refl

pub begins-text :
    (n : Num) (m : ℕ) (rest : Bytes) → IsNumber n m → begins_digit (text n ++ rest) ≡ true
begins-text (d, ds) m rest ((h, hs), k) = ground arith

strtol-text :
    (n : Num) (m : ℕ) (rest : Bytes)
    → IsNumber n m
    → m ≤ 2 ^ 63
    → starts_digit 10 rest ≡ false
    → strtol 10 (text n ++ rest) ≡ record { value = pos (value n); rest = rest; in_range = true }
strtol-text (d, ds) m rest (h, k) le e = strtol-prefix d ds rest h (omega (arith, k, le)) e

after_sign-text :
    (o : Op) (num : ℕ) (rest : Bytes)
    → IsOp o
    → num < 2 ^ 16
    → ends_op rest ≡ true
    → after_sign (pos num) (sign_char o.sign) (text o.val ++ (letters o.flags ++ rest))
      ≡ some (record {
        sem_num = num;
        sem_op = signed o.sign (value o.val);
        nowait = any_n o.flags;
        undo = any_u o.flags;
      })
after_sign-text o num rest (h, k, z) small e =
    ap
      (λ t.
        if t
        then with_op (pos num) (strtol 10 s).rest (signed_op c (to_short (strtol 10 s).value))
        else none)
      (begins-text o.val (2 ^ 15) (letters o.flags ++ rest) k)
    ∙ ap (λ q. with_op (pos num) q.rest (signed_op c (to_short q.value)))
        (strtol-text o.val (2 ^ 15) (letters o.flags ++ rest) k (omega arith)
          (letters-rest o.flags rest e))
    ∙ ap (with_op (pos num) (letters o.flags ++ rest)) (signed_op-signed o.sign (value o.val) k.1 z)
    ∙ ap (with_flags (pos num) op) (parse_flags-letters false false o.flags rest e)
    ∙ ap (λ t. if t then some (sembuf (low_bits (pos num))) else none) e
    ∙ ap (λ n. some (sembuf n)) (low_bits_small num small)
  where
    c : ℕ
    c = sign_char o.sign

    s : Bytes
    s = text o.val ++ (letters o.flags ++ rest)

    op : ℤ
    op = signed o.sign (value o.val)

    sembuf : ℕ → Sembuf
    sembuf n = record { sem_num = n; sem_op = op; nowait = any_n o.flags; undo = any_u o.flags }

pub op_text-rest :
    (o : Op) (rest : Bytes)
    → op_text o ++ rest ≡ text o.num ++ sign_char o.sign ∷ (text o.val ++ (letters o.flags ++ rest))
op_text-rest o rest =
    append_assoc (text o.num) (sign_char o.sign ∷ (text o.val ++ letters o.flags)) rest
    ∙ ap (λ t. text o.num ++ sign_char o.sign ∷ t)
        (append_assoc (text o.val) (letters o.flags) rest)

pub after_num-text :
    (num : ℤ) (s : Sign) (rest : Bytes)
    → after_num num (sign_char s ∷ rest) ≡ after_sign num (sign_char s) rest
after_num-text num plus rest = refl
after_num-text num minus rest = refl
after_num-text num equals rest = refl

pub parse_op-text :
    (o : Op) (rest : Bytes)
    → IsOp o
    → ends_op rest ≡ true
    → parse_op (op_text o ++ rest) ≡ some (op_value o)
unfolding parse_op
parse_op-text o rest (h, k, z) e =
    ap parse_op (op_text-rest o rest)
    ∙ ap (λ t. if t then after_num (strtol 10 s).value (strtol 10 s).rest else none)
        (begins-text o.num (2 ^ 16) behind h)
    ∙ ap (λ q. after_num q.value q.rest)
        (strtol-text o.num (2 ^ 16) behind h (omega arith) (sign-rest o.sign tail))
    ∙ after_num-text (pos (value o.num)) o.sign tail
    ∙ after_sign-text o (value o.num) rest (h, k, z) h.1 e
  where
    tail : Bytes
    tail = text o.val ++ (letters o.flags ++ rest)

    behind : Bytes
    behind = sign_char o.sign ∷ tail

    s : Bytes
    s = text o.num ++ behind
