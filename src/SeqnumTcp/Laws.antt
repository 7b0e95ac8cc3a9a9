-- ===== src/SeqnumTcp/Laws.antt =====
-- What clients of the sequence-number servers get that send a number and a newline, as
-- TLPI/sockets/is_seqnum_cl.c does.
use bookcode_linux.Common.{
  ℕ, zero, suc, ◌+◌, ◌%◌, ◌<◌, ◌≡◌, ◌^◌, refl, ap, ◌∙◌, none, some, Bool, false, List, [], ◌∷◌,
  ◌++◌, Bytes, All, arith, length, take, take_all, ◌==◌, if◌then◌else◌, length-append,
}
use bookcode_linux.Common.Int.{pos}
use bookcode_linux.Io.Posix.{Turn, deliver, interrupted, failing, Ret, done, fail, Fails, IsPatient}
use bookcode_linux.Io.Line.{Line, line, newline}
use bookcode_linux.Io.Line.Laws
use bookcode_linux.Io.Line.Laws.{read_line_lem}
use bookcode_linux.Numbers.Laws.{AllDigits, numeral, decimal, strtol-prefix, Num, text, value}
use bookcode_linux.Timer.{atoi, of_bits, to_int}
use bookcode_linux.Timer.Laws.{to_int_small}
use bookcode_linux.SeqnumTcp.{
  Event, connected, Grant, positive, length_of, req_len, and_then, respond, serve, int_len,
}

patient-Fails : (e : ℕ) (ts : List Turn) → IsPatient ts → Fails e ts → ⊥
patient-Fails e [] p f = f
patient-Fails e (deliver k ∷ ts) p f = patient-Fails e ts p f
patient-Fails e (interrupted ∷ ts) p f = patient-Fails e ts p f
patient-Fails e (failing d ∷ ts) p f = p

line-numeral :
    (ds : List ℕ) (rest : Bytes)
    → AllDigits ds
    → line (numeral ds ++ newline ∷ rest) ≡ numeral ds ++ newline ∷ []
line-numeral [] rest h = refl
line-numeral (d ∷ ds) rest (h, hs) =
    let other : (b'0' + d == newline) ≡ false = ground arith in
    ap (λ b. if b then (b'0' + d) ∷ [] else (b'0' + d) ∷ line (numeral ds ++ newline ∷ rest)) other
    ∙ ap (◌∷◌ (b'0' + d)) (line-numeral ds rest hs)

length-numeral : (ds : List ℕ) → length (numeral ds) ≡ length ds
length-numeral [] = refl
length-numeral (d ∷ ds) = omega (arith, length-numeral ds)

-- A request that the server accepts: a number from 1 on that fits an int, in at most 28 digits, so
-- that with the newline and a null byte it fits the buffer of INT_LEN bytes.
abbrev pub IsRequest : Num → Type 0
IsRequest (d, ds) =
    AllDigits (d ∷ ds) × (decimal 0 (d ∷ ds) < 2 ^ 31) × (0 < decimal 0 (d ∷ ds)) × (length ds < 28)

atoi-line : (n : Num) → IsRequest n → atoi (text n ++ newline ∷ []) ≡ pos (value n)
unfolding atoi
atoi-line (d, ds) (h, k, more, short) =
    ap (λ q. to_int q.value) (strtol-prefix d ds (newline ∷ []) h (omega (arith, k)) refl)
    ∙ to_int_small (decimal 0 (d ∷ ds)) k

positive-pos : (n : ℕ) → 0 < n → positive (pos n) ≡ some n
positive-pos zero h = absurd (omega arith)
positive-pos (suc n) h = refl

-- The line is in the buffer.
buffered :
    (n : Num) (rest buf : Bytes)
    → IsRequest n
    → buf ≡ take 29 (line (text n ++ newline ∷ rest))
    → buf ≡ text n ++ newline ∷ []
buffered (d, ds) rest buf (h, k, more, short) e =
    e
    ∙ ap (take 29) (line-numeral (d ∷ ds) rest h)
    ∙ take_all 29 (text (d, ds) ++ newline ∷ [])
        (omega (arith, short, length-numeral (d ∷ ds), length-append (text (d, ds)) (newline ∷ [])))

length_of-request :
    (n : Num) (rest : Bytes) (ts : List Turn) (l : Line) (r : Ret)
    → IsRequest n
    → IsPatient ts
    → Laws.Answer int_len (text n ++ newline ∷ rest) ts r l
    → length_of r l.buf ≡ some (value n)
length_of-request n rest ts l (fail e) h p f = absurd (patient-Fails e ts p f)
length_of-request n rest ts l (done zero) h p (k, b, a, t) =
    absurd (
      omega
        (arith, k, ap length (buffered n rest l.buf h b), length-append (text n) (newline ∷ [])))
length_of-request n rest ts l (done (suc j)) h p (k, b, a, t) =
    ap (λ t. positive (atoi t)) (buffered n rest l.buf h b)
    ∙ ap positive (atoi-line n h)
    ∙ positive-pos (value n) h.2

req_len-request :
    (n : Num) (rest : Bytes) (ts : List Turn)
    → IsRequest n
    → IsPatient ts
    → req_len (text n ++ newline ∷ rest, ts) ≡ some (some (value n))
unfolding req_len
req_len-request n rest ts h p =
    let (l, e, said) = read_line_lem int_len (text n ++ newline ∷ rest) ts (omega arith) in
    ap (λ o. elim o [ none ↦ none | some m ↦ some (length_of m.ret m.buf) ]) e
    ∙ ap some (length_of-request n rest ts l l.ret h p said)

-- A client: its number, what it sends behind the newline, how the reads cut it, and whether it gets
-- the response.
pub record Client : Type 0 where
  pub num : Num
  pub rest : Bytes
  pub turns : List Turn
  pub ok : Bool

abbrev pub IsClient : Client → Type 0
IsClient c = IsRequest c.num × IsPatient c.turns

abbrev pub events : List Client → List Event
events [] = []
events (c ∷ cs) = connected (text c.num ++ newline ∷ c.rest, c.turns) c.ok ∷ events cs

-- Every client gets as many numbers as it asks for, from where the last client's end, on 32 bits.
abbrev pub grants : ℕ → List Client → List Grant
grants n [] = []
grants n (c ∷ cs) =
    record { first = n; printed = of_bits n; len = value c.num; delivered = c.ok }
    ∷ grants ((n + value c.num) % 2 ^ 32) cs

-- Clients that send a decimal numeral from 1 on that fits an int, of at most 28 digits, and a
-- newline, in pieces and with interruptions of any kind but no failing read, are all served in
-- order, each from the number where the range of the one before ends.
pub serve-grants :
    (n : ℕ) (cs : List Client) → All IsClient cs → serve n (events cs) ≡ some (grants n cs)
unfolding serve
serve-grants n [] h = refl
serve-grants n (c ∷ cs) ((h, p), hs) =
    ap (respond (λ m. serve m (events cs)) n c.ok) (req_len-request c.num c.rest c.turns h p)
    ∙ ap (and_then _) (serve-grants ((n + value c.num) % 2 ^ 32) cs hs)
