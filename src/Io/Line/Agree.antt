-- ===== src/Io/Line/Agree.antt =====
-- readLineBuf() against readLine(): the same lines from the same input.
use bookcode_linux.Common.{
  ℕ, ◌+◌, ◌-◌, length, ◌<◌, ◌≡◌, refl, sym, ap, ◌∙◌, some, Option, none, List, [], ◌∷◌, Bytes, take,
  arith,
}
use bookcode_linux.Io.Posix.{Turn, deliver, interrupted, failing, Ret, done, fail, Fails}
use bookcode_linux.Io.Line.{line, Line, ReadLineBuf, Fetched, read_line, read_line_buf}
use bookcode_linux.Io.Line.Laws.{read_line_lem}
use bookcode_linux.Io.Line.Laws
use bookcode_linux.Io.Line.BufLaws
use bookcode_linux.Io.Line.BufLaws.{unread, IsValid, Errs, read_line_buf_lem}

-- No call fails or is interrupted; it may deliver any part of what was asked for.
abbrev pub IsSteady : List Turn → Type 0
IsSteady [] = Unit
IsSteady (deliver k ∷ ts) = IsSteady ts
IsSteady (interrupted ∷ ts) = ⊥
IsSteady (failing d ∷ ts) = ⊥

not-Fails : (e : ℕ) (ts : List Turn) → IsSteady ts → Fails e ts → ⊥
not-Fails e [] h f = f
not-Fails e (deliver k ∷ ts) h f = not-Fails e ts h f
not-Fails e (interrupted ∷ ts) h f = h
not-Fails e (failing d ∷ ts) h f = h

not-Errs : (e : ℕ) (ts : List Turn) → IsSteady ts → Errs e ts → ⊥
not-Errs e [] h f = f
not-Errs e (deliver k ∷ ts) h f = not-Errs e ts h f
not-Errs e (interrupted ∷ ts) h f = h
not-Errs e (failing d ∷ ts) h f = h

-- Both functions return, with one value, one text in the buffer and one rest of the input.
abbrev pub Agree : Option Line → Option (Option Fetched) → Type 0
Agree none f = ⊥
Agree (some l) none = ⊥
Agree (some l) (some none) = ⊥
Agree (some l) (some (some (ret, buffer, r))) =
    (l.ret ≡ ret) × (l.buf ≡ buffer) × (l.fd.0 ≡ unread r)

agree :
    (n : ℕ) (input : Bytes) (ts us : List Turn) (l : Line) (k : Ret) (f : Option Fetched)
    → IsSteady ts
    → IsSteady us
    → Laws.Answer (n + 1) input ts k l
    → l.ret ≡ k
    → BufLaws.Said n input us f
    → Agree (some l) (some f)
agree n input ts us l (fail e) f hs hu a q b = absurd (not-Fails e ts hs a)
agree n input ts us l (done k) none hs hu a q b = absurd b
agree n input ts us l (done k) (some (fail e, buffer, r)) hs hu a q b =
    absurd (not-Errs e us hu b.1.3)
agree n input ts us l (done k) (some (done j, buffer, r)) hs hu a q b =
    (q ∙ ap done (a.0 ∙ ap length same ∙ sym b.1.0), same, a.2 ∙ sym b.1.2)
  where
    size : n + 1 - 1 ≡ n
    size = omega arith

    same : l.buf ≡ buffer
    same = a.1 ∙ ap (λ m. take m (line input)) size ∙ sym b.1.1

-- While no call fails or is interrupted, `readLineBuf` with a buffer of `n` bytes agrees with
-- `readLine` with one of `n + 1`, which also holds a null byte: both return, with the same value
-- and the same bytes, and leave the same input, whatever blocks it arrives in.
pub read_line-read_line_buf :
    (n : ℕ) (r : ReadLineBuf) (ts : List Turn)
    → 0 < n
    → IsValid r
    → IsSteady ts
    → IsSteady r.fd.1
    → Agree (read_line (n + 1) (unread r, ts)) (read_line_buf n r)
read_line-read_line_buf n r ts h v hs hu =
    let (l, e, a) = read_line_lem (n + 1) (unread r) ts (omega arith) in
    let (f, e', b) = read_line_buf_lem n r h v in
    rw (e, e') (agree n (unread r) ts r.fd.1 l l.ret f hs hu a refl b)
