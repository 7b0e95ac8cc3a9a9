-- ===== src/Io/Line/Laws.antt =====
-- readLine() returns the next line of the input, cut to the buffer, and takes it off the stream.
use bookcode_linux.Common.{
  ℕ, zero, suc, ◌+◌, ◌-◌, min, ◌≤◌, ◌<◌, ◌≡◌, refl, sym, ap, ◌∙◌, inl, inr, true, List, [], ◌∷◌,
  ◌++◌, Bytes, length, take, ltb, ◌==◌, arith, append_assoc, append-nil, Good, loop_rule, Ends,
  if_rule, if◌then◌else◌, length-append, ◌⊎◌,
}
use bookcode_linux.Io.Posix.{
  Stream, Turn, deliver, interrupted, failing, got, Ret, done, fail, Fails, read, eintr,
}
use bookcode_linux.Io.Line.{
  Line, line, after_line, newline, keep, read_line, read_line_round, read_line_turn, read_line_char,
}

pub take-nil : (m : ℕ) → take {A = ℕ} m [] ≡ []
take-nil zero = refl
take-nil (suc m) = refl

-- The first `m` bytes of a line that grows by one character.
pub take-snoc :
    (m : ℕ) (c : Bytes) (x : ℕ)
    → take m (c ++ (x ∷ []))
      ≡ (if ltb (length (take m c)) m then take m c ++ (x ∷ []) else take m c)
take-snoc zero [] x = refl
take-snoc zero (y ∷ c) x = refl
take-snoc (suc m) [] x = ground (arith, take-nil m)
take-snoc (suc m) (y ∷ c) x = ground (arith, take-snoc m c x)

-- A kept character extends what is in the buffer, up to its size.
keep_lem :
    (n tot : ℕ) (buf c : Bytes) (ch : ℕ)
    → buf ≡ take (n - 1) c
    → tot ≡ length buf
    → let (tot', buf') = keep n tot buf ch in
      (buf' ≡ take (n - 1) (c ++ (ch ∷ []))) × (tot' ≡ length buf')
keep_lem n tot buf c ch e l = ground (arith, take-snoc (n - 1) c ch, length-append buf (ch ∷ []))

module _ (n : ℕ) (input : Bytes) (turns : List Turn) where
  abbrev pub Answer : Ret → Line → Type 0
  Answer (done k) l =
      (k ≡ length l.buf)
      × (l.buf ≡ take (n - 1) (line input))
      × (l.fd.0 ≡ after_line input)
      × ((l.terminated ≡ true) ⊎ (k ≡ 0))
  Answer (fail e) l = Fails e turns

  abbrev pub Said : Line → Type 0
  Said l = Answer l.ret l

  abbrev Reading : ℕ × Bytes × Stream → Type 0
  Reading (tot, buf, (p, ts)) =
      (c : Bytes) × (line input ≡ c ++ line p)
      × (after_line input ≡ after_line p)
      × (buf ≡ take (n - 1) c)
      × (tot ≡ length buf)
      × ((e : ℕ) → Fails e ts → Fails e turns)

  abbrev togo : ℕ × Bytes × Stream → ℕ
  togo (tot, buf, (p, ts)) = length ts + length p

  -- A byte was read.
  char-Good :
      (tot ch : ℕ) (buf p : Bytes) (ts us : List Turn)
      → Reading (tot, buf, (ch ∷ p, ts))
      → ((e : ℕ) → Fails e us → Fails e turns)
      → length us ≤ length ts
      → Good Reading Said togo
          (tot, buf, (ch ∷ p, ts))
          (read_line_char ch (keep n tot buf ch) (p, us))
  char-Good tot ch buf p ts us (c, l, a, b, t, _) fs le =
      let kept = keep_lem n tot buf c ch b t in
      if_rule (Good Reading Said togo (tot, buf, (ch ∷ p, ts))) (ch == newline)
        (λ e. (kept.1, kept.0 ∙ ap (take (n - 1)) (sym (rw e at l)), sym (rw e at a), inl refl))
        (λ e. (
          (
            c ++ (ch ∷ []),
            (rw e at l) ∙ sym (append_assoc c (ch ∷ []) (line p)),
            (rw e at a),
            kept.0,
            kept.1,
            fs,
          ),
          omega arith,
        ))

  end-Good :
      (tot : ℕ) (buf : Bytes) (ts us : List Turn)
      → Reading (tot, buf, ([], ts))
      → Good Reading Said togo (tot, buf, ([], ts)) (read_line_turn n tot buf (got [], ([], us)))
  end-Good tot buf ts us (c, l, a, b, t, _) =
      let all : line input ≡ c = l ∙ append-nil c in
      if_rule (Good Reading Said togo (tot, buf, ([], ts))) (tot == 0)
        (λ e. (ground arith, b ∙ ap (take (n - 1)) (sym all), sym a, inr refl))
        (λ e. (t, b ∙ ap (take (n - 1)) (sym all), sym a, inl refl))

  turn-Good :
      (tot : ℕ) (buf p : Bytes) (ts : List Turn)
      → Reading (tot, buf, (p, ts))
      → Good Reading Said togo (tot, buf, (p, ts)) (read_line_turn n tot buf (read 1 (p, ts)))
  turn-Good tot buf [] [] h = end-Good tot buf [] [] h
  turn-Good tot buf (ch ∷ p) [] h = char-Good tot ch buf p [] [] h (h.5) (omega arith)
  turn-Good tot buf [] (deliver k ∷ ts) h =
      let one : min 1 (suc k) ≡ suc zero = omega arith in
      rw one (end-Good tot buf (deliver k ∷ ts) ts h)
  turn-Good tot buf (ch ∷ p) (deliver k ∷ ts) h =
      let one : min 1 (suc k) ≡ suc zero = omega arith in
      rw one (char-Good tot ch buf p (deliver k ∷ ts) ts h h.5 (omega arith))
  turn-Good tot buf p (interrupted ∷ ts) h = (h, omega arith)
  turn-Good tot buf p (failing d ∷ ts) h =
      if_rule (Good Reading Said togo (tot, buf, (p, failing d ∷ ts))) (d == eintr)
        (λ t. ((h.0, h.1, h.2, h.3, h.4, λ e f. h.5 e (inr f)), omega arith))
        (λ f. h.5 d (inl refl))

  round-Good : (s : ℕ × Bytes × Stream) → Reading s → Good Reading Said togo s (read_line_round n s)
  unfolding read_line_round
  round-Good (tot, buf, (p, ts)) h = turn-Good tot buf p ts h

-- With room for at least the null byte `readLine` always returns. Either it returns the number of
-- bytes in the buffer, which are the next line of the input with its newline, cut to `n - 1` bytes,
-- has taken the whole line off the stream, and has put a null byte behind a result that is not 0;
-- or it fails with the errno of a failing call.
pub read_line_lem :
    (n : ℕ) (input : Bytes) (ts : List Turn)
    → 0 < n
    → Ends (Said n input ts) (read_line n (input, ts))
unfolding read_line
read_line_lem n input ts h =
    if_rule (Ends (Said n input ts)) (n == 0) (λ e. absurd (ground arith))
      (λ e.
        loop_rule (Reading n input ts) (Said n input ts) (togo n input ts) (read_line_round n)
          (round-Good n input ts) (length ts + length input + 1) (0, [], (input, ts)) (omega arith)
          ([], refl, refl, sym (take-nil (n - 1)), refl, λ e f. f))
