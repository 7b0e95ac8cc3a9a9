-- ===== src/Io/Rdwrn/Laws.antt =====
-- readn() and writen() move whole requests, whatever the kernel does to the single calls.
use bookcode_linux.Common.{
  ℕ, zero, suc, ◌+◌, ◌-◌, min, ◌≤◌, ◌<◌, ◌≡◌, refl, List, [], ◌∷◌, ◌++◌, Bytes, length, take, drop,
  ltb, ◌==◌, arith, append_assoc, append-nil, take-append-drop, length-append, length-take,
  take_all, take-append, Good, loop_rule, Ends, if_rule, ◌∙◌, sym, ap, inl, inr,
}
use bookcode_linux.Io.Posix.{
  Stream, Turn, deliver, interrupted, failing, Ret, done, fail, Fails, read, got, eintr,
}
use bookcode_linux.Io.Rdwrn.{readn, readn_round, readn_turn}

-- What `readn` may return: `all` are the bytes buffered at the start and the bytes to come.
abbrev pub Answer : ℕ → Bytes → List Turn → Ret → Bytes → Type 0
Answer n all ts (done k) buf = (k ≡ length buf) × (buf ≡ take n all)
Answer n all ts (fail e) buf = (length buf < n) × Fails e ts

module _ (n : ℕ) (all : Bytes) (turns : List Turn) where
  abbrev pub Returned : Ret × Bytes × Stream → Type 0
  Returned (r, buf, (p, us)) = (buf ++ p ≡ all) × Answer n all turns r buf

  abbrev Reading : ℕ × Bytes × Stream → Type 0
  Reading (tot, buf, (p, ts)) =
      (buf ++ p ≡ all) × (tot ≡ length buf) × (tot ≤ n) × ((e : ℕ) → Fails e ts → Fails e turns)

  abbrev togo : ℕ × Bytes × Stream → ℕ
  togo (tot, buf, (p, ts)) = length ts + (n - tot)

  -- A call that delivers up to `m` bytes.
  readn_turn-got :
      (tot : ℕ) (buf p : Bytes) (ts us : List Turn) (m : ℕ)
      → Reading (tot, buf, (p, ts))
      → ((e : ℕ) → Fails e us → Fails e turns)
      → length us ≤ length ts
      → 0 < m
      → m ≤ n - tot
      → Good Reading Returned togo
          (tot, buf, (p, ts))
          (readn_turn tot buf (got (take m p), (drop m p, us)))
  readn_turn-got tot buf p ts us zero h fs us_le more le = absurd (omega arith)
  readn_turn-got tot buf [] ts us (suc m) h fs us_le more le = (h.0, (h.1, at_end))
    where
      whole : buf ≡ all
      whole = rw append-nil at h.0

      at_end : buf ≡ take n all
      at_end = whole ∙ sym (take_all n all (omega (arith, h.1, h.2, ap length whole)))
  readn_turn-got tot buf (b ∷ p) ts us (suc m) h fs us_le more le = (
    (
      append_assoc buf (b ∷ take m p) (drop m p)
          ∙ ap (λ t. buf ++ b ∷ t) (take-append-drop m p)
          ∙ h.0,
      omega (arith, h.1, length-append buf (b ∷ take m p)),
      omega (arith, length-take m p),
      fs,
    ),
    omega (arith, length-take m p),
  )

  readn_turn-Good :
      (tot : ℕ) (buf p : Bytes) (ts : List Turn)
      → Reading (tot, buf, (p, ts))
      → tot < n
      → Good Reading Returned togo (tot, buf, (p, ts)) (readn_turn tot buf (read (n - tot) (p, ts)))
  readn_turn-Good tot buf p [] h more =
      readn_turn-got tot buf p [] [] (n - tot) h h.3 (omega arith) (omega arith) (omega arith)
  readn_turn-Good tot buf p (deliver k ∷ ts) h more =
      readn_turn-got tot buf p (deliver k ∷ ts) ts (min (n - tot) (suc k)) h h.3 (omega arith)
        (omega arith) (omega arith)
  readn_turn-Good tot buf p (interrupted ∷ ts) h more = (h, omega arith)
  readn_turn-Good tot buf p (failing d ∷ ts) h more =
      if_rule (Good Reading Returned togo (tot, buf, (p, failing d ∷ ts))) (d == eintr)
        (λ t. ((h.0, h.1, h.2, λ e f. h.3 e (inr f)), omega arith))
        (λ f. (h.0, (omega (arith, h.1), h.3 d (inl refl))))

  readn_round-Good :
      (s : ℕ × Bytes × Stream) → Reading s → Good Reading Returned togo s (readn_round n s)
  unfolding readn_round
  readn_round-Good (tot, buf, (p, ts)) h =
      if_rule (Good Reading Returned togo (tot, buf, (p, ts))) (ltb tot n)
        (λ t. readn_turn-Good tot buf p ts h (ground arith))
        (λ f. (h.0, (h.1, sym (take-append n buf p (ground arith)) ∙ ap (take n) h.0)))

-- `readn` always returns. What is in the buffer and what is left on the stream make up the input.
-- Either it returns the number of bytes in the buffer, which are the first `n` bytes of the input
-- or all of it if it is shorter, or it fails with the errno of a failing call, short of `n` bytes.
pub readn_lem : (n : ℕ) (p : Bytes) (ts : List Turn) → Ends (Returned n p ts) (readn n (p, ts))
unfolding readn
readn_lem n p ts =
    loop_rule (Reading n p ts) (Returned n p ts) (togo n p ts) (readn_round n)
      (readn_round-Good n p ts) (length ts + n + 1) (0, [], (p, ts)) (omega arith)
      (refl, refl, omega arith, λ e f. f)
