-- ===== src/Io/Rdwrn/WriteLaws.antt =====
-- writen() appends the whole buffer, whatever the kernel does to the single calls.
use bookcode_linux.Common.{
  ℕ, zero, suc, ◌+◌, ◌-◌, min, ◌≤◌, ◌<◌, ◌≡◌, refl, sym, ap, ◌∙◌, inl, inr, List, [], ◌∷◌, ◌++◌,
  Bytes, length, take, drop, ltb, ◌==◌, arith, append_assoc, append-nil, take-add, drop-add, Good,
  loop_rule, Ends, if_rule,
}
use bookcode_linux.Io.Posix.{
  Sink, Turn, deliver, interrupted, failing, put, Ret, done, fail, Fails, write, eintr,
}
use bookcode_linux.Io.Rdwrn.{writen, writen_round, writen_turn}

-- The file `base`, the buffer and the turns that `writen` was called with.
module _ (n : ℕ) (base buffer : Bytes) (turns : List Turn) where
  -- `done n` with the first `n` bytes of the buffer appended, or a failure with fewer.
  abbrev pub Written : Ret × Sink → Type 0
  Written (done k, (out, us)) = (k ≡ n) × (out ≡ base ++ take n buffer)
  Written (fail e, (out, us)) = (j : ℕ) × (j < n) × (out ≡ base ++ take j buffer) × Fails e turns

  abbrev Writing : ℕ × Bytes × Sink → Type 0
  Writing (tot, buf, (out, ts)) =
      (out ≡ base ++ take tot buffer)
      × (buf ≡ drop tot buffer)
      × (tot ≤ n)
      × ((e : ℕ) → Fails e ts → Fails e turns)

  abbrev togo : ℕ × Bytes × Sink → ℕ
  togo (tot, buf, (out, ts)) = length ts + (n - tot)

  writen_turn-put :
      (tot : ℕ) (buf out : Bytes) (ts us : List Turn) (m : ℕ)
      → Writing (tot, buf, (out, ts))
      → ((e : ℕ) → Fails e us → Fails e turns)
      → length us ≤ length ts
      → 0 < m
      → m ≤ n - tot
      → Good Writing Written togo
          (tot, buf, (out, ts))
          (writen_turn tot buf (put m, (out ++ take m buf, us)))
  writen_turn-put tot buf out ts us zero h fs us_le more le = absurd (omega arith)
  writen_turn-put tot buf out ts us (suc m) h fs us_le more le =
      ((written, rest, omega arith, fs), omega arith)
    where
      written : out ++ take (suc m) buf ≡ base ++ take (tot + suc m) buffer
      written =
          rw (h.0, h.1)
            (append_assoc base (take tot buffer) (take (suc m) (drop tot buffer))
              ∙ ap (λ t. base ++ t) (take-add tot (suc m) buffer))

      rest : drop (suc m) buf ≡ drop (tot + suc m) buffer
      rest = rw h.1 (drop-add tot (suc m) buffer)

  writen_turn-Good :
      (tot : ℕ) (buf out : Bytes) (ts : List Turn)
      → Writing (tot, buf, (out, ts))
      → tot < n
      → Good Writing Written togo
          (tot, buf, (out, ts))
          (writen_turn tot buf (write buf (n - tot) (out, ts)))
  writen_turn-Good tot buf out [] h more =
      writen_turn-put tot buf out [] [] (n - tot) h h.3 (omega arith) (omega arith) (omega arith)
  writen_turn-Good tot buf out (deliver k ∷ ts) h more =
      writen_turn-put tot buf out (deliver k ∷ ts) ts (min (n - tot) (suc k)) h h.3 (omega arith)
        (omega arith) (omega arith)
  writen_turn-Good tot buf out (interrupted ∷ ts) h more = (h, omega arith)
  writen_turn-Good tot buf out (failing d ∷ ts) h more =
      if_rule (Good Writing Written togo (tot, buf, (out, failing d ∷ ts))) (d == eintr)
        (λ t. ((h.0, h.1, h.2, λ e f. h.3 e (inr f)), omega arith))
        (λ f. (tot, more, h.0, h.3 d (inl refl)))

  writen_round-Good :
      (s : ℕ × Bytes × Sink) → Writing s → Good Writing Written togo s (writen_round n s)
  unfolding writen_round
  writen_round-Good (tot, buf, (out, ts)) h =
      if_rule (Good Writing Written togo (tot, buf, (out, ts))) (ltb tot n)
        (λ t. writen_turn-Good tot buf out ts h (ground arith))
        (λ f. let all : tot ≡ n = ground arith in (all, rw (← all) h.0))

-- `writen` always returns. Either it returns `n` with the first `n` bytes of the buffer appended to
-- the file, or it fails with the errno of a failing call after appending fewer bytes of the buffer.
pub writen_lem :
    (n : ℕ) (buffer base : Bytes) (ts : List Turn)
    → Ends (Written n base buffer ts) (writen n buffer (base, ts))
unfolding writen
writen_lem n buffer base ts =
    loop_rule (Writing n base buffer ts) (Written n base buffer ts) (togo n base buffer ts)
      (writen_round n) (writen_round-Good n base buffer ts) (length ts + n + 1)
      (0, buffer, (base, ts)) (omega arith) (sym (append-nil base), refl, omega arith, λ e f. f)
