-- ===== src/SeqnumTcp/Order.antt =====
-- The ranges that the sequence-number servers over TCP hand out.
use bookcode_linux.Common.{
  ℕ, zero, suc, ◌+◌, ◌%◌, ◌<◌, ◌≡◌, ◌^◌, refl, ap, subst, sym, ◌∙◌, Option, none, some, Bool, List,
  [], ◌∷◌, Bytes, arith, Ends,
}
use bookcode_linux.Common.Int.{ℤ, pos, negsuc}
use bookcode_linux.Io.Posix.{Stream, Ret, done, fail}
use bookcode_linux.Io.Line.Laws.{read_line_lem}
use bookcode_linux.Timer.{atoi}
use bookcode_linux.SeqnumTcp.{
  Event, accept_fails, connected, Grant, positive, length_of, req_len, and_then, respond, serve,
  int_len,
}

-- The lengths that are asked for.
abbrev pub asked : Option (Option ℕ) → ℕ
asked none = 0
asked (some none) = 0
asked (some (some len)) = len

unfoldable pub requested : List Event → ℕ
requested [] = 0
requested (accept_fails ∷ events) = requested events
requested (connected cfd ok ∷ events) = asked (req_len cfd) + requested events

-- The ranges are not empty, follow one another from `lo` on, and end by `hi`.
abbrev pub Follow : ℕ → ℕ → List Grant → Type 0
Follow lo hi [] = lo ≡ hi
Follow lo hi (g ∷ gs) = (g.first ≡ lo) × (0 < g.len) × Follow (lo + g.len) hi gs

positive-more : (v : ℤ) (n : ℕ) → positive v ≡ some n → 0 < n
positive-more (pos zero) n e = absurd cc
positive-more (pos (suc k)) n e = let f : suc k ≡ n = cc in omega (arith, f)
positive-more (negsuc k) n e = absurd cc

length_of-more : (r : Ret) (buf : Bytes) (n : ℕ) → length_of r buf ≡ some n → 0 < n
length_of-more (fail e) buf n h = absurd cc
length_of-more (done zero) buf n h = absurd cc
length_of-more (done (suc k)) buf n h = positive-more (atoi buf) n h

-- Every request is read to its end, and a length that is served is above 0.
pub req_len-some :
    (cfd : Stream) → (o : Option ℕ) × (req_len cfd ≡ some o) × ((n : ℕ) → o ≡ some n → 0 < n)
unfolding req_len
req_len-some (p, ts) =
    let (l, e, said) = read_line_lem int_len p ts (omega arith) in
    (
      length_of l.ret l.buf,
      ap (λ o. elim o [ none ↦ none | some l ↦ some (length_of l.ret l.buf) ]) e,
      length_of-more l.ret l.buf,
    )

respond-Follow :
    (next : ℕ → Option (List Grant)) (total n : ℕ) (ok : Bool)
    → ((m : ℕ) → m + total < 2 ^ 32 → Ends (Follow m (m + total)) (next m))
    → (o : Option ℕ) → ((len : ℕ) → o ≡ some len → 0 < len)
    → n + (asked (some o) + total) < 2 ^ 32
    → Ends (Follow n (n + (asked (some o) + total))) (respond next n ok (some o))
respond-Follow next total n ok behind none more h =
    let (gs, e, f) = behind n (omega (arith, h)) in
    let same : n + total ≡ n + (0 + total) = omega arith in
    (gs, e, subst (λ hi. Follow n hi gs) same f)
respond-Follow next total n ok behind (some len) more h =
    let small : (n + len) % 2 ^ 32 ≡ n + len = omega (arith, h) in
    let (gs, e, f) = behind (n + len) (omega (arith, h)) in
    let same : n + len + total ≡ n + (len + total) = omega arith in
    (
      _,
      ap (and_then _) (ap next small ∙ e),
      (refl, more len refl, subst (λ hi. Follow (n + len) hi gs) same f),
    )

-- As long as the first number and the lengths asked for stay below 2^32 in all, the ranges that
-- the server hands out have no gap and no overlap and are not empty, whatever the clients send
-- and whatever calls fail.
pub serve-Follow :
    (n : ℕ) (events : List Event)
    → n + requested events < 2 ^ 32
    → Ends (Follow n (n + requested events)) (serve n events)
unfolding serve requested
serve-Follow n [] h = ([], refl, omega arith)
serve-Follow n (accept_fails ∷ events) h = serve-Follow n events h
serve-Follow n (connected cfd ok ∷ events) h =
    let (o, e, more) = req_len-some cfd in
    subst
      (λ q.
        n + (asked q + requested events) < 2 ^ 32
        → Ends (Follow n (n + (asked q + requested events))) (respond (λ m. serve m events) n ok q))
      (sym e)
      (respond-Follow (λ m. serve m events) (requested events) n ok (λ m. serve-Follow m events) o
        more)
      h
