-- ===== src/Io/Line/BufLaws.antt =====
-- readLineBuf() returns the lines of the input whatever the blocks are in which it arrives.
use bookcode_linux.Common.{
  ℕ, zero, suc, ◌+◌, min, ◌≤◌, ◌<◌, ◌≡◌, refl, sym, ap, ◌∙◌, ◌⊎◌, inl, true, false, Option, none,
  some, List, [], ◌∷◌, ◌++◌, Bytes, length, take, drop, get_elem?, ◌==◌, arith, append_assoc,
  append-nil, take-append-drop, length-append, length-take, take-append, Good, loop_rule, Ends,
  if_rule, length-drop,
}
use bookcode_linux.Common.Int.{ℤ, pos, negsuc}
use bookcode_linux.Io.Posix.{Turn, deliver, interrupted, failing, got, Ret, done, fail, read, eintr}
use bookcode_linux.Io.Line.{
  line, after_line, newline, ReadLineBuf, Filled, filled, at_eof, io_error, is_spent, refill, fill,
  Fetched, store, fetch_char, fetch, read_line_buf, read_line_buf_round, rl_max_buf,
}
use bookcode_linux.Io.Line.Laws.{take-snoc, take-nil}

-- A negative length counts as an empty block.
abbrev pub block_len : ℤ → ℕ
block_len (pos l) = l
block_len (negsuc l) = 0

-- The input still to be returned: the rest of the block, then the stream.
abbrev pub unread : ReadLineBuf → Bytes
unread r = drop r.next (take (block_len r.len) r.buf) ++ r.fd.0

abbrev pub IsValid : ReadLineBuf → Type 0
IsValid r = block_len r.len ≤ length r.buf

-- Some turn of the list makes a call return -1 with this errno.
abbrev pub Errs : ℕ → List Turn → Type 0
Errs e [] = ⊥
Errs e (interrupted ∷ ts) = (eintr ≡ e) ⊎ Errs e ts
Errs e (failing d ∷ ts) = (d ≡ e) ⊎ Errs e ts
Errs e (deliver k ∷ ts) = Errs e ts

drop-nil : (i : ℕ) → drop {A = ℕ} i [] ≡ []
drop-nil zero = refl
drop-nil (suc i) = refl

drop_past : (i l : ℕ) (xs : Bytes) → l ≤ i → drop i (take l xs) ≡ []
drop_past zero zero xs h = refl
drop_past zero (suc l) xs h = absurd (omega arith)
drop_past (suc i) zero xs h = refl
drop_past (suc i) (suc l) [] h = refl
drop_past (suc i) (suc l) (x ∷ xs) h = drop_past i l xs (omega arith)

next_char :
    (i l : ℕ) (xs : Bytes)
    → i < l
    → l ≤ length xs
    → (c : ℕ) × (get_elem? xs i ≡ some c) × (drop i (take l xs) ≡ c ∷ drop (i + 1) (take l xs))
next_char i zero xs h v = absurd (omega arith)
next_char i (suc l) [] h v = absurd (omega arith)
next_char zero (suc l) (x ∷ xs) h v = (x, refl, refl)
next_char (suc i) (suc l) (x ∷ xs) h v =
    let (c, g, d) = next_char i l xs (omega arith) (omega arith) in
    let e : suc i + 1 ≡ suc (i + 1) = omega arith in (c, g, rw e d)

spent-lt : (r : ReadLineBuf) → is_spent r.next r.len ≡ false → r.next < block_len r.len
spent-lt r e = ground arith

store_lem :
    (n cnt : ℕ) (buffer f : Bytes) (c : ℕ)
    → buffer ≡ take n f
    → cnt ≡ length buffer
    → let (cnt', buffer') = store n cnt buffer c in
      (buffer' ≡ take n (f ++ (c ∷ []))) × (cnt' ≡ length buffer')
store_lem n cnt buffer f c e l = ground (arith, take-snoc n f c, length-append buffer (c ∷ []))

-- What `fill` may answer, for the input and turns that it started with.
abbrev FillGood : Bytes → List Turn → Filled → Type 0
FillGood input ts (filled r) =
    IsValid r
    × (is_spent r.next r.len ≡ false)
    × (unread r ≡ input)
    × ((e : ℕ) → Errs e r.fd.1 → Errs e ts)
FillGood input ts (at_eof r) = IsValid r × (input ≡ []) × (unread r ≡ [])
FillGood input ts (io_error e r) = IsValid r × (unread r ≡ input) × Errs e ts

refill-got :
    (r : ReadLineBuf) (p : Bytes) (ts us : List Turn) (m : ℕ)
    → 0 < m
    → ((e : ℕ) → Errs e us → Errs e ts)
    → FillGood p ts (refill r (got (take m p), (drop m p, us)))
refill-got r p ts us zero h fs = absurd (omega arith)
refill-got r [] ts us (suc m) h fs = (omega arith, refl, rw (drop-nil r.next))
refill-got r (b ∷ p) ts us (suc m) h fs = (
  omega (arith, length-append (take m p) (drop (suc (length (take m p))) r.buf)),
  ground arith,
  ap (λ t. b ∷ t)
      (ap (λ t. t ++ drop m p) (take-append (length (take m p)) (take m p) _ refl)
        ∙ take-append-drop m p),
  fs,
)

refill-read :
    (r : ReadLineBuf) (p : Bytes) (ts : List Turn)
    → unread r ≡ p
    → FillGood p ts (refill r (read rl_max_buf (p, ts)))
refill-read r p [] h = refill-got r p [] [] rl_max_buf (omega arith) (λ e f. f)
refill-read r p (deliver k ∷ ts) h =
    refill-got r p (deliver k ∷ ts) ts (min rl_max_buf (suc k)) (omega arith) (λ e f. f)
refill-read r p (interrupted ∷ ts) h = (omega arith, rw (drop-nil r.next), inl refl)
refill-read r p (failing d ∷ ts) h = (omega arith, rw (drop-nil r.next), inl refl)

fill-Good : (r : ReadLineBuf) → IsValid r → FillGood (unread r) r.fd.1 (fill r)
fill-Good r v =
    if_rule (FillGood (unread r) r.fd.1) (is_spent r.next r.len)
      (λ e. rw (spent e) (refill-read r r.fd.0 r.fd.1 (rw (spent e)))) (λ e. (v, e, refl, λ d f. f))
  where
    spent : is_spent r.next r.len ≡ true → drop r.next (take (block_len r.len) r.buf) ≡ []
    spent e = drop_past r.next (block_len r.len) r.buf (ground arith)

module _ (n : ℕ) (input : Bytes) (turns : List Turn) where
  abbrev pub Answer : Ret → Bytes → ReadLineBuf → Type 0
  Answer (done k) buffer r =
      (k ≡ length buffer) × (buffer ≡ take n (line input)) × (unread r ≡ after_line input)
  Answer (fail e) buffer r =
      (c : Bytes) × (input ≡ c ++ unread r) × (buffer ≡ take n c) × Errs e turns

  abbrev pub Said : Option Fetched → Type 0
  Said none = ⊥
  Said (some (ret, buffer, r)) = IsValid r × Answer ret buffer r

  abbrev Fetching : ℕ × Bytes × ReadLineBuf → Type 0
  Fetching (cnt, buffer, r) =
      (c : Bytes) × IsValid r
      × (line input ≡ c ++ line (unread r))
      × (input ≡ c ++ unread r)
      × (after_line input ≡ after_line (unread r))
      × (buffer ≡ take n c)
      × (cnt ≡ length buffer)
      × ((e : ℕ) → Errs e r.fd.1 → Errs e turns)

  abbrev togo : ℕ × Bytes × ReadLineBuf → ℕ
  togo (cnt, buffer, r) = length (unread r)

  char-Good :
      (cnt c : ℕ) (buffer : Bytes) (r r' : ReadLineBuf)
      → Fetching (cnt, buffer, r)
      → IsValid r'
      → unread r ≡ c ∷ unread r'
      → ((e : ℕ) → Errs e r'.fd.1 → Errs e turns)
      → Good Fetching Said togo (cnt, buffer, r) (fetch_char c (store n cnt buffer c) r')
  char-Good cnt c buffer r r' (f, v, l, i, a, b, t, _) v' u fs =
      let kept = store_lem n cnt buffer f c b t in
      let l' = rw u at l in
      let a' = rw u at a in
      if_rule (Good Fetching Said togo (cnt, buffer, r)) (c == newline)
        (λ e. (v', (kept.1, kept.0 ∙ ap (take n) (sym (rw e at l')), sym (rw e at a'))))
        (λ e. (
          (
            f ++ (c ∷ []),
            v',
            (rw e at l') ∙ sym (append_assoc f (c ∷ []) (line (unread r'))),
            (rw u at i) ∙ sym (append_assoc f (c ∷ []) (unread r')),
            rw e at a',
            kept.0,
            kept.1,
            fs,
          ),
          omega (arith, ap length u),
        ))

  fetch-Good :
      (cnt : ℕ) (buffer : Bytes) (r : ReadLineBuf) (o : Filled)
      → Fetching (cnt, buffer, r)
      → FillGood (unread r) r.fd.1 o
      → Good Fetching Said togo (cnt, buffer, r) (fetch n cnt buffer o)
  fetch-Good cnt buffer r (filled r') h (v', s', u', fs) =
      let (c, g, d) = next_char r'.next (block_len r'.len) r'.buf (spent-lt r' s') v' in
      rw g (
        char-Good cnt c buffer r (record r' { next = r'.next + 1 }) h v'
          (sym u' ∙ ap (λ t. t ++ r'.fd.0) d) (λ e f. h.7 e (fs e f)))
  fetch-Good cnt buffer r (at_eof r') (f, v, l, i, a, b, t, _) (v', z, u) =
      (v', (t, b ∙ ap (take n) (sym ((rw z at l) ∙ append-nil f)), u ∙ sym (rw z at a)))
  fetch-Good cnt buffer r (io_error e r') (f, v, l, i, a, b, t, k) (v', u, w) =
      (v', (f, (rw (← u) at i), b, k e w))

  round-Good :
      (s : ℕ × Bytes × ReadLineBuf)
      → Fetching s
      → Good Fetching Said togo s (read_line_buf_round n s)
  unfolding read_line_buf_round
  round-Good (cnt, buffer, r) h = fetch-Good cnt buffer r (fill r) h (fill-Good r h.1)

-- With a nonempty buffer `readLineBuf` always returns, and never reads outside its block. Either it
-- returns the number of bytes in the buffer, which are the next line of the unread input with its
-- newline, cut to `n` bytes, and leaves what follows the line unread; or it fails with the errno of
-- a failing call, and the bytes that it had taken are then lost to the next call.
pub read_line_buf_lem :
    (n : ℕ) (r : ReadLineBuf)
    → 0 < n
    → IsValid r
    → Ends (Said n (unread r) r.fd.1) (read_line_buf n r)
unfolding read_line_buf
read_line_buf_lem n r h v =
    if_rule (Ends (Said n (unread r) r.fd.1)) (n == 0) (λ e. absurd (ground arith))
      (λ e.
        loop_rule (Fetching n (unread r) r.fd.1) (Said n (unread r) r.fd.1)
          (togo n (unread r) r.fd.1) (read_line_buf_round n) (round-Good n (unread r) r.fd.1)
          (length r.buf + length r.fd.0 + 1) (0, [], r)
          (omega (
            arith,
            length-append (drop r.next (take (block_len r.len) r.buf)) r.fd.0,
            length-drop r.next (take (block_len r.len) r.buf),
            length-take (block_len r.len) r.buf,
          ))
          ([], v, refl, refl, refl, sym (take-nil n), refl, λ e f. f))
