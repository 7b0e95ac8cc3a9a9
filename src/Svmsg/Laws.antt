-- ===== src/Svmsg/Laws.antt =====
-- What svmsg_file_client.c receives of a file from svmsg_file_server.c.
use bookcode_linux.Common.{
  ℕ, ◌^◌, ◌%◌, zero, suc, ◌+◌, min, ◌≤◌, ◌<◌, ◌≡◌, refl, ◌⊎◌, inl, inr, none, some, true, false,
  List, [], ◌∷◌, ◌++◌, Bytes, length, take, drop, arith, append_assoc, append-nil, take-append-drop,
  length-append, length-take, length-drop, ap₂, Bool, Good, loop_rule, Ends, ◌∙◌, sym, ap,
}
use bookcode_linux.Io.Posix.{Stream, Turn, deliver, interrupted, failing, read, got}
use bookcode_linux.Svmsg.{
  send, Response, file_data, end_of_data, Queue, serve_round, serve_turn, serve_request,
  last_message, resp_msg_size, collect, client, messages, totals,
}

abbrev pub chunks_text : List Bytes → Bytes
chunks_text [] = []
chunks_text (b ∷ bs) = b ++ chunks_text bs

abbrev pub datas : List Bytes → List Response
datas [] = []
datas (b ∷ bs) = file_data b ∷ datas bs

-- Every block has a byte and fits a message.
abbrev pub Fit : List Bytes → Type 0
Fit [] = Unit
Fit (b ∷ bs) = (0 < length b) × (length b ≤ resp_msg_size) × Fit bs

datas-append : (xs ys : List Bytes) → datas (xs ++ ys) ≡ datas xs ++ datas ys
datas-append [] ys = refl
datas-append (x ∷ xs) ys = rw (datas-append xs ys) refl

chunks_text-append :
    (xs ys : List Bytes) → chunks_text (xs ++ ys) ≡ chunks_text xs ++ chunks_text ys
chunks_text-append [] ys = refl
chunks_text-append (x ∷ xs) ys = rw (chunks_text-append xs ys, append_assoc) refl

Fit-append : (xs ys : List Bytes) → Fit xs → Fit ys → Fit (xs ++ ys)
Fit-append [] ys h k = k
Fit-append (x ∷ xs) ys h k = (h.0, h.1, Fit-append xs ys h.2 k)

collect-datas :
    (bs : List Bytes) (tot num : ℕ)
    → collect tot num (messages (datas bs ++ end_of_data ∷ []))
      ≡ some (totals (tot + length (chunks_text bs)) ((num + length bs + 1) % 2 ^ 32))
unfolding collect
collect-datas [] tot num = ap some (ap₂ totals (omega arith) (omega arith))
collect-datas (b ∷ bs) tot num =
    collect-datas bs (tot + length b) ((num + 1) % 2 ^ 32)
    ∙ ap some (ap₂ totals (omega (arith, length-append b (chunks_text bs))) (omega arith))

client-datas :
    (bs : List Bytes)
    → client (messages (datas bs ++ end_of_data ∷ []))
      ≡ some (totals (length (chunks_text bs)) ((length bs + 1) % 2 ^ 32))
unfolding client
client-datas [] = refl
client-datas (b ∷ bs) =
    collect-datas bs (length b) 1
    ∙ ap some (ap₂ totals (omega (arith, length-append b (chunks_text bs))) (omega arith))

collect-waits : (bs : List Bytes) (tot num : ℕ) → collect tot num (messages (datas bs)) ≡ none
unfolding collect
collect-waits [] tot num = refl
collect-waits (b ∷ bs) tot num = collect-waits bs (tot + length b) ((num + 1) % 2 ^ 32)

client-waits : (bs : List Bytes) → client (messages (datas bs)) ≡ none
unfolding client
client-waits [] = refl
client-waits (b ∷ bs) = collect-waits bs (length b) 1

-- No read is interrupted or fails.
abbrev pub IsCalm : List Turn → Type 0
IsCalm [] = Unit
IsCalm (deliver k ∷ ts) = IsCalm ts
IsCalm (interrupted ∷ ts) = ⊥
IsCalm (failing e ∷ ts) = ⊥

-- No msgsnd fails.
abbrev pub AllSent : List Bool → Type 0
AllSent [] = Unit
AllSent (ok ∷ oks) = (ok ≡ true) × AllSent oks

module _ (file : Bytes) (turns : List Turn) (sends : List Bool) where
  abbrev Quiet : Type 0
  Quiet = IsCalm turns × AllSent sends

  -- The blocks sent are the file up to some point.
  abbrev Sent : List Bytes → Bytes → List Response → Type 0
  Sent bs rest msgs = (msgs ≡ datas bs) × Fit bs × (chunks_text bs ++ rest ≡ file)

  abbrev Serving : Stream × Queue → Type 0
  Serving ((p, ts), (msgs, oks)) =
      (bs : List Bytes) × Sent bs p msgs × (Quiet → IsCalm ts × AllSent oks)

  abbrev Served : Queue → Type 0
  Served (msgs, oks) =
      (bs : List Bytes) × (rest : Bytes) × Sent bs rest msgs × (Quiet → (rest ≡ []) × AllSent oks)

  abbrev togo : Stream × Queue → ℕ
  togo ((p, ts), q) = length p + length ts

  Sent-snoc :
      (bs : List Bytes) (b : ℕ) (chunk rest : Bytes) (msgs : List Response)
      → length (b ∷ chunk) ≤ resp_msg_size
      → Sent bs ((b ∷ chunk) ++ rest) msgs
      → Sent (bs ++ (b ∷ chunk) ∷ []) rest (msgs ++ file_data (b ∷ chunk) ∷ [])
  Sent-snoc bs b chunk rest msgs fits (e, fit, whole) = (
    ap (λ t. t ++ file_data (b ∷ chunk) ∷ []) e ∙ sym (datas-append bs ((b ∷ chunk) ∷ [])),
    Fit-append bs ((b ∷ chunk) ∷ []) fit (omega arith, fits, tt),
    ap (λ t. t ++ rest) (chunks_text-append bs ((b ∷ chunk) ∷ []))
        ∙ append_assoc (chunks_text bs) (b ∷ chunk ++ []) rest
        ∙ ap (λ t. chunks_text bs ++ b ∷ (t ++ rest)) (append-nil chunk)
        ∙ whole,
  )

  Sent-split :
      (bs : List Bytes) (b : ℕ) (p : Bytes) (msgs : List Response) (m : ℕ)
      → suc m ≤ resp_msg_size
      → Sent bs (b ∷ p) msgs
      → Sent (bs ++ (b ∷ take m p) ∷ []) (drop m p) (msgs ++ file_data (b ∷ take m p) ∷ [])
  Sent-split bs b p msgs m le (e, fit, whole) =
      Sent-snoc bs b (take m p) (drop m p) msgs (omega (arith, length-take m p))
        (e, fit, ap (λ t. chunks_text bs ++ b ∷ t) (take-append-drop m p) ∙ whole)

  -- A call that delivers up to `m` bytes.
  serve_turn-got :
      (p : Bytes) (ts us : List Turn) (msgs : List Response) (oks : List Bool) (m : ℕ)
      → Serving ((p, ts), (msgs, oks))
      → (Quiet → IsCalm us)
      → length us ≤ length ts
      → 0 < m
      → m ≤ resp_msg_size
      → Good Serving Served togo
          ((p, ts), (msgs, oks))
          (serve_turn (msgs, oks) (got (take m p), (drop m p, us)))
  serve_turn-got p ts us msgs oks zero h calm us_le more le = absurd (omega arith)
  serve_turn-got [] ts us msgs oks (suc m) (bs, sent, quiet) calm us_le more le =
      (bs, [], sent, λ q. (refl, (quiet q).1))
  serve_turn-got (b ∷ p) ts us msgs [] (suc m) (bs, sent, quiet) calm us_le more le = (
    (bs ++ (b ∷ take m p) ∷ [], Sent-split bs b p msgs m le sent, λ q. (calm q, tt)),
    omega (arith, length-drop m p),
  )
  serve_turn-got (b ∷ p) ts us msgs (true ∷ oks) (suc m) (bs, sent, quiet) calm us_le more le = (
    (bs ++ (b ∷ take m p) ∷ [], Sent-split bs b p msgs m le sent, λ q. (calm q, (quiet q).1.1)),
    omega (arith, length-drop m p),
  )
  serve_turn-got (b ∷ p) ts us msgs (false ∷ oks) (suc m) (bs, sent, quiet) calm us_le more le =
      (bs, b ∷ p, sent, λ q. let e : false ≡ true = (quiet q).1.0 in absurd cc)

  serve_turn-Good :
      (p : Bytes) (ts : List Turn) (msgs : List Response) (oks : List Bool)
      → Serving ((p, ts), (msgs, oks))
      → Good Serving Served togo
          ((p, ts), (msgs, oks))
          (serve_turn (msgs, oks) (read resp_msg_size (p, ts)))
  serve_turn-Good p [] msgs oks h =
      serve_turn-got p [] [] msgs oks resp_msg_size h (λ q. tt) (omega arith) (omega arith)
        (omega arith)
  serve_turn-Good p (deliver k ∷ ts) msgs oks h =
      serve_turn-got p (deliver k ∷ ts) ts msgs oks (min resp_msg_size (suc k)) h (λ q. (h.2 q).0)
        (omega arith) (omega arith) (omega arith)
  serve_turn-Good p (interrupted ∷ ts) msgs oks (bs, sent, quiet) =
      (bs, p, sent, λ q. absurd (quiet q).0)
  serve_turn-Good p (failing e ∷ ts) msgs oks (bs, sent, quiet) =
      (bs, p, sent, λ q. absurd (quiet q).0)

  serve_round-Good : (s : Stream × Queue) → Serving s → Good Serving Served togo s (serve_round s)
  unfolding serve_round
  serve_round-Good ((p, ts), (msgs, oks)) h = serve_turn-Good p ts msgs oks h

  -- What the client ends with: it waits on, or it has counted the blocks.
  abbrev pub Counted : Bool × Queue → Type 0
  Counted (ok, q) =
      (ok ≡ true)
      × (bs : List Bytes) × (rest : Bytes) × Fit bs
      × (chunks_text bs ++ rest ≡ file)
      × ((client (messages q.0) ≡ none)
          ⊎ (client (messages q.0)
              ≡ some (totals (length (chunks_text bs)) ((length bs + 1) % 2 ^ 32))))
      × (Quiet
          → (rest ≡ [])
            × (client (messages q.0) ≡ some (totals (length file) ((length bs + 1) % 2 ^ 32))))

  ended_sent :
      (msgs : List Response) (oks : List Bool) (bs : List Bytes) (rest : Bytes)
      → Sent bs rest msgs
      → (Quiet → (rest ≡ []) × AllSent oks)
      → Counted (true, (msgs ++ end_of_data ∷ [], oks))
  ended_sent msgs oks bs rest (e, fit, whole) quiet = (
    refl,
    bs,
    rest,
    fit,
    whole,
    inr all,
    λ q. (
      (quiet q).0,
      all
          ∙ ap (λ t. some (totals (length t) ((length bs + 1) % 2 ^ 32)))
              (sym (append-nil (chunks_text bs))
                ∙ ap (◌++◌ (chunks_text bs)) (sym (quiet q).0)
                ∙ whole),
    ),
  )
    where
      all :
          client (messages (msgs ++ end_of_data ∷ []))
          ≡ some (totals (length (chunks_text bs)) ((length bs + 1) % 2 ^ 32))
      all = ap (λ t. client (messages (t ++ end_of_data ∷ []))) e ∙ client-datas bs

  ended :
      (msgs : List Response) (oks : List Bool)
      → Served (msgs, oks)
      → Counted (true, (send end_of_data (msgs, oks)).1)
  ended msgs [] h = ended_sent msgs [] h.0 h.1 h.2 h.3
  ended msgs (true ∷ oks) (bs, rest, sent, quiet) =
      ended_sent msgs oks bs rest sent (λ q. ((quiet q).0, (quiet q).1.1))
  ended msgs (false ∷ oks) (bs, rest, (e, fit, whole), quiet) = (
    refl,
    bs,
    rest,
    fit,
    whole,
    inl (ap (λ t. client (messages t)) e ∙ client-waits bs),
    λ q. let f : false ≡ true = (quiet q).1.0 in absurd cc,
  )

-- The server's child always comes to its end and succeeds, whatever reads and sends are
-- interrupted or fail. The client then either waits for the last message, or has counted the
-- bytes and, on 32 bits, the messages of a beginning of the file, cut into blocks that fit a
-- message. If nothing fails, it has counted the whole file.
pub serve_request_lem :
    (file : Bytes) (turns : List Turn) (sends : List Bool)
    → Ends (Counted file turns sends) (serve_request (some (file, turns)) ([], sends))
unfolding serve_request
serve_request_lem file turns sends =
    let (q, e, h) =
      loop_rule (Serving file turns sends) (Served file turns sends) (togo file turns sends)
        serve_round (serve_round-Good file turns sends) (length file + length turns + 1)
        ((file, turns), ([], sends)) (omega arith) ([], (refl, tt, refl), λ q. q) in
    ((true, (send end_of_data q).1), ap last_message e, ended file turns sends q.0 q.1 h)
