-- ===== src/Io/Tests.antt =====
-- Runs of the transfer functions, and their theorems at concrete inputs.
use bookcode_linux.Common.{◌≡◌, refl, some, List, [], ◌∷◌, Bytes, codes, Ends, arith, true}
use bookcode_linux.Common.Int.{pos}
use bookcode_linux.Io.Posix.{Turn, deliver, interrupted, failing, done, fail}
use bookcode_linux.Io.Rdwrn.{readn, writen}
use bookcode_linux.Io.Rdwrn.Laws.{readn_lem, Returned}
use bookcode_linux.Io.Rdwrn.WriteLaws.{writen_lem, Written}
use bookcode_linux.Io.Line.{ReadLineBuf, read_line, read_line_buf}
use bookcode_linux.Io.Line.Laws.{read_line_lem}
use bookcode_linux.Io.Line.Laws
use bookcode_linux.Io.Line.BufLaws
use bookcode_linux.Io.Line.BufLaws.{read_line_buf_lem}
use bookcode_linux.Io.Line.Agree.{Agree, read_line-read_line_buf}

abbrev text : Bytes
text = codes "ab\ncd"

-- A short transfer, an interruption, a long transfer.
abbrev bumpy : List Turn
bumpy = deliver 0 ∷ interrupted ∷ deliver 9 ∷ []

readn-bumpy : readn 4 (text, bumpy) ≡ some (done 4, codes "ab\nc", (codes "d", []))
unfolding readn
readn-bumpy = refl

writen_fails : writen 4 text ([], deliver 1 ∷ failing 28 ∷ []) ≡ some (fail 28, (codes "ab", []))
unfolding writen
writen_fails = refl

read_line_cut :
    read_line 2 (text, [])
    ≡ some (record { ret = done 1; buf = codes "a"; terminated = true; fd = (codes "cd", []) })
unfolding read_line
read_line_cut = refl

abbrev empty_block : ReadLineBuf
empty_block = record { fd = (text, deliver 3 ∷ []); buf = []; next = 0; len = pos 0 }

read_line_buf_first :
    read_line_buf 9 empty_block
    ≡ some (
        some (
          done 3,
          codes "ab\n",
          record { fd = (codes "d", []); buf = codes "ab\nc"; next = 3; len = pos 4 },
        ))
unfolding read_line_buf
read_line_buf_first = refl

readn_lem_example : Ends (Returned 4 text bumpy) (readn 4 (text, bumpy))
readn_lem_example = readn_lem 4 text bumpy

writen_lem_example : Ends (Written 4 [] text bumpy) (writen 4 text ([], bumpy))
writen_lem_example = writen_lem 4 text [] bumpy

read_line_lem_example : Ends (Laws.Said 2 text bumpy) (read_line 2 (text, bumpy))
read_line_lem_example = read_line_lem 2 text bumpy (omega arith)

read_line_buf_lem_example :
    Ends (BufLaws.Said 9 text (deliver 3 ∷ [])) (read_line_buf 9 empty_block)
read_line_buf_lem_example = read_line_buf_lem 9 empty_block (omega arith) (omega arith)

read_line-read_line_buf_example :
    Agree (read_line 10 (text, deliver 0 ∷ [])) (read_line_buf 9 empty_block)
read_line-read_line_buf_example =
    read_line-read_line_buf 9 empty_block (deliver 0 ∷ []) (omega arith) (omega arith) tt tt
