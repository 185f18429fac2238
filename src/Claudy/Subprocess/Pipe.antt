-- ===== src/Claudy/Subprocess/Pipe.antt =====
-- pipeToLog of claudy-p2p/cmd/claudy/main.go.
use some_go_foolery.Base.{
  ℕ, zero, suc, ◌≡◌, refl, ap, sym, ◌∙◌, false, Option, none, some, List, [], ◌∷◌, ◌++◌, length,
  concat, ◌==◌, if◌then◌else◌, Bool-cases, inl, inr, All, All-append, arith, ◌<◌, ◌≤◌,
}
use mathlib.Core.List.{append_assoc, append-nil}
use some_go_foolery.Base.Bytes.{Bytes}
use some_go_foolery.Claudy.Subprocess.{Subprocess, push_log_line}

abbrev pub newline : ℕ
newline = 10

-- `strings.TrimRight(line, "\r")`.
unfoldable pub trim_returns : Bytes → Bytes
trim_returns [] = []
trim_returns (x ∷ xs) = keep x (trim_returns xs)
  where
    keep : ℕ → Bytes → Bytes
    keep x [] = if x == 13 then [] else x ∷ []
    keep x (y ∷ ys) = x ∷ y ∷ ys

-- The bytes before the first newline, and those behind it.
abbrev pub put_first : ℕ → Option (Bytes × Bytes) → Option (Bytes × Bytes)
put_first x none = none
put_first x (some (line, rest)) = some (x ∷ line, rest)

unfoldable pub break_line : Bytes → Option (Bytes × Bytes)
break_line [] = none
break_line (x ∷ xs) =
    let later = break_line xs in if x == newline then some ([], xs) else put_first x later

-- The inner loop on `partial`: the finished lines, trimmed, and what is left. Every round takes the
-- newline at least, so as much fuel as there are bytes is enough.
abbrev pub next_cut :
    Bytes → Option (Bytes × Bytes) → (Bytes → List Bytes × Bytes) → List Bytes × Bytes
next_cut partial none next = ([], partial)
next_cut partial (some (line, rest)) next = (trim_returns line ∷ (next rest).0, (next rest).1)

unfoldable pub cut_lines : ℕ → Bytes → List Bytes × Bytes
cut_lines zero partial = ([], partial)
cut_lines (suc fuel) partial = next_cut partial (break_line partial) (cut_lines fuel)

abbrev pub cut : Bytes → List Bytes × Bytes
cut partial = cut_lines (length partial) partial

-- The lines that a whole pipe pushes, given what each `Read` returns until its error.
abbrev pub at_end : Bytes → List Bytes
at_end [] = []
at_end (x ∷ xs) = (x ∷ xs) ∷ []

unfoldable pub pipe_lines : Bytes → List Bytes → List Bytes
pipe_lines partial [] = at_end partial
pipe_lines partial (chunk ∷ chunks) =
    (cut (partial ++ chunk)).0 ++ pipe_lines (cut (partial ++ chunk)).1 chunks

abbrev pub push_all : List Bytes → Subprocess → Subprocess
push_all [] s = s
push_all (l ∷ ls) s = push_all ls (push_log_line l s)

unfoldable pub pipe_to_log : List Bytes → Subprocess → Subprocess
pipe_to_log chunks s = push_all (pipe_lines [] chunks) s

-- The lines of a text read byte by byte, `read` being the bytes of the unfinished line.
abbrev pub lines_of : Bytes → Bytes → List Bytes × Bytes
lines_of read [] = ([], read)
lines_of read (x ∷ xs) =
    let line_ends = lines_of [] xs in
    let goes_on = lines_of (read ++ x ∷ []) xs in
    if x == newline then (trim_returns read ∷ line_ends.0, line_ends.1) else goes_on

abbrev pub whole : List Bytes × Bytes → List Bytes
whole (lines, rest) = lines ++ at_end rest

snoc-append : (p : Bytes) (x : ℕ) (q : Bytes) → (p ++ x ∷ []) ++ q ≡ p ++ x ∷ q
snoc-append p x q = append_assoc p (x ∷ []) q

abbrev broken : Bytes → Bytes → Option (Bytes × Bytes) → List Bytes × Bytes
broken read p none = ([], read ++ p)
broken read p (some (line, rest)) =
    (trim_returns (read ++ line) ∷ (lines_of [] rest).0, (lines_of [] rest).1)

broken-put_first :
    (read : Bytes) (x : ℕ) (p : Bytes) (o : Option (Bytes × Bytes))
    → broken (read ++ x ∷ []) p o ≡ broken read (x ∷ p) (put_first x o)
broken-put_first read x p none = ap (λ q. ([], q)) (snoc-append read x p)
broken-put_first read x p (some (line, rest)) =
    ap (λ q. (trim_returns q ∷ (lines_of [] rest).0, (lines_of [] rest).1))
      (snoc-append read x line)

lines_of-break_line : (read p : Bytes) → lines_of read p ≡ broken read p (break_line p)
unfolding break_line
lines_of-break_line read [] = ap (λ q. ([], q)) (sym (append-nil read))
lines_of-break_line read (x ∷ xs) = elim (Bool-cases (x == newline)) [
  | inl e ↦ rw (e, append-nil read) refl
  | inr e ↦
      rw e (lines_of-break_line (read ++ x ∷ []) xs ∙ broken-put_first read x xs (break_line xs))
]

abbrev Shorter : Bytes → Option (Bytes × Bytes) → Type 0
Shorter p none = Unit
Shorter p (some (line, rest)) = length rest < length p

break_line-Shorter : (p : Bytes) → Shorter p (break_line p)
unfolding break_line
break_line-Shorter [] = tt
break_line-Shorter (x ∷ xs) = elim (Bool-cases (x == newline)) [
  | inl e ↦ rw e (omega arith)
  | inr e ↦ rw e (later (break_line xs) (break_line-Shorter xs))
]
  where
    later : (o : Option (Bytes × Bytes)) → Shorter xs o → Shorter (x ∷ xs) (put_first x o)
    later none h = tt
    later (some (line, rest)) h = omega (arith, h)

-- The loop finds the lines of the text.
cut_lines-lines_of : (fuel : ℕ) (p : Bytes) → length p ≤ fuel → cut_lines fuel p ≡ lines_of [] p
unfolding cut_lines
cut_lines-lines_of zero [] h = refl
cut_lines-lines_of zero (x ∷ xs) h = absurd (omega arith)
cut_lines-lines_of (suc fuel) p h =
    go (break_line p) (break_line-Shorter p) (cut_lines-lines_of fuel)
    ∙ sym (lines_of-break_line [] p)
  where
    go :
        (o : Option (Bytes × Bytes))
        → Shorter p o
        → ((q : Bytes) → length q ≤ fuel → cut_lines fuel q ≡ lines_of [] q)
        → next_cut p o (cut_lines fuel) ≡ broken [] p o
    go none s later = refl
    go (some (line, rest)) s later =
        ap (λ r. (trim_returns line ∷ r.0, r.1)) (later rest (omega (arith, h, s)))

lines_of-append :
    (read p q : Bytes)
    → lines_of read (p ++ q) ≡ (
      (lines_of read p).0 ++ (lines_of (lines_of read p).1 q).0,
      (lines_of (lines_of read p).1 q).1,
    )
lines_of-append read [] q = refl
lines_of-append read (x ∷ xs) q = elim (Bool-cases (x == newline)) [
  | inl e ↦ rw e (ap (λ r. (trim_returns read ∷ r.0, r.1)) (lines_of-append [] xs q))
  | inr e ↦ rw e (lines_of-append (read ++ x ∷ []) xs q)
]

abbrev NoNewline : Bytes → Type 0
NoNewline p = All (λ x. (x == newline) ≡ false) p

lines_of_started :
    (read p q : Bytes) → NoNewline p → lines_of read (p ++ q) ≡ lines_of (read ++ p) q
lines_of_started read [] q h = ap (λ r. lines_of r q) (sym (append-nil read))
lines_of_started read (x ∷ xs) q (h, hs) =
    rw h
      (lines_of_started (read ++ x ∷ []) xs q hs ∙ ap (λ r. lines_of r q) (snoc-append read x xs))

lines_of-NoNewline : (read p : Bytes) → NoNewline read → NoNewline (lines_of read p).1
lines_of-NoNewline read [] h = h
lines_of-NoNewline read (x ∷ xs) h = elim (Bool-cases (x == newline)) [
  | inl e ↦ rw e (lines_of-NoNewline [] xs tt)
  | inr e ↦ rw e (
      lines_of-NoNewline (read ++ x ∷ []) xs
        (All-append (λ y. (y == newline) ≡ false) read (x ∷ []) h (e, tt)))
]

pipe_lines-lines_of :
    (read : Bytes) (chunks : List Bytes)
    → NoNewline read
    → pipe_lines read chunks ≡ whole (lines_of read (concat chunks))
unfolding pipe_lines
pipe_lines-lines_of read [] h = refl
pipe_lines-lines_of read (chunk ∷ chunks) h =
    let x = lines_of read chunk in
    ap (λ r. r.0 ++ pipe_lines r.1 chunks)
      (cut_lines-lines_of (length (read ++ chunk)) (read ++ chunk) (omega arith)
        ∙ lines_of_started [] read chunk h)
    ∙ ap (◌++◌ x.0) (pipe_lines-lines_of x.1 chunks (lines_of-NoNewline read chunk h))
    ∙ sym (
        append_assoc x.0 (lines_of x.1 (concat chunks)).0 (at_end (lines_of x.1 (concat chunks)).1))
    ∙ ap whole (sym (lines_of-append read chunk (concat chunks)))

-- However the reads chop a child's output up, the lines that go to the log are those of the text: what
-- ends in a newline, without the carriage returns before it, and an unfinished last line as it is.
pub pipe_to_log_lem :
    (chunks : List Bytes) (s : Subprocess)
    → pipe_to_log chunks s ≡ push_all (whole (lines_of [] (concat chunks))) s
unfolding pipe_to_log
pipe_to_log_lem chunks s = ap (λ l. push_all l s) (pipe_lines-lines_of [] chunks tt)
