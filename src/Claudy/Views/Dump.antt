-- ===== src/Claudy/Views/Dump.antt =====
-- The lines in the text of /api/logs of claudy-p2p/cmd/claudy/main.go.
use mathlib.Core.List.{append_assoc}
use some_go_foolery.Base.{
  ◌≡◌, ◌≢◌, refl, ap, sym, ◌∙◌, ◌||◌, not, Bool-cases, inl, inr, false, Option, none, some, List,
  [], ◌∷◌, ◌++◌, All, All-append, ◌==◌, ==_iff, arith, if◌then◌else◌,
}
use some_go_foolery.Base.Bytes.{Bytes, bytes}
use some_go_foolery.Claudy.App.{App, is_empty}
use some_go_foolery.Claudy.Mounts.{split_lines}
use some_go_foolery.Claudy.Subprocess.{Subprocess, all_logs}
use some_go_foolery.Claudy.Views.{
  newline, text_of, slot_title, connect_title, share_title, slots_dump, connect_dump, share_dump,
  none_dump, no_slots, log_dump,
}

-- No byte of the line is a newline.
abbrev OneLine : Bytes → Type 0
OneLine l = All (λ c. c ≢ 10) l

split_lines-line : (l s : Bytes) → OneLine l → split_lines (l ++ (newline ++ s)) ≡ l ∷ split_lines s
unfolding split_lines
split_lines-line [] s h = refl
split_lines-line (c ∷ l) s (ne, h) = rw (apart, split_lines-line l s h) refl
  where
    apart : (c == 10) ≡ false
    apart = ground (arith, ==_iff c 10)

-- A text made of lines is split into these lines, and then what follows.
split_lines-text_of :
    (ls : List Bytes) (s : Bytes)
    → All OneLine ls
    → split_lines (text_of ls ++ s) ≡ ls ++ split_lines s
split_lines-text_of [] s h = refl
split_lines-text_of (l ∷ ls) s (one, h) =
    rw (append_assoc, append_assoc)
      (split_lines-line l (text_of ls ++ s) one ∙ ap (◌∷◌ l) (split_lines-text_of ls s h))

-- Each child's title, its log and an empty line.
abbrev slot_lines : List Subprocess → List Bytes
slot_lines [] = []
slot_lines (sp ∷ slots) = (slot_title sp.room ∷ all_logs sp) ++ ([] ∷ slot_lines slots)

abbrev connect_lines : Option Subprocess → List Bytes
connect_lines none = []
connect_lines (some sp) = (connect_title sp.room ∷ all_logs sp) ++ ([] ∷ [])

abbrev Plain : Subprocess → Type 0
Plain sp = OneLine sp.room × All OneLine (all_logs sp)

abbrev PlainOption : Option Subprocess → Type 0
PlainOption none = Unit
PlainOption (some sp) = Plain sp

titled :
    (before l after : Bytes)
    → OneLine before
    → OneLine l
    → OneLine after
    → OneLine (before ++ (l ++ after))
titled before l after b h a =
    All-append (λ c. c ≢ 10) before (l ++ after) b (All-append (λ c. c ≢ 10) l after h a)

-- The part of one child, whatever follows.
block :
    (title : Bytes) (logs : List Bytes) (rest : Bytes)
    → OneLine title
    → All OneLine logs
    → split_lines (text_of (title ∷ logs) ++ (newline ++ rest))
      ≡ (title ∷ logs) ++ ([] ∷ split_lines rest)
block title logs rest t h =
    split_lines-text_of (title ∷ logs) (newline ++ rest) (t, h)
    ∙ ap (λ (ls : List Bytes). (title ∷ logs) ++ ls) (split_lines-line [] rest tt)

followed :
    (title : Bytes) (logs : List Bytes) (rest s : Bytes) (ls : List Bytes)
    → OneLine title
    → All OneLine logs
    → split_lines (rest ++ s) ≡ ls ++ split_lines s
    → split_lines ((text_of (title ∷ logs) ++ (newline ++ rest)) ++ s)
      ≡ ((title ∷ logs) ++ ([] ∷ ls)) ++ split_lines s
followed title logs rest s ls t h e =
    ap split_lines (append_assoc (text_of (title ∷ logs)) (newline ++ rest) s)
    ∙ (block title logs (rest ++ s) t h
        ∙ (ap (λ (l : List Bytes). (title ∷ logs) ++ ([] ∷ l)) e
            ∙ sym (append_assoc (title ∷ logs) ([] ∷ ls) (split_lines s))))

slot_title-OneLine : (room : Bytes) → OneLine room → OneLine (slot_title room)
slot_title-OneLine room h =
    titled (bytes "--- slot room: ") room (bytes " ---") (omega arith) h (omega arith)

connect_title-OneLine : (room : Bytes) → OneLine room → OneLine (connect_title room)
connect_title-OneLine room h =
    titled (bytes "=== Connect (room: ") room (bytes ") ===") (omega arith) h (omega arith)

split_lines-slots_dump :
    (slots : List Subprocess) (s : Bytes)
    → All Plain slots
    → split_lines (slots_dump slots ++ s) ≡ slot_lines slots ++ split_lines s
split_lines-slots_dump [] s h = refl
split_lines-slots_dump (sp ∷ slots) s ((room, logs), h) =
    followed (slot_title sp.room) (all_logs sp) (slots_dump slots) s (slot_lines slots)
      (slot_title-OneLine sp.room room) logs (split_lines-slots_dump slots s h)

split_lines-connect_dump :
    (o : Option Subprocess) (s : Bytes)
    → PlainOption o
    → split_lines (connect_dump o ++ s) ≡ connect_lines o ++ split_lines s
split_lines-connect_dump none s h = refl
split_lines-connect_dump (some sp) s (room, logs) =
    followed (connect_title sp.room) (all_logs sp) [] s [] (connect_title-OneLine sp.room room) logs
      refl

abbrev share_lines : List Subprocess → Bytes → List Bytes
share_lines slots dir =
    if not (is_empty dir) || not (no_slots slots)
    then (share_title dir ∷ [] ∷ []) ++ slot_lines slots
    else []

-- The text of the log dump, read line by line: the connection, then the slots, each with its title and its
-- whole log in order, where no room, folder or log line has a newline of its own.
split_lines-log_dump :
    (slots : List Subprocess) (a : App)
    → All Plain slots
    → PlainOption a.connect
    → OneLine a.share_dir
    → split_lines (log_dump slots a)
      ≡ connect_lines a.connect
        ++ (share_lines slots a.share_dir ++ split_lines (none_dump a.connect slots))
unfolding log_dump
split_lines-log_dump slots a hs hc hd =
    split_lines-connect_dump a.connect _ hc
    ∙ ap (λ (ls : List Bytes). connect_lines a.connect ++ ls) (shared (none_dump a.connect slots))
  where
    title : OneLine (share_title a.share_dir)
    title =
        titled (bytes "=== Share " ++ (0xE2 ∷ 0x80 ∷ 0x94 ∷ bytes " folder: ")) a.share_dir
          (bytes " ===") (omega arith) hd (omega arith)

    shared :
        (s : Bytes)
        → split_lines (share_dump slots a.share_dir ++ s)
          ≡ share_lines slots a.share_dir ++ split_lines s
    shared s = elim (Bool-cases (not (is_empty a.share_dir) || not (no_slots slots))) [
      | inr nothing ↦ rw nothing refl
      | inl some_share ↦ rw some_share (
          ap split_lines
            (append_assoc (text_of (share_title a.share_dir ∷ [] ∷ [])) (slots_dump slots) s)
          ∙ (split_lines-text_of (share_title a.share_dir ∷ [] ∷ []) (slots_dump slots ++ s)
                (title, (tt, tt))
              ∙ ap (λ (ls : List Bytes). (share_title a.share_dir ∷ [] ∷ []) ++ ls)
                  (split_lines-slots_dump slots s hs)))
    ]
