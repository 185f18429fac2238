-- ===== src/Claudy/Subprocess/Ring.antt =====
-- The log ring and the status of claudy-p2p/cmd/claudy/main.go after many lines.
use some_go_foolery.Base.{
  ℕ, zero, suc, ◌+◌, ◌-◌, ◌≤◌, ◌≡◌, refl, ap, sym, ◌∙◌, Bool, false, ◌&&◌, List, [], ◌∷◌, ◌++◌,
  length, drop, length-append, length-drop, ltb, if◌then◌else◌, Bool-cases, inl, inr, All, arith,
}
use mathlib.Core.List.{append_assoc, append-nil}
use some_go_foolery.Base.Bytes.{Bytes}
use some_go_foolery.Claudy.Subprocess.{
  Subprocess, connected, last_lines, max_log_lines, push_log_line, next_status, snapshot, all_logs,
  relayed, is_waiting, is_paired, is_up, is_lost, is_selected, is_relay,
}
use some_go_foolery.Claudy.Subprocess.Pipe.{push_all}

module _ {ℓ} {A : Type ℓ} where
  drop-nil : (n : ℕ) → drop {A = A} n [] ≡ []
  drop-nil zero = refl
  drop-nil (suc n) = refl

  drop-drop : (j k : ℕ) (l : List A) → drop j (drop k l) ≡ drop (k + j) l
  drop-drop j zero l = ap (λ n. drop n l) (omega arith)
  drop-drop j (suc k) [] = drop-nil j ∙ sym (drop-nil (suc k + j))
  drop-drop j (suc k) (x ∷ xs) = drop-drop j k xs ∙ ap (λ n. drop n (x ∷ xs)) next
    where
      next : suc (k + j) ≡ suc k + j
      next = omega arith

  drop_within : (k : ℕ) (l m : List A) → k ≤ length l → drop k (l ++ m) ≡ drop k l ++ m
  drop_within zero l m h = refl
  drop_within (suc k) [] m h = absurd (omega arith)
  drop_within (suc k) (x ∷ xs) m h = drop_within k xs m (omega arith)

  last_lines-drop : (n : ℕ) (l : List A) → last_lines n l ≡ drop (length l - n) l
  last_lines-drop n l = elim (Bool-cases (ltb n (length l))) [
    | inl long ↦ rw long refl
    | inr short ↦ let none : length l - n ≡ 0 = ground arith in rw (short, none) refl
  ]

  -- What is cut off early does not come back.
  last_lines_twice :
      (n : ℕ) (l m : List A) → last_lines n (last_lines n l ++ m) ≡ last_lines n (l ++ m)
  last_lines_twice n l m =
      let k = length l - n in
      let cut : last_lines n l ++ m ≡ drop k (l ++ m) =
        ap (λ r. r ++ m) (last_lines-drop n l) ∙ sym (drop_within k l m (omega arith)) in
      ap (last_lines n) cut
      ∙ last_lines-drop n (drop k (l ++ m))
      ∙ drop-drop (length (drop k (l ++ m)) - n) k (l ++ m)
      ∙ ap (λ j. drop j (l ++ m)) (omega (arith, length-drop k (l ++ m), length-append l m))
      ∙ sym (last_lines-drop n (l ++ m))

  last_lines_short : (n : ℕ) (l : List A) → length l ≤ n → last_lines n l ≡ l
  last_lines_short n l h = last_lines-drop n l ∙ ap (λ k. drop k l) (no_more (length l) n h)
    where
      no_more : (k m : ℕ) → k ≤ m → k - m ≡ 0
      no_more k m h = omega arith

  length-last_lines : (n : ℕ) (l : List A) → length (last_lines n l) ≤ n
  length-last_lines n l =
      let e = ap length (last_lines-drop n l) in omega (arith, e, length-drop (length l - n) l)

push_all_ring :
    (lines : List Bytes) (s : Subprocess)
    → length s.log_lines ≤ max_log_lines
    → (push_all lines s).log_lines ≡ last_lines max_log_lines (s.log_lines ++ lines)
unfolding push_log_line
push_all_ring [] s h = sym (
    ap (last_lines max_log_lines) (append-nil s.log_lines)
    ∙ last_lines_short max_log_lines s.log_lines h)
push_all_ring (line ∷ lines) s h =
    push_all_ring lines (push_log_line line s)
      (length-last_lines max_log_lines (s.log_lines ++ line ∷ []))
    ∙ last_lines_twice max_log_lines (s.log_lines ++ line ∷ []) lines
    ∙ ap (last_lines max_log_lines) (append_assoc s.log_lines (line ∷ []) lines)

last_lines-last_lines :
    {A : Type 0} (m n : ℕ) (l : List A) → m ≤ n → last_lines m (last_lines n l) ≡ last_lines m l
last_lines-last_lines m n l h =
    ap (last_lines m) (last_lines-drop n l)
    ∙ last_lines-drop m (drop (length l - n) l)
    ∙ drop-drop (length (drop (length l - n) l) - m) (length l - n) l
    ∙ ap (λ k. drop k l) (omega (arith, length-drop (length l - n) l))
    ∙ sym (last_lines-drop m l)

-- However many lines a child has written, the ring holds the last 200 of them and the status view the
-- last 30, in order.
push_all_lem :
    (lines : List Bytes) (s : Subprocess) (now : ℕ)
    → s.log_lines ≡ []
    → (all_logs (push_all lines s) ≡ last_lines 200 lines)
      × ((snapshot now (push_all lines s)).2 ≡ last_lines 30 lines)
unfolding all_logs snapshot
push_all_lem lines s now e =
    let ring : (push_all lines s).log_lines ≡ last_lines max_log_lines lines =
      push_all_ring lines s (omega (arith, ap length e))
      ∙ ap (λ l. last_lines max_log_lines (l ++ lines)) e in
    (ring, ap (last_lines 30) ring ∙ last_lines-last_lines 30 200 lines (omega arith))

-- Neither announces another state than the tunnel's.
abbrev pub Ordinary : Bytes → Type 0
Ordinary line = (is_waiting line ≡ false) × ((is_selected line && is_relay line) ≡ false)

next_connected : (line : Bytes) → Ordinary line → next_status line connected ≡ connected
unfolding next_status
next_connected line (w, r) =
    rw w (go (is_paired line) (is_up line) (is_lost line) (is_selected line) (is_relay line) r)
  where
    go :
        (p u l c k : Bool)
        → (c && k) ≡ false
        → (if p
            then connected
            else if u
            then connected
            else if l
            then connected
            else if c
            then if k then relayed else connected
            else connected)
          ≡ connected
    go p u l c k h = ground arith

-- Once a tunnel is up over a direct path, no line about a failed or closed connection changes the status:
-- it stays connected until a line that the viewer is awaited, or that a relayed path was selected.
connected_stays :
    (lines : List Bytes) (s : Subprocess)
    → s.last_status ≡ connected
    → All Ordinary lines
    → (push_all lines s).last_status ≡ connected
unfolding push_log_line
connected_stays [] s h o = h
connected_stays (line ∷ lines) s h (o, os) =
    connected_stays lines (push_log_line line s) (ap (next_status line) h ∙ next_connected line o)
      os
