-- ===== src/Claudy/App/Owned.antt =====
-- The children of claudy-p2p/cmd/claudy/main.go before and after each operation.
use some_go_foolery.Base.{
  ℕ, ◌≡◌, ◌≢◌, ◌⊎◌, inl, inr, refl, ap, sym, ◌∙◌, subst, false, Option, none, some, List, [], ◌∷◌,
  if◌then◌else◌, ◌==◌, ==_iff, Bool-cases, arith,
}
use some_go_foolery.Base.Bytes.{Bytes, str_eq, str_eq_iff}
use some_go_foolery.Base.Dict.{Dict, lookup, insert, remove, lookup-insert, lookup-remove}
use some_go_foolery.Claudy.Subprocess.{Subprocess, launch, stop, child_exited}
use some_go_foolery.Claudy.App.{
  World, put_slot, new_viewer, spawned, stop_slot, remove_viewer, stop_share, connecting,
  stop_connect, exits, mark_exited, mark_slots, mark_connect, is_child,
}
use some_go_foolery.Claudy.App.Kills.{
  In, InSlot, InConnect, Owned, some_injective, In-kill, In-kill_option, In-kill_all,
}

pub unheld : {sp : Subprocess} → none ≡ some sp → ⊥
unheld e = cc

-- In a slot of another room nothing changes.
pub insert-InSlot :
    (room : Bytes) (new : Subprocess) (m : ℕ) (slots : Dict Subprocess)
    → lookup room slots ≡ none
    → InSlot m slots
    → InSlot m (insert room new slots)
insert-InSlot room new m slots fresh (r, sp, found, runs) = elim (Bool-cases (str_eq room r)) [
  | inl same ↦
      absurd (
        unheld
          (sym (subst (λ q. lookup q slots ≡ none) ((str_eq_iff room r).0 same) fresh) ∙ found))
  | inr apart ↦ (
    r,
    sp,
    lookup-insert room r new slots
        ∙ subst (λ b. (if b then some new else lookup r slots) ≡ some sp) (sym apart) found,
    runs,
  )
]

pub add-Owned :
    (m : ℕ) (room : Bytes) (now : ℕ) (start : Option ℕ) (w : World)
    → lookup room w.app.slots ≡ none
    → Owned m w
    → Owned m (spawned room now start w).1
unfolding put_slot launch
add-Owned m room now none w fresh h i = h i
add-Owned m room now (some n) w fresh h (inl e) =
    let sp = launch n (new_viewer room w.app.share_dir now) in
    inl (
      room,
      sp,
      lookup-insert room room sp w.app.slots
          ∙ ap (λ b. if b then some sp else lookup room w.app.slots)
              ((str_eq_iff room room).1 refl),
      ap some (sym e),
    )
add-Owned m room now (some n) w fresh h (inr i) = elim (h i) [
  | inl s ↦
      inl
        (insert-InSlot room (launch n (new_viewer room w.app.share_dir now)) m w.app.slots fresh s)
  | inr c ↦ inr c
]

remove-InSlot :
    (room : Bytes) (m : ℕ) (slots : Dict Subprocess) (l : List ℕ)
    → In m (stop_slot (lookup room slots) l)
    → In m l × (InSlot m slots → InSlot m (remove room slots))
unfolding stop
remove-InSlot room m slots l i = go (lookup room slots) refl i
  where
    kept :
        ((r : Bytes) (sp : Subprocess) → lookup r slots ≡ some sp → sp.cmd ≡ some m → room ≢ r)
        → InSlot m slots
        → InSlot m (remove room slots)
    kept elsewhere (r, sp, found, runs) =
        let apart : str_eq room r ≡ false =
          let ne = elsewhere r sp found runs in ground (arith, str_eq_iff room r) in
        (
          r,
          sp,
          lookup-remove room r slots
              ∙ subst (λ b. (if b then none else lookup r slots) ≡ some sp) (sym apart) found,
          runs,
        )

    go :
        (o : Option Subprocess)
        → lookup room slots ≡ o
        → In m (stop_slot o l)
        → In m l × (InSlot m slots → InSlot m (remove room slots))
    go none e i = (
      i,
      kept (λ r sp found runs same.
          unheld (sym (subst (λ q. lookup q slots ≡ none) same e) ∙ found)),
    )
    go (some sq) e i =
        let stays = In-kill_option m sq.cmd l i in
        (
          stays.0,
          kept (λ r sp found runs same. stays.1 (
              ap (λ s. s.cmd)
                (some_injective (sym (subst (λ q. lookup q slots ≡ some sq) same e) ∙ found))
              ∙ runs)),
        )

pub remove-Owned : (m : ℕ) (room : Bytes) (w : World) → Owned m w → Owned m (remove_viewer room w)
unfolding remove_viewer
remove-Owned m room w h i =
    let (runs, moves) = remove-InSlot room m w.app.slots w.running i in
    elim (h runs) [ inl s ↦ inl (moves s) | inr c ↦ inr c ]

pub stop_share-Owned : (m : ℕ) (w : World) → Owned m w → Owned m (stop_share w)
unfolding stop_share
stop_share-Owned m w h i =
    let gone = In-kill_all m w.app.slots w.running i in
    elim (h gone.0) [ inl s ↦ absurd (gone.1 s) | inr c ↦ inr c ]

pub stop_connect-Owned : (m : ℕ) (w : World) → Owned m w → Owned m (stop_connect w)
unfolding stop_connect stop
stop_connect-Owned m w h i = go w.app.connect refl i
  where
    go :
        (o : Option Subprocess)
        → w.app.connect ≡ o
        → In m (stop_slot o w.running)
        → InSlot m w.app.slots ⊎ InConnect m none
    go none e i = elim (h i) [
      | inl s ↦ inl s
      | inr (sp, taken, runs) ↦ absurd (unheld (sym e ∙ taken))
    ]
    go (some sq) e i =
        let stays = In-kill_option m sq.cmd w.running i in
        elim (h stays.0) [
          | inl s ↦ inl s
          | inr (sp, taken, runs) ↦
              absurd (stays.1 (ap (λ s. s.cmd) (some_injective (sym e ∙ taken)) ∙ runs))
        ]

pub connect-Owned :
    (m : ℕ) (room addr : Bytes) (now : ℕ) (start : Option ℕ) (w : World)
    → w.app.connect ≡ none
    → Owned m w
    → Owned m (connecting room addr now start w).1
unfolding launch
connect-Owned m room addr now none w free h i = h i
connect-Owned m room addr now (some n) w free h (inl e) = inr (_, refl, ap some (sym e))
connect-Owned m room addr now (some n) w free h (inr i) = elim (h i) [
  | inl s ↦ inl s
  | inr (sp, taken, runs) ↦ absurd (unheld (sym free ∙ taken))
]

-- The mark of an exit leaves the other children's numbers.
pub mark_exited-cmd :
    (n m : ℕ) (failure : Option Bytes) (sp : Subprocess)
    → n ≢ m
    → sp.cmd ≡ some m
    → (mark_exited n failure sp).cmd ≡ some m
unfolding mark_exited
mark_exited-cmd n m failure sp ne runs =
    let apart : (n == m) ≡ false = ground (arith, ==_iff n m) in
    subst (λ b. (if b then child_exited failure sp else sp).cmd ≡ some m)
      (sym (ap (is_child n) runs ∙ apart)) runs

lookup-mark_slots :
    (n : ℕ) (failure : Option Bytes) (r : Bytes) (sp : Subprocess) (slots : Dict Subprocess)
    → lookup r slots ≡ some sp
    → lookup r (mark_slots n failure slots) ≡ some (mark_exited n failure sp)
unfolding lookup
lookup-mark_slots n failure r sp [] h = absurd (unheld h)
lookup-mark_slots n failure r sp ((q, sq) ∷ slots) h = elim (Bool-cases (str_eq q r)) [
  | inl same ↦ rw same (
      ap (λ s. some (mark_exited n failure s))
        (some_injective (subst (λ b. (if b then some sq else lookup r slots) ≡ some sp) same h)))
  | inr apart ↦ rw apart (
      lookup-mark_slots n failure r sp slots
        (subst (λ b. (if b then some sq else lookup r slots) ≡ some sp) apart h))
]

pub exits-Owned :
    (m : ℕ) (n : ℕ) (failure : Option Bytes) (w : World) → Owned m w → Owned m (exits n failure w)
unfolding exits
exits-Owned m n failure w h i =
    let (runs, other) = In-kill m n w.running i in
    elim (h runs) [
      | inl (r, sp, found, cmd) ↦ inl (
        r,
        mark_exited n failure sp,
        lookup-mark_slots n failure r sp w.app.slots found,
        mark_exited-cmd n m failure sp (λ e. other (sym e)) cmd,
      )
      | inr (sp, taken, cmd) ↦ inr (
        mark_exited n failure sp,
        ap (mark_connect n failure) taken,
        mark_exited-cmd n m failure sp (λ e. other (sym e)) cmd,
      )
    ]
