-- ===== src/Claudy/App/Races/Stops.antt =====
-- The children that the stops of claudy-p2p/cmd/claudy/main.go have taken and not killed yet.
use some_go_foolery.Base.{
  ℕ, ◌≡◌, ◌⊎◌, inl, inr, ap, sym, ◌∙◌, subst, Bool-cases, Option, none, some, List, [], ◌∷◌,
  if◌then◌else◌,
}
use some_go_foolery.Base.Bytes.{Bytes, str_eq, str_eq_iff}
use some_go_foolery.Base.Dict.{Dict, lookup, remove, lookup-remove}
use some_go_foolery.Claudy.Subprocess.{Subprocess}
use some_go_foolery.Claudy.App.Kills.{In, InSlot, InConnect, some_injective}
use some_go_foolery.Claudy.App.Races.{
  Pending, Racing, child_of, stopping_slot, stopping_all, begin_remove, begin_stop_share,
  begin_stop_connect,
}
use some_go_foolery.Claudy.App.{World}

abbrev pub InPending : ℕ → List Pending → Type 0
InPending m [] = ⊥
InPending m (p ∷ ps) = ((child_of p).cmd ≡ some m) ⊎ InPending m ps

-- The child is that of a slot, of the connection, or in the hands of a request that is not over.
abbrev pub Held : ℕ → World → Type 0
Held m w = InSlot m w.app.slots ⊎ InConnect m w.app.connect

abbrev pub Known : ℕ → Racing → Type 0
Known m r = In m r.world.running → Held m r.world ⊎ InPending m r.pending

slot_behind :
    (m : ℕ) (o : Option Subprocess) (ps : List Pending)
    → InPending m ps
    → InPending m (stopping_slot o ps)
slot_behind m none ps i = i
slot_behind m (some sp) ps i = inr i

all_behind :
    (m : ℕ) (slots : Dict Subprocess) (ps : List Pending)
    → InPending m ps
    → InPending m (stopping_all slots ps)
all_behind m [] ps i = i
all_behind m ((room, sp) ∷ slots) ps i = inr (all_behind m slots ps i)

-- The child of the connection that is taken is pending.
connect_taken :
    (m : ℕ) (o : Option Subprocess) (ps : List Pending)
    → InConnect m o
    → InPending m (stopping_slot o ps)
connect_taken m o ps (sp, taken, runs) =
    subst (λ q. InPending m (stopping_slot q ps)) (sym taken) (inl runs)

-- The children of the slots that are taken are pending.
slots_taken :
    (m : ℕ) (slots : Dict Subprocess) (ps : List Pending)
    → InSlot m slots
    → InPending m (stopping_all slots ps)
unfolding lookup
slots_taken m [] ps (r, sq, found, runs) = cc
slots_taken m ((room, sp) ∷ slots) ps (r, sq, found, runs) = elim (Bool-cases (str_eq room r)) [
  | inl same ↦
      let here : some sp ≡ some sq =
        subst (λ b. (if b then some sp else lookup r slots) ≡ some sq) same found in
      inl (ap (λ s. s.cmd) (some_injective here) ∙ runs)
  | inr apart ↦ inr (
      slots_taken m slots ps
        (r, sq, subst (λ b. (if b then some sp else lookup r slots) ≡ some sq) apart found, runs))
]

-- The child of the slot that is taken is pending, and the others stay in their slots.
slot_taken :
    (m : ℕ) (room : Bytes) (slots : Dict Subprocess) (ps : List Pending)
    → InSlot m slots
    → InSlot m (remove room slots) ⊎ InPending m (stopping_slot (lookup room slots) ps)
slot_taken m room slots ps (r, sp, found, runs) = elim (Bool-cases (str_eq room r)) [
  | inl same ↦
      let here : lookup room slots ≡ some sp =
        subst (λ q. lookup q slots ≡ some sp) (sym ((str_eq_iff room r).0 same)) found in
      inr (subst (λ o. InPending m (stopping_slot o ps)) (sym here) (inl runs))
  | inr apart ↦ inl (
    r,
    sp,
    lookup-remove room r slots
        ∙ subst (λ b. (if b then none else lookup r slots) ≡ some sp) (sym apart) found,
    runs,
  )
]

pub begin_remove-Known :
    (m : ℕ) (room : Bytes) (r : Racing) → Known m r → Known m (begin_remove room r)
unfolding begin_remove
begin_remove-Known m room r h i = elim (h i) [
  | inl (inl s) ↦ elim (slot_taken m room r.world.app.slots r.pending s) [
    | inl kept ↦ inl (inl kept)
    | inr taken ↦ inr taken
  ]
  | inl (inr c) ↦ inl (inr c)
  | inr p ↦ inr (slot_behind m (lookup room r.world.app.slots) r.pending p)
]

pub begin_stop_share-Known : (m : ℕ) (r : Racing) → Known m r → Known m (begin_stop_share r)
unfolding begin_stop_share
begin_stop_share-Known m r h i = elim (h i) [
  | inl (inl s) ↦ inr (slots_taken m r.world.app.slots r.pending s)
  | inl (inr c) ↦ inl (inr c)
  | inr p ↦ inr (all_behind m r.world.app.slots r.pending p)
]

pub begin_stop_connect-Known : (m : ℕ) (r : Racing) → Known m r → Known m (begin_stop_connect r)
unfolding begin_stop_connect
begin_stop_connect-Known m r h i = elim (h i) [
  | inl (inl s) ↦ inl (inl s)
  | inl (inr c) ↦ inr (connect_taken m r.world.app.connect r.pending c)
  | inr p ↦ inr (slot_behind m r.world.app.connect r.pending p)
]
