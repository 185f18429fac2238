-- ===== src/Claudy/App/Kills.antt =====
-- Which children of claudy-p2p/cmd/claudy/main.go a stop leaves running.
use some_go_foolery.Base.{
  ℕ, ◌≡◌, ◌≢◌, ◌⊎◌, inl, inr, ap, sym, ◌∙◌, subst, Option, none, some, List, [], ◌∷◌, if◌then◌else◌,
  ◌==◌, ==_iff, Bool-cases, arith,
}
use some_go_foolery.Base.Bytes.{Bytes, str_eq}
use some_go_foolery.Base.Dict.{Dict, lookup}
use some_go_foolery.Claudy.Subprocess.{Subprocess, stop}
use some_go_foolery.Claudy.App.{World, kill, kill_all}

abbrev pub In : ℕ → List ℕ → Type 0
In m [] = ⊥
In m (x ∷ xs) = (m ≡ x) ⊎ In m xs

-- The child is that of a slot or of the connection.
abbrev pub InSlot : ℕ → Dict Subprocess → Type 0
InSlot m slots =
    (room : Bytes) × (sp : Subprocess) × (lookup room slots ≡ some sp) × (sp.cmd ≡ some m)

abbrev pub InConnect : ℕ → Option Subprocess → Type 0
InConnect m o = (sp : Subprocess) × (o ≡ some sp) × (sp.cmd ≡ some m)

abbrev pub Owned : ℕ → World → Type 0
Owned m w = In m w.running → InSlot m w.app.slots ⊎ InConnect m w.app.connect

pub some_injective : {A : Type 0} {a b : A} → some a ≡ some b → a ≡ b
some_injective h = cc

pub In-kill : (m n : ℕ) (l : List ℕ) → In m (kill (some n) l) → In m l × (m ≢ n)
unfolding kill
In-kill m n [] h = elim h [ ]
In-kill m n (x ∷ xs) h = elim (Bool-cases (n == x)) [
  | inl same ↦
      let later =
        In-kill m n xs
          (subst (λ b. In m (if b then kill (some n) xs else x ∷ kill (some n) xs)) same h) in
      (inr later.0, later.1)
  | inr apart ↦
      split (subst (λ b. In m (if b then kill (some n) xs else x ∷ kill (some n) xs)) apart h)
        (In-kill m n xs) (λ e. ground (arith, ==_iff n x))
]
  where
    split :
        (m ≡ x) ⊎ In m (kill (some n) xs)
        → (In m (kill (some n) xs) → In m xs × (m ≢ n))
        → n ≢ x
        → In m (x ∷ xs) × (m ≢ n)
    split (inl e) later ne = (inl e, λ q. ne (sym q ∙ e))
    split (inr i) later ne = let r = later i in (inr r.0, r.1)

pub In-kill_option : (m : ℕ) (o : Option ℕ) (l : List ℕ) → In m (kill o l) → In m l × (o ≢ some m)
unfolding kill
In-kill_option m none l h = (h, λ q. cc)
In-kill_option m (some n) l h = let r = In-kill m n l h in (r.0, λ q. r.1 (sym (same q)))
  where
    same : some n ≡ some m → n ≡ m
    same q = cc

pub In-kill_all :
    (m : ℕ) (slots : Dict Subprocess) (l : List ℕ)
    → In m (kill_all slots l)
    → In m l × ¬ InSlot m slots
unfolding lookup stop
In-kill_all m [] l h = (h, λ i. clash i.2)
  where
    clash : {sp : Subprocess} → none ≡ some sp → ⊥
    clash e = cc
In-kill_all m ((room, sp) ∷ slots) l h =
    let later = In-kill_all m slots (kill sp.cmd l) h in
    let first = In-kill_option m sp.cmd l later.0 in (first.0, λ i. nowhere i later.1 first.1)
  where
    nowhere : InSlot m ((room, sp) ∷ slots) → ¬ InSlot m slots → sp.cmd ≢ some m → ⊥
    nowhere (r, sq, found, runs) others this = elim (Bool-cases (str_eq room r)) [
      | inl same ↦
          let here : some sp ≡ some sq =
            subst (λ b. (if b then some sp else lookup r slots) ≡ some sq) same found in
          this (ap (λ s. s.cmd) (some_injective here) ∙ runs)
      | inr apart ↦
          others (
            r,
            sq,
            subst (λ b. (if b then some sp else lookup r slots) ≡ some sq) apart found,
            runs,
          )
    ]
