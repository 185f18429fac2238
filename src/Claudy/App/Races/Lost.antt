-- ===== src/Claudy/App/Races/Lost.antt =====
-- Two requests to connect at the same time, in claudy-p2p/cmd/claudy/main.go.
use some_go_foolery.Base.{
  ℕ, ◌≡◌, ◌≢◌, inl, refl, false, true, none, some, List, [], ◌∷◌, ◌==◌, ==_iff, arith,
}
use some_go_foolery.Base.Bytes.{Bytes}
use some_go_foolery.Claudy.Subprocess.{launch, stop}
use some_go_foolery.Claudy.App.{
  World, is_empty, new_client, kill, stop_connect, stop_share, stop_all,
}
use some_go_foolery.Claudy.App.Kills.{In, InConnect}
use some_go_foolery.Claudy.App.Races.{
  begins_connecting, finishes, begin_connect, finish, step, steps,
}

-- The first of two children is killed if the second is, but not the second.
In-kill_other : (n m : ℕ) (l : List ℕ) → n ≢ m → In n (kill (some m) (m ∷ n ∷ l))
unfolding kill
In-kill_other n m l apart = rw (same, other) (inl refl)
  where
    same : (m == m) ≡ true
    same = ground (arith, ==_iff m m)

    other : (m == n) ≡ false
    other = ground (arith, ==_iff m n)

-- Where nothing is connected or shared, two requests to connect that both look before either stores start
-- two children; only the second is known afterwards, and the stop at the end of the program leaves the
-- first running.
pub two_connects_lose :
    (w : World) (a b addr addr' : Bytes) (now now' n m : ℕ)
    → w.app.connect ≡ none
    → w.app.slots ≡ []
    → is_empty a ≡ false
    → is_empty b ≡ false
    → n ≢ m
    → let r =
        steps
          (begins_connecting a addr now (some n)
            ∷ begins_connecting b addr' now' (some m)
            ∷ finishes 1
            ∷ finishes 0
            ∷ [])
          (record { world = w; pending = [] }) in
      InConnect m r.world.app.connect × (r.pending ≡ []) × In n (stop_all r.world).running
unfolding steps step begin_connect finish launch stop_all stop_connect stop_share stop
two_connects_lose w a b addr addr' now now' n m free unshared named named' apart =
    rw (free, named, named', unshared)
      ((launch m (new_client b addr' now'), refl, refl), refl, In-kill_other n m w.running apart)
