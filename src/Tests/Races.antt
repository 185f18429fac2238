-- ===== src/Tests/Races.antt =====
-- Requests to the web service that interleave.
use some_go_foolery.Base.{ℕ, ◌≡◌, ◌≢◌, ◌⊎◌, refl, true, false, some, List, [], ◌∷◌, arith}
use some_go_foolery.Base.Bytes.{bytes, str_eq}
use some_go_foolery.Base.Dict.{lookup, insert}
use some_go_foolery.Claudy.App.{start_share, put_slot, stop_all, stop_share, kill}
use some_go_foolery.Claudy.Subprocess.{launch, stop}
use some_go_foolery.Claudy.App.Kills.{In, InSlot, InConnect}
use some_go_foolery.Claudy.App.Commands.{start_share_with, stop_sharing, new_world, command}
use some_go_foolery.Claudy.App.Races.{
  Event, request, begins_adding, begins_connecting, finishes, new_racing, begins_stopping_share,
  begin_add, begin_stop_share, finish, step, steps, AllCalm,
}
use some_go_foolery.Claudy.App.Races.Stops.{InPending}
use some_go_foolery.Claudy.App.Races.Known.{children_known}
use some_go_foolery.Claudy.App.Races.Lost.{two_connects_lose}

-- The share is stopped between the two halves of an added viewer.
abbrev stopped_between : List Event
stopped_between =
    request (start_share_with (bytes "d") (some (bytes "/d")) true)
    ∷ begins_adding (bytes "abc") 5 (some 1)
    ∷ request stop_sharing
    ∷ finishes 0
    ∷ []

-- The child of a slot is taken by a stop that is not over.
abbrev being_stopped : List Event
being_stopped =
    request (start_share_with (bytes "d") (some (bytes "/d")) true)
    ∷ begins_adding (bytes "abc") 5 (some 1)
    ∷ finishes 0
    ∷ begins_stopping_share
    ∷ []

calm : AllCalm being_stopped new_racing
unfolding AllCalm step finish begin_add command start_share lookup str_eq
calm = (tt, (tt, (refl, (tt, tt))))

-- The child is in no slot and runs, and its end is that of the stop.
taken_and_running :
    let r = steps being_stopped new_racing in
    (r.world.app.slots ≡ [])
    × (r.world.running ≡ 1 ∷ [])
    × ((step (finishes 0) r).world.running ≡ [])
unfolding steps step finish begin_add begin_stop_share command start_share str_eq put_slot insert
    launch stop kill
taken_and_running = (refl, refl, refl)

children_known_example :
    let r = steps being_stopped new_racing in
    (In 1 r.world.running
      → (InSlot 1 r.world.app.slots ⊎ InConnect 1 r.world.app.connect) ⊎ InPending 1 r.pending)
    × (r.pending ≡ [] → ¬ In 1 (stop_all r.world).running)
children_known_example = children_known being_stopped 1 calm

-- The child of a share that is stopped runs on.
shared_without_folder :
    let r = steps stopped_between new_racing in
    (r.world.app.share_dir ≡ []) × (r.world.running ≡ 1 ∷ [])
unfolding steps step finish begin_add command start_share stop_share str_eq put_slot
shared_without_folder = (refl, refl)

named_a : str_eq (bytes "a") [] ≡ false
unfolding str_eq
named_a = refl

named_b : str_eq (bytes "b") [] ≡ false
unfolding str_eq
named_b = refl

one_is_not_two : ◌≢◌ {A = ℕ} 1 2
one_is_not_two e = omega arith

two_connects_lose_example :
    let r =
      steps
        (begins_connecting (bytes "a") (bytes "x") 0 (some 1)
          ∷ begins_connecting (bytes "b") (bytes "y") 0 (some 2)
          ∷ finishes 1
          ∷ finishes 0
          ∷ [])
        (record { world = new_world; pending = [] }) in
    InConnect 2 r.world.app.connect × (r.pending ≡ []) × In 1 (stop_all r.world).running
two_connects_lose_example =
    two_connects_lose new_world (bytes "a") (bytes "b") (bytes "x") (bytes "y") 0 0 1 2 refl refl
      named_a named_b one_is_not_two
