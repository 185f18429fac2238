-- ===== src/Tests/Claudy.antt =====
-- Runs of the log of a child.
use some_go_foolery.Base.{◌≡◌, refl, some, List, [], ◌∷◌, concat}
use some_go_foolery.Base.Bytes.{Bytes, bytes, contains, has_prefix, str_eq}
use some_go_foolery.Claudy.App.{put_slot, kill, start_share, add_viewer, start_connect, exits}
use some_go_foolery.Claudy.App.Commands.{
  Command, start_share_with, add, connect_to, exited, command, commands, AllFresh, new_world,
}
use some_go_foolery.Base.{true, none}
use some_go_foolery.Base.Dict.{lookup}
use some_go_foolery.Claudy.Subprocess.{Subprocess, starting, connected}
use some_go_foolery.Claudy.Subprocess.Pipe.{
  pipe_to_log, push_all, whole, lines_of, pipe_to_log_lem, trim_returns,
}
use some_go_foolery.Claudy.Subprocess.Ring.{Ordinary}

abbrev child : Subprocess
child = record {
  room = bytes "abc";
  dir = bytes "/d";
  local_addr = [];
  started = 3;
  cmd = some 1;
  mount_path = [];
  log_lines = [];
  last_status = starting;
}

abbrev chunks : List Bytes
chunks = (97 ∷ 13 ∷ []) ∷ (10 ∷ 98 ∷ []) ∷ (99 ∷ []) ∷ []

text_lines : whole (lines_of [] (concat chunks)) ≡ (97 ∷ []) ∷ (98 ∷ 99 ∷ []) ∷ []
unfolding trim_returns
text_lines = refl

pipe_to_log_lem_example :
    pipe_to_log chunks child ≡ push_all (whole (lines_of [] (concat chunks))) child
pipe_to_log_lem_example = pipe_to_log_lem chunks child

abbrev up : Subprocess
up = record child { last_status = connected }

ordinary : Ordinary (bytes "state=failed")
unfolding contains has_prefix
ordinary = (refl, refl)

abbrev session : List Command
session =
    start_share_with (bytes "d") (some (bytes "/d")) true
    ∷ add (bytes "r") 5 (some 1)
    ∷ connect_to (bytes "q") (bytes "l") 6 (some 2)
    ∷ exited 2 none
    ∷ []

fresh : AllFresh session new_world
unfolding AllFresh command start_share lookup str_eq
fresh = (tt, (refl, (tt, (tt, tt))))

one_runs : (commands session new_world).running ≡ 1 ∷ []
unfolding commands command start_share add_viewer start_connect exits kill str_eq put_slot
one_runs = refl
