-- ===== src/Examples/Stages.antt =====
-- Batches in three groups, with a network that reaches no node but 1 to 3, and a log of counts.
use xraft.Prelude.{ℕ, ◌+◌, ◌≡◌, List, [], ◌∷◌, leb, length, if◌then◌else◌}
use xraft.Prelude.Exec.{ok, err}
use xraft.Types.{NodeId}
use xraft.Node.Traits.{ErrorKind}
use xraft.GroupStage.{
  Objects, IoAction, append_log, truncate_suffix, truncate_prefix, send_rpc, IoStage, execute,
}
use xraft.GroupStage.Merge.{one_by_one, execute-one_by_one}

abbrev objects : Objects
objects = record {
  Log = ℕ;
  append = λ es l. (ok tt, l + length es);
  truncate_suffix = λ from l. if leb from l then (ok tt, from) else (err ErrorKind.other, l);
  truncate_prefix = λ to l. (ok tt, l);
  Snapshots = ℕ;
  save = λ snapshot n. (ok tt, n + 1);
  Network = List NodeId;
  Message = ℕ;
  send = λ id m sent. if leb id 3 then (ok tt, id ∷ sent) else (err ErrorKind.timed_out, sent);
}

abbrev batch : List (IoAction objects)
batch = send_rpc 2 7 ∷ truncate_suffix 9 ∷ send_rpc 4 7 ∷ append_log [] ∷ truncate_prefix 1 ∷ []

abbrev stage : IoStage objects
stage = record { log_store = 5; snapshot_io = 0; network = [] }

execute-one_by_one_example : execute batch stage ≡ one_by_one batch stage
execute-one_by_one_example = execute-one_by_one batch stage
