-- ===== src/Hil/Fcfs/Dispatched.antt =====
-- hil/scheduler/fcfs_scheduler.cc: what leaves the queues reaches the cache layer.
use testing.Common.{List, [], ◌∷◌, ◌++◌, Option, none, some}
use testing.Hil.Request.{Request, IclRequest, OpType, read_op, write_op, to_icl}
use testing.Hil.Fcfs.{IclCall, read_call, write_call, Fcfs}

-- A request that is dispatched, as a host request or as a task.
pub data Taken : Type 0 where
  host : Request → Taken
  task : Request → Taken

unfoldable pub hosts : List Taken → List Request
hosts [] = []
hosts (host req ∷ rest) = req ∷ hosts rest
hosts (task req ∷ rest) = hosts rest

-- Reads and writes reach the cache layer, whole; the other operations do not.
unfoldable pub call_for : OpType → IclRequest → List IclCall
call_for read_op req = read_call req ∷ []
call_for write_op req = write_call req ∷ []
call_for _ req = []

abbrev request_of : Taken → Request
request_of (host req) = req
request_of (task req) = req

-- The calls for some requests, newest first.
unfoldable pub calls_for : List Taken → List IclCall
unfolding call_for
calls_for [] = []
calls_for (taken ∷ rest) =
    calls_for rest ++ call_for (request_of taken).op (to_icl (request_of taken))

-- The call of `dispatchICL` as a list.
calls_in : Option IclCall → List IclCall
calls_in none = []
calls_in (some call) = call ∷ []

as_hosts : List Request → List Taken
as_hosts [] = []
as_hosts (req ∷ rest) = host req ∷ as_hosts rest
