-- ===== src/Extent/Tests.antt =====
-- Runs of the extent server and of its client.
use cse_yet_another_file_sys.Base.{
  ◌≡◌, List, [], ◌∷◌, map, lookup, insert, erase, refl, Option, none, some,
}
use cse_yet_another_file_sys.Rpc.Status.{timeout_failure}
use cse_yet_another_file_sys.Extent.Server
use cse_yet_another_file_sys.Extent.Server.Calls.{
  get, getattr, put, remove, Reply, Event, starts, ends, Threads, happen, history,
}
use cse_yet_another_file_sys.Extent.Server.Spec.{
  observe, answers, root_only, finished, history-answers,
}
use cse_yet_another_file_sys.Extent.Client
use cse_yet_another_file_sys.Extent.Client.{World, lost}
use cse_yet_another_file_sys.Extent.Client.Invariant.{view}
use cse_yet_another_file_sys.Extent.Client.Flush.{flush_loses}

-- Two threads take the calls in turn; two calls of getattr run at the same time.
abbrev events : List Event
events =
    starts 1 10 (put 5 (104 ∷ 105 ∷ []))
    ∷ ends 1
    ∷ starts 2 11 (getattr 5)
    ∷ starts 1 12 (getattr 6)
    ∷ ends 1
    ∷ ends 2
    ∷ starts 1 13 (remove 5)
    ∷ ends 1
    ∷ []

abbrev server : Threads
server = record { server = Server.init 3; inside = [] }

abbrev or_none : Option (List Reply) → List Reply
or_none none = []
or_none (some rs) = rs

came_through : history events server ≡ some (or_none (history events server))
unfolding history happen lookup insert erase
came_through = refl

history-answers_example :
    map observe (or_none (history events server)) ≡ answers root_only (finished events [])
history-answers_example = history-answers 3 events (or_none (history events server)) came_through

-- A put beside a get is a data race.
raced : history (starts 1 10 (put 5 []) ∷ starts 2 10 (get 1) ∷ []) server ≡ none
unfolding history happen insert
raced = refl

abbrev fresh : World
fresh = record { client = Client.empty; server = Server.init 3 }

flush_loses_example :
    view (Client.flush (lost timeout_failure) 5 (Client.put 4 fresh 1 (104 ∷ [])).1 1).1 1
    ≡ lookup 1 fresh.server.content_map
flush_loses_example = flush_loses timeout_failure 4 5 fresh 1 (104 ∷ [])
