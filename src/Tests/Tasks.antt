-- ===== src/Tests/Tasks.antt =====
-- The theorem on the callbacks, with an event of the invoker's.
use marketplace.Base.{ℕ, some, none, [], ◌∷◌, ◌++◌, same_bytes}
use marketplace.Tasks.{Store, Tasks, bearer, handle}
use marketplace.Tasks.Answered.{IsAnswered, handle-IsAnswered}
use marketplace.Tests.Hosts.{registry, a_mail}

abbrev some_tasks : Tasks ℕ
some_tasks = record {
  validate = λ token audience. some token;
  equal_fold = same_bytes;
  decode = λ body. some (record { event = some a_mail; job = [] });
  audience = [];
  invoker = b'i' ∷ [];
  registry = registry;
  jobs = λ name. none;
  holder = [];
}

abbrev a_store : Store ℕ
a_store = record { locks = []; world = record { deliveries = []; world = 0 } }

handle-IsAnswered_example :
    IsAnswered some_tasks
      (bearer ++ b'i' ∷ [])
      []
      5
      6
      a_store
      (handle some_tasks (bearer ++ b'i' ∷ []) [] 5 6 a_store)
handle-IsAnswered_example = handle-IsAnswered some_tasks (bearer ++ b'i' ∷ []) [] 5 6 a_store
