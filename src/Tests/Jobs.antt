-- ===== src/Tests/Jobs.antt =====
-- The theorems on the jobs' leases and on the outbox's dispatcher at concrete inputs.
use marketplace.Base.{
  ℕ, none, ◌+◌, ◌≤◌, ◌≡◌, refl, true, false, List, [], ◌∷◌, Bytes, arith, same_bytes, count, find,
  insert, update,
}
use marketplace.Outbox.{Event}
use marketplace.Outbox.Dispatching.{Queue, Run}
use marketplace.Outbox.Overlapping.{
  Happening, wrote, reads, offers, marks, System, IsSound, after, after-IsSound,
}
use marketplace.Jobs.{lease, take, take_found, release}
use marketplace.Jobs.Runs.{Site, starts, stands_down, ends, Reached, at_first, later, IsPrompt}
use marketplace.Jobs.Exclusion.{is_run, count-Reached}
use marketplace.Jobs.Leases.{take-Reached}

abbrev dispatching : Bytes
dispatching = b'd' ∷ []

abbrev v1 : Bytes
v1 = b'1' ∷ []

-- A run of the job, another that is asked for meanwhile, the first one's end, and one more run.
abbrev first_taken : Site
first_taken = record {
  now = 5;
  locks = (take dispatching v1 5 []).1;
  running = record { name = dispatching; holder = v1; since = 5 } ∷ [];
}

abbrev second_refused : Site
second_refused = record first_taken { now = 6; locks = (take dispatching v1 6 first_taken.locks).1 }

abbrev first_ended : Site
first_ended = record {
  now = 7;
  locks = release dispatching v1 7 second_refused.locks;
  running = [];
}

abbrev third_taken : Site
third_taken = record {
  now = 8;
  locks = (take dispatching v1 8 first_ended.locks).1;
  running = record { name = dispatching; holder = v1; since = 8 } ∷ [];
}

first_takes : (take dispatching v1 5 []).0 ≡ true
unfolding take take_found find
first_takes = refl

second_waits : (take dispatching v1 6 first_taken.locks).0 ≡ false
unfolding take take_found find insert same_bytes
second_waits = refl

third_takes : (take dispatching v1 8 first_ended.locks).0 ≡ true
unfolding take take_found release find insert update same_bytes
third_takes = refl

third_reached : Reached IsPrompt third_taken
third_reached =
    later
      (later
        (later
          (later (at_first 0) (starts dispatching v1 5 (omega arith) first_takes) (omega arith, tt))
          (stands_down dispatching v1 6 (omega arith) second_waits) (omega arith, tt))
        (ends [] [] (record { name = dispatching; holder = v1; since = 5 }) 7 (omega arith) refl)
        tt)
      (starts dispatching v1 8 (omega arith) third_takes) (omega arith, tt)

count-Reached_example : count (is_run dispatching) third_taken.running ≤ 1
count-Reached_example = count-Reached {s = third_taken} dispatching third_reached

take-Reached_example : (take dispatching v1 (9 + lease) third_taken.locks).0 ≡ true
take-Reached_example =
    take-Reached {P = IsPrompt} {s = third_taken} dispatching v1 (9 + lease) third_reached
      (omega arith)

-- A queue that accepts nothing and counts.
abbrev closed : Queue ℕ
closed = record { enqueue = λ e n. (false, n + 1); redact = λ payload. payload }

abbrev a_mail : Event
a_mail = record { id = 1 ∷ []; kind = b'm' ∷ []; payload = [] }

abbrev next_mail : Event
next_mail = record { id = 2 ∷ []; kind = b'm' ∷ []; payload = [] }

abbrev no_runs : ℕ → Run
no_runs i = record { waiting = []; offered = none }

abbrev a_table : System ℕ
a_table = record { rows = []; world = 0; runs = no_runs }

-- Two dispatchers read the same event, and both offer and mark it.
abbrev happened : List Happening
happened =
    marks 1
    ∷ marks 2
    ∷ offers 2
    ∷ offers 1
    ∷ reads 2
    ∷ reads 1
    ∷ wrote next_mail 2
    ∷ wrote a_mail 1
    ∷ []

after-IsSound_example : IsSound closed (after closed happened a_table)
after-IsSound_example = after-IsSound closed happened a_table (tt, λ i. tt)
