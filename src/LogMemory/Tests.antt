-- ===== src/LogMemory/Tests.antt =====
-- A log of three entries, the first of which has the index 5.
use hiqlite.Common.{
  ℕ, ◌+◌, ◌≡◌, refl, none, some, List, [], ◌∷◌, arith, length, ltb, leb, if◌then◌else◌,
}
use hiqlite.LogMemory.{
  LogId, Entry, LogStore, included, try_get_log_entries, truncate, purge, or, map_id,
}
use hiqlite.LogMemory.Entries.{Contiguous, entry_at}
use hiqlite.LogMemory.Contract.{truncate_lem, purge_lem, purge-beyond, try_get_log_entries_lem}

-- A leader and a payload are numbers here.
abbrev log_id : ℕ → LogId ℕ
log_id i = record { index = i; leader = 1 }

abbrev entry : ℕ → Entry ℕ ℕ
entry i = record { log_id = log_id i; payload = i + 100 }

abbrev three : LogStore ℕ ℕ ℕ
three = record {
  logs = entry 5 ∷ entry 6 ∷ entry 7 ∷ [];
  last_purged = some (log_id 4);
  vote = none;
}

truncate_lem_example :
    Contiguous 5 (truncate (log_id 6) three).logs
    × ((i : ℕ)
        → entry_at i (truncate (log_id 6) three).logs
          ≡ (if ltb i 6 then entry_at i three.logs else none))
truncate_lem_example =
    truncate_lem (log_id 6) 5 three (refl, (refl, (refl, tt))) (omega arith) (omega arith)

purge_lem_example :
    (s' : LogStore ℕ ℕ ℕ) × (purge (log_id 6) three ≡ some s')
    × (s'.last_purged ≡ or (map_id (entry_at 6 three.logs)) three.last_purged)
    × Contiguous 7 s'.logs
    × ((i : ℕ) → entry_at i s'.logs ≡ (if leb i 6 then none else entry_at i three.logs))
purge_lem_example =
    purge_lem (log_id 6) 5 three (refl, (refl, (refl, tt))) (omega arith) (omega arith)
      (omega arith)

purge-beyond_example : purge (log_id 12) three ≡ none
purge-beyond_example =
    purge-beyond (log_id 12) 5 three (refl, (refl, (refl, tt))) (omega arith) (omega arith)
      (omega arith)

try_get_log_entries_lem_example :
    (es : List (Entry ℕ ℕ)) × (try_get_log_entries (included 6) (included 7) three ≡ some es)
    × Contiguous 6 es
    × (length es ≡ 2)
    × ((i : ℕ)
        → entry_at i es
          ≡ (if ltb i 8 then (if ltb i 6 then none else entry_at i three.logs) else none))
try_get_log_entries_lem_example =
    try_get_log_entries_lem 6 7 5 three (refl, (refl, (refl, tt))) (omega arith) (omega arith)
      (omega arith) (omega arith)
