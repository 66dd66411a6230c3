-- ===== src/Cache/Tests.antt =====
-- A cache with a value that expires, in a run.
use hiqlite.Common.{◌≡◌, refl, false, some, List, [], ◌∷◌, arith, lookup, insert}
use hiqlite.Cache.State.{expiry_of}
use hiqlite.Cache.Handlers.{
  get, get_remove, put, value, Event, request, timeout, turn, empty, run, handle_request, is_due,
  expire_due, put_value, remove_keys, Reply,
}
use hiqlite.Cache.State.{register_expiry, remove_expiry, drop_expiry, without}
use hiqlite.Cache.Mirror.{is_at, Mirrors}
use hiqlite.Cache.History.{history, written, run-Mirrors, get-history, run-past}

-- The value "a" is put to expire at 100, then put again to expire at 300; "b" expires at 150.
abbrev script : List Event
script =
    request (λ e. 10) 10 (put "a" (1 ∷ []) (some 100))
    ∷ request (λ e. 20) 20 (put "b" (2 ∷ []) (some 150))
    ∷ request (λ e. 30) 30 (put "a" (3 ∷ []) (some 300))
    ∷ timeout (λ e. 160)
    ∷ []

run-script : (run script empty).0.expiries ≡ (300, "a" ∷ []) ∷ []
unfolding run turn handle_request is_due expire_due put_value remove_keys register_expiry
    remove_expiry drop_expiry without lookup insert
run-script = refl

run-Mirrors_example : Mirrors (run script empty).0.expiries (run script empty).0.values
run-Mirrors_example = run-Mirrors script (tt, (tt, (tt, tt)))

get-history_example :
    let answer : List Reply = (7, value (some (3 ∷ []))) ∷ [] in
    ((turn (request (λ e. 170) 170 (get "a" 7)) (run script empty).0).1 ≡ answer)
    × ((turn (request (λ e. 170) 170 (get_remove "a" 7)) (run script empty).0).1 ≡ answer)
unfolding history written
get-history_example =
    get-history script (λ e. 170) "a" 7 170 (tt, (tt, (tt, tt)))
      (λ e. omega arith, (λ e. omega arith, (λ e. omega arith, (λ e. omega arith, tt))))
      (λ e. omega arith)

run-past_example :
    is_at (expiry_of (lookup "b" (turn (timeout (λ exp. 200)) (run script empty).0).0.values)) 150
    ≡ false
unfolding run turn expire_due handle_request put_value register_expiry drop_expiry lookup is_due
    insert remove_expiry
run-past_example = run-past script 200 "b" 150 (tt, (tt, (tt, tt))) (omega arith, tt) (omega arith)
