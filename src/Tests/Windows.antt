-- ===== src/Tests/Windows.antt =====
-- The theorems on the window of matching/window.go, at small windows.
use cheetah_exchange.Prelude.{[], ◌∷◌, arith, All}
use cheetah_exchange.Matching.Window.{new_window}
use cheetah_exchange.Matching.Window.Put.{Outcome, put_lem}
use cheetah_exchange.Matching.Window.Seen.{
  Seen, new_window_lem, accept_all, accept_all_once, Distinct,
}

put_lem_example : Outcome (new_window 0 16) 40
put_lem_example =
    put_lem (new_window 0 16) (new_window_lem 0 16 (omega arith) (omega arith)).0 40 (omega arith)

accept_all_once_example :
    Distinct (accept_all (new_window 0 16) (3 ∷ 40 ∷ 3 ∷ 40 ∷ 41 ∷ []))
    × All
        (λ x. ¬ Seen (new_window 0 16) x)
        (accept_all (new_window 0 16) (3 ∷ 40 ∷ 3 ∷ 40 ∷ 41 ∷ []))
accept_all_once_example =
    accept_all_once (new_window 0 16) (3 ∷ 40 ∷ 3 ∷ 40 ∷ 41 ∷ [])
      (new_window_lem 0 16 (omega arith) (omega arith)).0 (omega arith)
