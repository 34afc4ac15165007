-- ===== src/PingPong/Tests.antt =====
-- Runs of the two threads of src/imp/53-01.c.
use tlpiexer.Prelude.{ℕ, ◌≡◌, ◌≢◌, ◌⊎◌, List, [], ◌∷◌, ◌++◌, some, map}
use tlpiexer.PingPong.{read_line, ended, show, Actor, main, thread_1, initial, turn, run}
use tlpiexer.PingPong.Order.{waiting, lines_in_order, some_turn}

abbrev lines : List ℕ
lines = 7 ∷ 8 ∷ []

abbrev turns : List Actor
turns = thread_1 ∷ main ∷ main ∷ main ∷ main ∷ thread_1 ∷ thread_1 ∷ thread_1 ∷ main ∷ []

lines_in_order_example :
    let s = run turns (initial lines) in
    ¬ ((s.writer ≡ read_line) × (s.reader ≡ show))
    × ((s.shown ++ waiting s) ++ map some s.input ≡ map some lines)
lines_in_order_example = lines_in_order lines turns

some_turn_example :
    let s = run turns (initial lines) in
    (s.writer ≡ ended)
    ⊎ ((turn main s s.writer).writer ≢ s.writer)
    ⊎ ((turn thread_1 s s.writer).reader ≢ s.reader)
some_turn_example = some_turn lines turns
