-- ===== src/Chat/Tests.antt =====
-- Runs of the chat of src/imp/52-04.c.
use tlpiexer.Prelude.{
  ℕ, ◌≡◌, refl, none, some, List, [], ◌∷◌, ◌++◌, arith, length, Run, ok, fault, out_of_fuel,
  Returns,
}
use tlpiexer.CText.{Bytes, c_str, strcmp_eq}
use tlpiexer.Chat.{
  msg, Msg, c_talk, l_talk, System, Turn, caller_main, listener_main, caller_shows, listener_shows,
  mq_send, mq_receive, say, post, show_next, turn_listener, turn_caller, turn, run, begun,
}
use tlpiexer.Chat.Link.{lines_of, said, typed_by}
use tlpiexer.Chat.Runs.{AllShort}
use tlpiexer.Chat.Order.{chat_in_order, handshake, run-handshake}

-- kevin calls root.
abbrev kevin : Bytes
kevin = b'k' ∷ b'e' ∷ b'v' ∷ b'i' ∷ b'n' ∷ []

abbrev root : Bytes
root = b'r' ∷ b'o' ∷ b'o' ∷ b't' ∷ []

abbrev hello : Bytes
hello = b'h' ∷ b'i' ∷ []

abbrev again : Bytes
again = b'y' ∷ b'o' ∷ []

abbrev unset : Msg
unset = record { reqtype = msg; user = []; line = [] }

abbrev lines : List Turn
lines =
    caller_main (some hello)
    ∷ caller_main (some again)
    ∷ listener_main (some again)
    ∷ listener_shows
    ∷ caller_shows
    ∷ []

-- Two lines of the caller, of which the listener has shown one, and a line the other way
abbrev talk : List Turn
talk = handshake ++ lines

-- What both have shown, and how many messages wait for the listener
abbrev seen : Run System → (List (Bytes × Bytes)) × (List (Bytes × Bytes)) × ℕ
seen (ok s) = (s.listener.shown, s.caller.shown, length s.listener.queue)
seen fault = ([], [], 9)
seen out_of_fuel = ([], [], 9)

shows_lines :
    seen (run talk (begun kevin root unset)) ≡ ((kevin, hello) ∷ [], (root, again) ∷ [], 1)
unfolding run turn turn_caller turn_listener mq_send mq_receive say show_next post c_str strcmp_eq
shows_lines = refl

handshake-AllShort : (turns : List Turn) → AllShort turns → AllShort (handshake ++ turns)
handshake-AllShort turns h = (tt, (tt, (tt, (tt, (tt, (tt, (tt, (tt, h))))))))

chat_in_order_example :
    Returns
      (λ s.
        (typed_by kevin s.caller.typed
          ≡ s.listener.shown ++ (lines_of s.listener.queue ++ said s.caller.unsent))
        × (typed_by root s.listener.typed
            ≡ s.caller.shown ++ (lines_of s.caller.queue ++ said s.listener.unsent)))
      (run talk (begun kevin root unset))
unfolding c_str
chat_in_order_example =
    chat_in_order kevin root unset talk (omega arith) (omega arith)
      (handshake-AllShort lines (omega arith, (omega arith, (omega arith, (tt, (tt, tt))))))

run-handshake_example :
    Returns
      (λ s.
        (s.caller.phase ≡ c_talk)
        × (s.listener.phase ≡ l_talk)
        × (s.listener.peer ≡ kevin)
        × (s.caller.queue ≡ [])
        × (s.listener.queue ≡ []))
      (run handshake (begun kevin root unset))
run-handshake_example = run-handshake kevin root unset (omega arith) (omega arith) (λ e. cc)

-- Where the caller comes before the listener it ends.
too_early :
    seen
      (run (caller_main none ∷ caller_main none ∷ listener_main none ∷ []) (begun kevin root unset))
    ≡ ([], [], 0)
unfolding run turn turn_caller turn_listener strcmp_eq
too_early = refl

-- Eight lines fill the queue; the ninth waits, and is not lost: it comes to the queue when one is shown.
abbrev says : Turn
says = caller_main (some hello)

abbrev nine : List Turn
nine = says ∷ says ∷ says ∷ says ∷ says ∷ says ∷ says ∷ says ∷ says ∷ []

abbrev typed_and_queued : Run System → ℕ × ℕ
typed_and_queued (ok s) = (length s.caller.typed, length s.listener.queue)
typed_and_queued fault = (0, 0)
typed_and_queued out_of_fuel = (0, 0)

ninth_waits : typed_and_queued (run (handshake ++ nine) (begun kevin root unset)) ≡ (9, 8)
unfolding run turn turn_caller turn_listener mq_send mq_receive say show_next post c_str strcmp_eq
ninth_waits = refl

ninth_comes :
    typed_and_queued
      (run (handshake ++ nine ++ listener_shows ∷ caller_main none ∷ []) (begun kevin root unset))
    ≡ (9, 8)
unfolding run turn turn_caller turn_listener mq_send mq_receive say show_next post c_str strcmp_eq
ninth_comes = refl
