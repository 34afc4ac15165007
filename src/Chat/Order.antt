-- ===== src/Chat/Order.antt =====
-- Whole runs of the chat of src/imp/52-04.c.
use tlpiexer.Prelude.{
  ◌≡◌, ◌≢◌, ◌<◌, refl, sym, ap, ◌∙◌, false, none, List, [], ◌∷◌, ◌++◌, length, Returns, Returns-map,
  Bool-cases, inl, inr,
}
use tlpiexer.CText.{Bytes, strcmp_eq, strcmp_eq_iff, strcmp_eq_refl}
use tlpiexer.Chat.{
  Msg, l_talk, c_talk, user_size, mq_receive, Turn, caller_main, listener_main, turn_caller,
  turn_listener, mq_send, turn, run, begun,
}
use tlpiexer.Chat.Runs.{AllShort, SoundSystem, run-Sound, begun-Sound}
use tlpiexer.Chat.Link.{lines_of, said, typed_by, Link-lines}
use tlpiexer.Chat.Sound.{copied-fits}

-- For users of fewer than 16 bytes and lines whose text up to the first NUL has fewer than 1024, however the
-- four threads take turns: what either process has shown is what the other's user typed, from that user, in order
-- and each line up to its first NUL, but for the lines that are still in its queue and the one with which the other
-- waits for room in the queue.
pub chat_in_order :
    (a b : Bytes) (memory : Msg) (turns : List Turn)
    → length a < user_size
    → length b < user_size
    → AllShort turns
    → Returns
        (λ s.
          (typed_by a s.caller.typed
            ≡ s.listener.shown ++ (lines_of s.listener.queue ++ said s.caller.unsent))
          × (typed_by b s.listener.typed
              ≡ s.caller.shown ++ (lines_of s.caller.queue ++ said s.listener.unsent)))
        (run turns (begun a b memory))
chat_in_order a b memory turns ha hb h =
    Returns-map (SoundSystem a b) _ (run turns (begun a b memory))
      (λ s i. (
        ap (λ u. typed_by u s.caller.typed) (sym i.user_c) ∙ Link-lines i.down,
        ap (λ u. typed_by u s.listener.typed) (sym i.user_l) ∙ Link-lines i.up,
      ))
      (run-Sound a b turns (begun a b memory) ha hb h (begun-Sound a b memory))

-- The turns of a handshake: the listener opens its queue, the caller its own, finds the listener's and asks,
-- the listener takes the message, finds the caller's queue and accepts, and the caller takes that.
abbrev pub handshake : List Turn
handshake =
    listener_main none
    ∷ caller_main none
    ∷ caller_main none
    ∷ caller_main none
    ∷ listener_main none
    ∷ listener_main none
    ∷ listener_main none
    ∷ caller_main none
    ∷ []

-- The handshake of two different users of fewer than 16 bytes leaves both talking, the listener with the caller
-- as its peer, and nothing in the queues.
pub run-handshake :
    (a b : Bytes) (memory : Msg)
    → length a < user_size
    → length b < user_size
    → a ≢ b
    → Returns
        (λ s.
          (s.caller.phase ≡ c_talk)
          × (s.listener.phase ≡ l_talk)
          × (s.listener.peer ≡ a)
          × (s.caller.queue ≡ [])
          × (s.listener.queue ≡ []))
        (run handshake (begun a b memory))
unfolding run turn turn_caller turn_listener mq_send mq_receive
run-handshake a b memory ha hb differ =
    let fits_a = copied-fits user_size a ha in
    let fits_b = copied-fits user_size b hb in
    let other : strcmp_eq a b ≡ false = elim (Bool-cases (strcmp_eq a b)) [
      | inl same ↦ absurd (differ ((strcmp_eq_iff a b).0 same))
      | inr other ↦ other
    ] in
    rw (other, strcmp_eq_refl b, fits_a, strcmp_eq_refl a, fits_b) (refl, refl, refl, refl, refl)
