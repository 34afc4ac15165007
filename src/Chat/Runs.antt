-- ===== src/Chat/Runs.antt =====
-- What every run of the chat of src/imp/52-04.c keeps.
use tlpiexer.Prelude.{
  ◌≡◌, ◌≢◌, ◌<◌, refl, sym, subst, Bool, true, false, none, some, List, [], ◌∷◌, ◌++◌, append-nil,
  if◌then◌else◌, length, Run, Returns, Returns-bind,
}
use tlpiexer.CText.{Bytes}
use tlpiexer.Chat.{
  ReqType, start, accepted, msg, end, error, Msg, Process, Listening, l_open, l_receive, l_answer,
  l_accept, l_talk, Invoking, c_open, c_invoke, c_ask, c_wait, c_talk, Listener, Caller, user_size,
  mq_receive, show_next, print, System, Turn, caller_main, listener_main, caller_shows,
  listener_shows, caller_next, listener_next, turn, run, begun,
}
use tlpiexer.Chat.Link.{Link, spoken, spoken_in, empty_right, Link-show}
use tlpiexer.Chat.Sound.{Sound, sound, CallerAt, ShortLine}
use tlpiexer.Chat.Turns.{turn_caller-Sound, turn_listener-Sound}

module _ {P : Type 0} (R : Process P → Type 0) (p : Process P) where
  printed :
      (t : ReqType) (m : Msg) (p' : Process P)
      → ((shown : List (Bytes × Bytes))
          → shown ≡ p'.shown ++ spoken_in t m
          → R (record p' { shown = shown }))
      → R (print t m p')
  printed start m p' h = h p'.shown (sym (append-nil p'.shown))
  printed accepted m p' h = h p'.shown (sym (append-nil p'.shown))
  printed msg m p' h = h _ refl
  printed end m p' h = h p'.shown (sym (append-nil p'.shown))
  printed error m p' h = h p'.shown (sym (append-nil p'.shown))

  shown_next :
      (queue : List Msg)
      → p.queue ≡ queue
      → R p
      → ((m : Msg) (rest : List Msg) (shown : List (Bytes × Bytes))
          → p.queue ≡ m ∷ rest
          → shown ≡ p.shown ++ spoken m
          → R (record p { queue = rest; received = p.received ++ m ∷ []; shown = shown }))
      → R (elim (mq_receive p queue) [ none ↦ p | some (m, p') ↦ print m.reqtype m p' ])
  unfolding mq_receive
  shown_next [] e waits shows = waits
  shown_next (m ∷ rest) e waits shows =
      printed m.reqtype m (record p { queue = rest; received = p.received ++ m ∷ [] })
        (λ shown is. shows m rest shown e is)

module _ {a b : Bytes} where
  caller_next-Sound :
      (c : Caller) (l : Listener) (ph : Invoking)
      → c.phase ≡ ph
      → Sound a b c l
      → Sound a b (caller_next c ph) l
  unfolding show_next
  caller_next-Sound c l c_open e s = s
  caller_next-Sound c l c_invoke e s = s
  caller_next-Sound c l c_ask e s = s
  caller_next-Sound c l c_wait e s = s
  caller_next-Sound c l c_talk e s =
      shown_next (λ p. Sound a b p l) c c.queue refl s
        (λ m rest shown at is.
          let before =
            subst (λ z. Link l.user l.sent l.typed l.unsent c.received z c.shown) at s.up in
          let more : (c.received ++ m ∷ []) ≢ [] =
            λ no. let one : m ∷ [] ≡ [] = empty_right c.received (m ∷ []) no in absurd cc in
          sound s.down
            (subst (λ z. Link l.user l.sent l.typed l.unsent (c.received ++ m ∷ []) rest z) (sym is)
              (Link-show m before))
            (subst (λ x. CallerAt x c.sent (c.received ++ m ∷ [])) (sym e) more) s.at_l s.user_c
            s.user_l)

  listener_next-Sound :
      (c : Caller) (l : Listener) (ph : Listening)
      → Sound a b c l
      → Sound a b c (listener_next l ph)
  unfolding show_next
  listener_next-Sound c l l_open s = s
  listener_next-Sound c l l_receive s = s
  listener_next-Sound c l (l_answer m) s = s
  listener_next-Sound c l (l_accept m) s = s
  listener_next-Sound c l l_talk s =
      shown_next (λ p. Sound a b c p) l l.queue refl s
        (λ m rest shown at is.
          let before =
            subst (λ z. Link c.user c.sent c.typed c.unsent l.received z l.shown) at s.down in
          sound
            (subst (λ z. Link c.user c.sent c.typed c.unsent (l.received ++ m ∷ []) rest z) (sym is)
              (Link-show m before))
            s.up s.at_c s.at_l s.user_c s.user_l)

abbrev pub ShortTurn : Turn → Type 0
ShortTurn (caller_main line) = ShortLine line
ShortTurn (listener_main line) = ShortLine line
ShortTurn _ = Unit {0}

abbrev pub AllShort : List Turn → Type 0
AllShort [] = Unit {0}
AllShort (t ∷ turns) = ShortTurn t × AllShort turns

abbrev pub SoundSystem : Bytes → Bytes → System → Type 0
SoundSystem a b s = Sound a b s.caller s.listener

Returns-if :
    (P : System → Type 0) (b : Bool) (m n : Run System)
    → Returns P m
    → Returns P n
    → Returns P (if b then m else n)
Returns-if P true m n h k = h
Returns-if P false m n h k = k

turn-Sound :
    (a b : Bytes) (t : Turn) (s : System)
    → length a < user_size
    → length b < user_size
    → ShortTurn t
    → SoundSystem a b s
    → Returns (SoundSystem a b) (turn t s)
unfolding turn
turn-Sound a b (caller_main line) s ha hb h i =
    Returns-if (SoundSystem a b) s.caller.running _ _
      (Returns-bind (λ (p, q). Sound a b p q) (SoundSystem a b) _ _
        (turn_caller-Sound line s.caller s.listener s.caller.phase h
          (subst (λ u. length u < user_size) (sym i.user_c) ha) i i.at_c refl)
        (λ r k. k))
      i
turn-Sound a b (listener_main line) s ha hb h i =
    Returns-if (SoundSystem a b) s.listener.running _ _
      (Returns-bind (λ (q, p). Sound a b p q) (SoundSystem a b) _ _
        (turn_listener-Sound line s.caller s.listener s.listener.phase h
          (subst (λ u. length u < user_size) (sym i.user_l) hb) i i.at_l refl)
        (λ r k. k))
      i
turn-Sound a b caller_shows s ha hb h i =
    Returns-if (SoundSystem a b) s.caller.running _ _
      (caller_next-Sound s.caller s.listener s.caller.phase refl i) i
turn-Sound a b listener_shows s ha hb h i =
    Returns-if (SoundSystem a b) s.listener.running _ _
      (listener_next-Sound s.caller s.listener s.listener.phase i) i

pub run-Sound :
    (a b : Bytes) (turns : List Turn) (s : System)
    → length a < user_size
    → length b < user_size
    → AllShort turns
    → SoundSystem a b s
    → Returns (SoundSystem a b) (run turns s)
unfolding run
run-Sound a b [] s ha hb h i = i
run-Sound a b (t ∷ turns) s ha hb (h, hs) i =
    Returns-bind (SoundSystem a b) (SoundSystem a b) (turn t s) (run turns)
      (turn-Sound a b t s ha hb h i) (λ s' i'. run-Sound a b turns s' ha hb hs i')

pub begun-Sound : (a b : Bytes) (memory : Msg) → SoundSystem a b (begun a b memory)
begun-Sound a b memory =
    let none_yet : (u : Bytes) → Link u [] [] none [] [] [] =
      λ u. record { flow = refl; spoke = refl; showed = refl } in
    sound (none_yet a) (none_yet b) (refl, refl) refl refl refl
