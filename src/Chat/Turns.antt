-- ===== src/Chat/Turns.antt =====
-- What every turn of the chat of src/imp/52-04.c keeps.
use tlpiexer.Prelude.{
  ◌≡◌, ◌<◌, refl, sym, ap, ◌∙◌, subst, Option, none, some, List, [], ◌∷◌, ◌++◌, append-nil, length,
  ok, Returns, Bool-cases, inl, inr,
}
use tlpiexer.CText.{Bytes, strcmp_eq}
use tlpiexer.Chat.{
  post, say, string_at, msg_size, ReqType, start, accepted, msg, end, error, Msg, Listening, l_open,
  l_receive, l_answer, l_accept, l_talk, Invoking, c_open, c_invoke, c_ask, c_wait, c_talk,
  Listener, Caller, user_size, mq_open, mq_receive, take_start, take_answer, turn_listener,
  turn_caller,
}
use tlpiexer.Chat.Link.{
  Link, lines_of, lines_of-append, spoken, spoken_in, empty_right, next-quiet, Link-send, Link-type,
  Link-post, Link-take,
}
use tlpiexer.Chat.Sound.{
  Sound, sound, CallerAt, ListenerAt, ShortLine, copied-fits, send-Returns, post-Returns,
  first_accepted, no_line,
}

module _ {a b : Bytes} where
  taken :
      (t : ReqType) (m : Msg) (queue : List Msg) (c : Caller) (l : Listener)
      → Link c.user c.sent c.typed c.unsent (l.received ++ m ∷ []) queue l.shown
      → Sound a b c l
      → l.sent ≡ []
      → Sound a b c (take_start t m (record l { queue = queue; received = l.received ++ m ∷ [] }))
  taken start m queue c l down s silent = sound down s.up s.at_c silent s.user_c s.user_l
  taken accepted m queue c l down s silent = sound down s.up s.at_c s.at_l s.user_c s.user_l
  taken msg m queue c l down s silent = sound down s.up s.at_c s.at_l s.user_c s.user_l
  taken end m queue c l down s silent = sound down s.up s.at_c s.at_l s.user_c s.user_l
  taken error m queue c l down s silent = sound down s.up s.at_c s.at_l s.user_c s.user_l

  listener_receives :
      (queue : List Msg) (c : Caller) (l : Listener)
      → l.queue ≡ queue
      → Sound a b c l
      → l.sent ≡ []
      → Returns
          (λ (q, p). Sound a b p q)
          (elim (mq_receive l queue) [
            | none ↦ ok (l, c)
            | some (m, p') ↦ ok (take_start m.reqtype m p', c)
          ])
  unfolding mq_receive
  listener_receives [] c l e s silent = s
  listener_receives (m ∷ queue) c l e s silent =
      let here : Link c.user c.sent c.typed c.unsent l.received (m ∷ queue) l.shown =
        subst (λ z. Link c.user c.sent c.typed c.unsent l.received z l.shown) e s.down in
      let none_said = no_line c.phase c.sent c.received c.queue s.at_c (sym s.up.flow ∙ silent) in
      let quiet = next-quiet m l.received queue (ap lines_of (sym here.flow) ∙ none_said) in
      taken m.reqtype m queue c l (Link-take m quiet here) s silent

  listener_posts :
      (m : Msg) (c : Caller) (l : Listener)
      → l.unsent ≡ some m
      → Sound a b c l
      → ListenerAt l_talk l.sent
      → l.phase ≡ l_talk
      → Returns (λ (q, p). Sound a b p q) (post m l c)
  listener_posts m c l waits s (first, rest, e, is) is_at =
      let up = subst (λ z. Link l.user l.sent l.typed z c.received c.queue c.shown) waits s.up in
      post-Returns (λ (q, p). Sound a b p q) l c m s
        (sound s.down (Link-post m up) s.at_c
          (subst (λ x. ListenerAt x (l.sent ++ m ∷ [])) (sym is_at)
            (first, rest ++ m ∷ [], ap (λ x. x ++ m ∷ []) e, is))
          s.user_c s.user_l)

  listener_says :
      (line : Option Bytes) (c : Caller) (l : Listener) (unsent : Option Msg)
      → l.unsent ≡ unsent
      → ShortLine line
      → length l.user < user_size
      → Sound a b c l
      → ListenerAt l_talk l.sent
      → l.phase ≡ l_talk
      → Returns (λ (q, p). Sound a b p q) (say line l unsent c)
  unfolding say
  listener_says line c l (some m) waits h u s at is_at = listener_posts m c l waits s at is_at
  listener_says none c l none idle h u s at is_at =
      sound s.down s.up s.at_c s.at_l s.user_c s.user_l
  listener_says (some t) c l none idle h u s at is_at =
      let m : Msg = record { reqtype = msg; user = l.user; line = string_at t } in
      let up = subst (λ z. Link l.user l.sent l.typed z c.received c.queue c.shown) idle s.up in
      rw (copied-fits user_size l.user u, copied-fits msg_size (string_at t) h)
        (listener_posts m c (record l { typed = l.typed ++ t ∷ []; unsent = some m }) refl
          (sound s.down (Link-type t up) s.at_c s.at_l s.user_c s.user_l) at is_at)

  -- A turn of the listener's `main` thread keeps the state sound, and it comes to its end.
  pub turn_listener-Sound :
      (line : Option Bytes) (c : Caller) (l : Listener) (ph : Listening)
      → ShortLine line
      → length l.user < user_size
      → Sound a b c l
      → ListenerAt ph l.sent
      → l.phase ≡ ph
      → Returns (λ (q, p). Sound a b p q) (turn_listener line l ph c)
  unfolding turn_listener
  turn_listener-Sound line c l l_open h u s at is_at = sound s.down s.up s.at_c at s.user_c s.user_l
  turn_listener-Sound line c l l_receive h u s at is_at = listener_receives l.queue c l refl s at
  turn_listener-Sound line c l (l_answer m) h u s at is_at = elim (Bool-cases (mq_open l.peer c)) [
    | inl there ↦ rw there (sound s.down s.up s.at_c at s.user_c s.user_l)
    | inr gone ↦ rw gone (sound s.down s.up s.at_c at s.user_c s.user_l)
  ]
  turn_listener-Sound line c l (l_accept m) h u s at is_at =
      let answer : Msg = record { reqtype = accepted; user = l.user; line = m.line } in
      rw (copied-fits user_size l.user u) (
        send-Returns (λ (q, p). Sound a b p q) l c answer (λ p'. record p' { phase = l_talk }) s
          (sound s.down (Link-send answer refl s.up) s.at_c
            (answer, [], ap (λ x. x ++ answer ∷ []) at, refl) s.user_c s.user_l))
  turn_listener-Sound line c l l_talk h u s (first, rest, e, is) is_at =
      listener_says line c l l.unsent refl h u s (first, rest, e, is) is_at

  caller_receives :
      (queue : List Msg) (c : Caller) (l : Listener)
      → c.queue ≡ queue
      → Sound a b c l
      → c.received ≡ []
      → Returns
          (λ (p, q). Sound a b p q)
          (elim (mq_receive c queue) [
            | none ↦ ok (c, l)
            | some (m, p') ↦ ok (take_answer m.reqtype p', l)
          ])
  unfolding mq_receive
  caller_receives [] c l e s fresh = s
  caller_receives (m ∷ queue) c l e s fresh =
      let here : Link l.user l.sent l.typed l.unsent c.received (m ∷ queue) c.shown =
        subst (λ z. Link l.user l.sent l.typed l.unsent c.received z c.shown) e s.up in
      let head : l.sent ≡ m ∷ queue = here.flow ∙ ap (λ r. r ++ m ∷ queue) fresh in
      let answered = first_accepted l.phase l.sent m queue s.at_l head in
      let quiet : spoken m ≡ [] = ap (λ t. spoken_in t m) answered in
      let p' : Caller = record c { queue = queue; received = c.received ++ m ∷ [] } in
      let talks : Sound a b (take_answer accepted p') l =
        sound s.down (Link-take m quiet here)
          (λ no. let more : m ∷ [] ≡ [] = empty_right c.received (m ∷ []) no in absurd cc) s.at_l
          s.user_c s.user_l in
      subst (λ t. Sound a b (take_answer t p') l) (sym answered) talks

  caller_posts :
      (m : Msg) (c : Caller) (l : Listener)
      → c.unsent ≡ some m
      → Sound a b c l
      → CallerAt c_talk c.sent c.received
      → c.phase ≡ c_talk
      → Returns (λ (p, q). Sound a b p q) (post m c l)
  caller_posts m c l waits s at is_at =
      let down =
        subst (λ z. Link c.user c.sent c.typed z l.received l.queue l.shown) waits s.down in
      post-Returns (λ (p, q). Sound a b p q) c l m s
        (sound (Link-post m down) s.up
          (subst (λ x. CallerAt x (c.sent ++ m ∷ []) c.received) (sym is_at) at) s.at_l s.user_c
          s.user_l)

  caller_says :
      (line : Option Bytes) (c : Caller) (l : Listener) (unsent : Option Msg)
      → c.unsent ≡ unsent
      → ShortLine line
      → length c.user < user_size
      → Sound a b c l
      → CallerAt c_talk c.sent c.received
      → c.phase ≡ c_talk
      → Returns (λ (p, q). Sound a b p q) (say line c unsent l)
  unfolding say
  caller_says line c l (some m) waits h u s at is_at = caller_posts m c l waits s at is_at
  caller_says none c l none idle h u s at is_at = sound s.down s.up s.at_c s.at_l s.user_c s.user_l
  caller_says (some t) c l none idle h u s at is_at =
      let m : Msg = record { reqtype = msg; user = c.user; line = string_at t } in
      let down = subst (λ z. Link c.user c.sent c.typed z l.received l.queue l.shown) idle s.down in
      rw (copied-fits user_size c.user u, copied-fits msg_size (string_at t) h)
        (caller_posts m (record c { typed = c.typed ++ t ∷ []; unsent = some m }) l refl
          (sound (Link-type t down) s.up s.at_c s.at_l s.user_c s.user_l) at is_at)

  pub turn_caller-Sound :
      (line : Option Bytes) (c : Caller) (l : Listener) (ph : Invoking)
      → ShortLine line
      → length c.user < user_size
      → Sound a b c l
      → CallerAt ph c.sent c.received
      → c.phase ≡ ph
      → Returns (λ (p, q). Sound a b p q) (turn_caller line c ph l)
  unfolding turn_caller
  turn_caller-Sound line c l c_open h u s at is_at = elim (Bool-cases (strcmp_eq c.user c.peer)) [
    | inl own ↦ rw own (sound s.down s.up at s.at_l s.user_c s.user_l)
    | inr other ↦ rw other (sound s.down s.up at s.at_l s.user_c s.user_l)
  ]
  turn_caller-Sound line c l c_invoke h u s at is_at = elim (Bool-cases (mq_open c.peer l)) [
    | inl there ↦ rw there (sound s.down s.up at s.at_l s.user_c s.user_l)
    | inr gone ↦ rw gone (sound s.down s.up s.at_c s.at_l s.user_c s.user_l)
  ]
  turn_caller-Sound line c l c_ask h u s (quiet, fresh) is_at =
      let ask : Msg = record { reqtype = start; user = c.user; line = c.memory.line } in
      rw (copied-fits user_size c.user u) (
        send-Returns (λ (p, q). Sound a b p q) c l ask (λ p'. record p' { phase = c_wait }) s
          (sound (Link-send ask refl s.down) s.up
            (lines_of-append c.sent (ask ∷ []) ∙ append-nil (lines_of c.sent) ∙ quiet, fresh) s.at_l
            s.user_c s.user_l))
  turn_caller-Sound line c l c_wait h u s (quiet, fresh) is_at =
      caller_receives c.queue c l refl s fresh
  turn_caller-Sound line c l c_talk h u s at is_at =
      caller_says line c l c.unsent refl h u s at is_at
