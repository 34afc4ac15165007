-- ===== src/Chat/Sound.antt =====
-- The states of the chat of src/imp/52-04.c, and the calls that both sides make.
use tlpiexer.Prelude.{
  ℕ, ◌≡◌, ◌≢◌, ◌<◌, refl, ap, ◌∙◌, true, Option, none, some, List, [], ◌∷◌, ◌++◌, ltb, length,
  arith, ok, Returns, Bool-cases, inl, inr,
}
use tlpiexer.CText.{Bytes}
use tlpiexer.Chat.{
  accepted, Msg, Process, Listening, l_open, l_receive, l_answer, l_accept, l_talk, Invoking,
  c_open, c_invoke, c_ask, c_wait, c_talk, Listener, Caller, copied, msg_size, mq_maxmsg, mq_send,
  post, string_at,
}
use tlpiexer.Chat.Link.{Link, lines_of}

abbrev pub Toward : {P Q : Type 0} → Process P → Process Q → Type 0
Toward p q = Link p.user p.sent p.typed p.unsent q.received q.queue q.shown

-- Before it talks the caller has typed nothing and was sent nothing that it has received.
abbrev pub CallerAt : Invoking → List Msg → List Msg → Type 0
CallerAt c_talk sent received = received ≢ []
CallerAt _ sent received = (lines_of sent ≡ []) × (received ≡ [])

-- Before it talks the listener has sent nothing, and its first message is ACCEPTED.
abbrev pub ListenerAt : Listening → List Msg → Type 0
ListenerAt l_talk sent = (m : Msg) × (ms : List Msg) × (sent ≡ m ∷ ms) × (m.reqtype ≡ accepted)
ListenerAt _ sent = sent ≡ []

-- `a` calls, `b` listens.
pub record Sound (a b : Bytes) (c : Caller) (l : Listener) : Type 0 where
  pub down : Toward c l
  pub up : Toward l c
  pub at_c : CallerAt c.phase c.sent c.received
  pub at_l : ListenerAt l.phase l.sent
  pub user_c : c.user ≡ a
  pub user_l : l.user ≡ b

abbrev pub ShortLine : Option Bytes → Type 0
ShortLine none = Unit {0}
ShortLine (some l) = length (string_at l) < msg_size

pub copied-fits : (size : ℕ) (s : Bytes) → length s < size → copied size s ≡ ok s
copied-fits size s h = let fits : ltb (length s) size ≡ true = ground arith in rw fits refl

module _ {P Q : Type 0} (R : Process P × Process Q → Type 0) (p : Process P) (q : Process Q) where
  -- A send goes through or waits.
  pub send-Returns :
      (m : Msg) (f : Process P → Process P)
      → R (p, q)
      → R (f (record p { sent = p.sent ++ m ∷ [] }), record q { queue = q.queue ++ m ∷ [] })
      → Returns R (elim (mq_send p q m) [ none ↦ ok (p, q) | some (p', q') ↦ ok (f p', q') ])
  unfolding mq_send
  send-Returns m f waits goes = elim (Bool-cases (ltb (length q.queue) mq_maxmsg)) [
    | inl room ↦ rw room goes
    | inr full ↦ rw full waits
  ]

  pub post-Returns :
      (m : Msg)
      → R (p, q)
      → R (
        record p { sent = p.sent ++ m ∷ []; unsent = none },
        record q { queue = q.queue ++ m ∷ [] },
      )
      → Returns R (post m p q)
  unfolding post
  post-Returns m waits goes = send-Returns m (λ p'. record p' { unsent = none }) waits goes

-- What comes first from the listener is ACCEPTED.
pub first_accepted :
    (ph : Listening) (sent : List Msg) (m : Msg) (ms : List Msg)
    → ListenerAt ph sent
    → sent ≡ m ∷ ms
    → m.reqtype ≡ accepted
first_accepted l_open sent m ms at e = absurd cc
first_accepted l_receive sent m ms at e = absurd cc
first_accepted (l_answer m') sent m ms at e = absurd cc
first_accepted (l_accept m') sent m ms at e = absurd cc
first_accepted l_talk sent m ms (m', ms', e', is) e =
    let same : m ≡ m' = cc in ap (λ m. m.reqtype) same ∙ is

-- As long as the listener has sent nothing, the caller has sent no line.
pub no_line :
    (ph : Invoking) (sent received queue : List Msg)
    → CallerAt ph sent received
    → received ++ queue ≡ []
    → lines_of sent ≡ []
no_line c_open sent received queue at e = at.0
no_line c_invoke sent received queue at e = at.0
no_line c_ask sent received queue at e = at.0
no_line c_wait sent received queue at e = at.0
no_line c_talk sent [] queue at e = absurd (at refl)
no_line c_talk sent (m ∷ received) queue at e = absurd cc

module _ {a b : Bytes} where
  pub sound :
      {c : Caller} {l : Listener}
      → Toward c l
      → Toward l c
      → CallerAt c.phase c.sent c.received
      → ListenerAt l.phase l.sent
      → c.user ≡ a
      → l.user ≡ b
      → Sound a b c l
  sound down up at_c at_l user_c user_l = record {
    down = down;
    up = up;
    at_c = at_c;
    at_l = at_l;
    user_c = user_c;
    user_l = user_l;
  }
