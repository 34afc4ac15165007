-- ===== src/Chat/Link.antt =====
-- One direction of the chat of src/imp/52-04.c: what a process sent and what the other did with it.
use tlpiexer.Prelude.{
  Option, none, some, ◌≡◌, refl, sym, ap, ◌∙◌, List, [], ◌∷◌, ◌++◌, append_assoc, append-nil,
}
use tlpiexer.CText.{Bytes}
use tlpiexer.Chat.{ReqType, msg, Msg, string_at}

-- What `receive_msg_entry` shows of a message
abbrev pub spoken_in : ReqType → Msg → List (Bytes × Bytes)
spoken_in msg m = (m.user, m.line) ∷ []
spoken_in _ m = []

abbrev pub spoken : Msg → List (Bytes × Bytes)
spoken m = spoken_in m.reqtype m

-- The lines of the messages of type MSG, with the users they are from
abbrev pub lines_of : List Msg → List (Bytes × Bytes)
lines_of [] = []
lines_of (m ∷ ms) = spoken m ++ lines_of ms

-- The line of the message that waits to be sent
abbrev pub said : Option Msg → List (Bytes × Bytes)
said none = []
said (some m) = spoken m

-- The lines that a user typed, each up to its first NUL
abbrev pub typed_by : Bytes → List Bytes → List (Bytes × Bytes)
typed_by user [] = []
typed_by user (l ∷ ls) = (user, string_at l) ∷ typed_by user ls

pub lines_of-append : (xs ys : List Msg) → lines_of (xs ++ ys) ≡ lines_of xs ++ lines_of ys
lines_of-append [] ys = refl
lines_of-append (x ∷ xs) ys =
    ap (λ l. spoken x ++ l) (lines_of-append xs ys)
    ∙ sym (append_assoc (spoken x) (lines_of xs) (lines_of ys))

typed_by-append :
    (u : Bytes) (xs ys : List Bytes) → typed_by u (xs ++ ys) ≡ typed_by u xs ++ typed_by u ys
typed_by-append u [] ys = refl
typed_by-append u (x ∷ xs) ys = ap (λ l. (u, string_at x) ∷ l) (typed_by-append u xs ys)

-- What was sent was received or waits in the queue, in this order; the lines of it, and the line that waits to
-- be sent, are those that were typed, and those that were received are shown.
pub record Link (user : Bytes) (sent : List Msg) (typed : List Bytes) (unsent : Option Msg)
    (received queue : List Msg) (shown : List (Bytes × Bytes)) : Type 0 where
  pub flow : sent ≡ received ++ queue
  pub spoke : lines_of sent ++ said unsent ≡ typed_by user typed
  pub showed : shown ≡ lines_of received

module _ {user : Bytes} {sent : List Msg} {typed : List Bytes} {unsent : Option Msg}
    {received queue : List Msg} {shown : List (Bytes × Bytes)} where
  -- A message that carries no line
  pub Link-send :
      (m : Msg)
      → spoken m ≡ []
      → Link user sent typed unsent received queue shown
      → Link user (sent ++ m ∷ []) typed unsent received (queue ++ m ∷ []) shown
  Link-send m quiet k = record {
    flow = ap (λ s. s ++ m ∷ []) k.flow ∙ append_assoc received queue (m ∷ []);
    spoke =
        ap (λ l. l ++ said unsent)
          (lines_of-append sent (m ∷ [])
            ∙ ap (λ l. lines_of sent ++ (l ++ [])) quiet
            ∙ append-nil (lines_of sent))
        ∙ k.spoke;
    showed = k.showed;
  }

  pub Link-show :
      (m : Msg)
      → Link user sent typed unsent received (m ∷ queue) shown
      → Link user sent typed unsent (received ++ m ∷ []) queue (shown ++ spoken m)
  Link-show m k = record {
    flow = k.flow ∙ sym (append_assoc received (m ∷ []) queue);
    spoke = k.spoke;
    showed =
        ap (λ l. l ++ spoken m) k.showed
        ∙ ap (λ l. lines_of received ++ l) (sym (append-nil (spoken m)))
        ∙ sym (lines_of-append received (m ∷ []));
  }

  pub Link-take :
      (m : Msg)
      → spoken m ≡ []
      → Link user sent typed unsent received (m ∷ queue) shown
      → Link user sent typed unsent (received ++ m ∷ []) queue shown
  Link-take m quiet k = record {
    flow = k.flow ∙ sym (append_assoc received (m ∷ []) queue);
    spoke = k.spoke;
    showed =
        k.showed
        ∙ sym (append-nil (lines_of received))
        ∙ ap (λ l. lines_of received ++ (l ++ [])) (sym quiet)
        ∙ sym (lines_of-append received (m ∷ []));
  }

  -- The lines typed are those shown, then those in the queue, and then the one that waits to be sent.
  pub Link-lines :
      Link user sent typed unsent received queue shown
      → typed_by user typed ≡ shown ++ (lines_of queue ++ said unsent)
  Link-lines k =
      sym k.spoke
      ∙ ap (λ l. lines_of l ++ said unsent) k.flow
      ∙ ap (λ l. l ++ said unsent) (lines_of-append received queue)
      ∙ append_assoc (lines_of received) (lines_of queue) (said unsent)
      ∙ ap (λ l. l ++ (lines_of queue ++ said unsent)) (sym k.showed)

module _ {user : Bytes} {sent : List Msg} {typed : List Bytes} {received queue : List Msg}
    {shown : List (Bytes × Bytes)} where
  -- A line is typed.
  pub Link-type :
      (line : Bytes)
      → Link user sent typed none received queue shown
      → (let m : Msg = record { reqtype = msg; user = user; line = string_at line } in
          Link user sent (typed ++ line ∷ []) (some m) received queue shown)
  Link-type line k = record {
    flow = k.flow;
    spoke =
        ap (λ l. l ++ (user, string_at line) ∷ []) (sym (append-nil (lines_of sent)) ∙ k.spoke)
        ∙ sym (typed_by-append user typed (line ∷ []));
    showed = k.showed;
  }

  -- The message that waits is sent.
  pub Link-post :
      (m : Msg)
      → Link user sent typed (some m) received queue shown
      → Link user (sent ++ m ∷ []) typed none received (queue ++ m ∷ []) shown
  Link-post m k = record {
    flow = ap (λ s. s ++ m ∷ []) k.flow ∙ append_assoc received queue (m ∷ []);
    spoke =
        append-nil (lines_of (sent ++ m ∷ []))
        ∙ lines_of-append sent (m ∷ [])
        ∙ ap (λ l. lines_of sent ++ l) (append-nil (spoken m))
        ∙ k.spoke;
    showed = k.showed;
  }

module _ {A : Type 0} where
  empty_left : (xs ys : List A) → xs ++ ys ≡ [] → xs ≡ []
  empty_left [] ys e = refl
  empty_left (x ∷ xs) ys e = absurd cc

  pub empty_right : (xs ys : List A) → xs ++ ys ≡ [] → ys ≡ []
  empty_right [] ys e = e
  empty_right (x ∷ xs) ys e = absurd cc

-- If no line was sent, the next message carries none.
pub next-quiet :
    (m : Msg) (received queue : List Msg) → lines_of (received ++ m ∷ queue) ≡ [] → spoken m ≡ []
next-quiet m received queue e =
    empty_left (spoken m) (lines_of queue)
      (empty_right (lines_of received) _ (sym (lines_of-append received (m ∷ queue)) ∙ e))
