-- ===== src/Chat.antt =====
-- The chat of src/imp/52-04.c between two processes of different users: one listens (-l) and one invokes
-- it (-c). A turn of a thread is one call that the other process can see; the order of the turns is a list.
-- Each queue stands with the process that made it.
pub mod Link
pub mod Sound
pub mod Turns
pub mod Runs
pub mod Order
mod Tests
use tlpiexer.Prelude.{
  ℕ, ◌+◌, Bool, true, false, not, Option, none, some, List, [], ◌∷◌, ◌++◌, if◌then◌else◌, ltb,
  length, Run, ok, fault, ◌>>=◌,
}
use tlpiexer.CText.{Bytes, c_str, strcmp_eq}

pub data ReqType : Type 0 where
  start accepted msg end error : ReqType

-- `msg_t`; `line` is its field `data`.
pub record Msg : Type 0 where
  pub reqtype : ReqType
  pub user : Bytes
  pub line : Bytes

-- Where `listen_user` is: before `mq_open` in `main`, or at a call of its own, or behind it.
pub data Listening : Type 0 where
  l_open l_receive : Listening
  l_answer l_accept : Msg → Listening
  l_talk : Listening

-- Where `invoke_peer` is.
pub data Invoking : Type 0 where
  c_open c_invoke c_ask c_wait c_talk : Invoking

-- `queue` is the listen-queue, whose name is there while it is `linked`; `memory` is what an unset `msg_t`
-- holds, and `unsent` is the message with which `start_message` waits in `mq_send`. What was sent, received, typed and shown is kept from the start on.
pub record Process (Phase : Type 0) : Type 0 where
  pub user : Bytes
  pub peer : Bytes
  pub phase : Phase
  pub running : Bool
  pub linked : Bool
  pub queue : List Msg
  pub memory : Msg
  pub unsent : Option Msg
  pub sent : List Msg
  pub received : List Msg
  pub typed : List Bytes
  pub shown : List (Bytes × Bytes)

abbrev pub mq_maxmsg : ℕ
mq_maxmsg = 8

abbrev pub user_size : ℕ
user_size = 16

abbrev pub msg_size : ℕ
msg_size = 1024

-- The string at the start of an array, up to its first NUL
abbrev pub string_at : Bytes → Bytes
string_at s = c_str (length s) s

-- `strcpy` of a string, given as the bytes before its NUL, into an array of so many bytes
abbrev pub copied : ℕ → Bytes → Run Bytes
copied size s = if ltb (length s) size then ok s else fault

module _ {P : Type 0} where
  -- `exit_err`, of a process whose queue is linked
  abbrev pub exit_err : Process P → Process P
  exit_err p = record p { running = false; linked = false }

  -- `mq_open` of the queue that the name of the user stands for, where only `q` may have it
  abbrev pub mq_open : Bytes → Process P → Bool
  mq_open user q = if strcmp_eq user q.user then q.linked else false

module _ {P Q : Type 0} where
  -- `mq_send` to `q`; `none` where the queue is full and the call waits
  unfoldable pub mq_send : Process P → Process Q → Msg → Option (Process P × Process Q)
  mq_send p q m =
      if ltb (length q.queue) mq_maxmsg
      then some (record p { sent = p.sent ++ m ∷ [] }, record q { queue = q.queue ++ m ∷ [] })
      else none

  -- The `mq_send` of `start_message`: where it waits the thread keeps the message for its next turn.
  unfoldable pub post : Msg → Process P → Process Q → Run (Process P × Process Q)
  post m p q = elim (mq_send p q m) [
    | none ↦ ok (p, q)
    | some (p', q') ↦ ok (record p' { unsent = none }, q')
  ]

  -- A round of the loop of `start_message`, with what `getline` gives, or the rest of one in which the thread
  -- waits in `mq_send` with a message.
  unfoldable pub say :
      Option Bytes → Process P → Option Msg → Process Q → Run (Process P × Process Q)
  say line p (some m) q = post m p q
  say none p none q = ok (exit_err p, q)
  say (some line) p none q = copied user_size p.user >>= λ u.
      copied msg_size (string_at line) >>= λ l.
      let m : Msg = record { reqtype = msg; user = u; line = l } in
      post m (record p { typed = p.typed ++ line ∷ []; unsent = some m }) q

module _ {P : Type 0} where
  -- `mq_receive` from the own queue; `none` where it waits
  unfoldable pub mq_receive : Process P → List Msg → Option (Msg × Process P)
  mq_receive p [] = none
  mq_receive p (m ∷ queue) = some (m, record p { queue = queue; received = p.received ++ m ∷ [] })

  -- The `switch` of `receive_msg_entry`, of which only MSG shows a line
  abbrev pub print : ReqType → Msg → Process P → Process P
  print msg m p = record p { shown = p.shown ++ (m.user, m.line) ∷ [] }
  print _ m p = p

  -- One round of the loop of `receive_msg_entry`
  unfoldable pub show_next : Process P → Process P
  show_next p = elim (mq_receive p p.queue) [ none ↦ p | some (m, p') ↦ print m.reqtype m p' ]

abbrev pub Listener : Type 0
Listener = Process Listening

abbrev pub Caller : Type 0
Caller = Process Invoking

-- The loop of `listen_user` passes over what is not a START.
abbrev pub take_start : ReqType → Msg → Listener → Listener
take_start start m p = record p { peer = m.user; phase = l_answer m }
take_start _ m p = p

-- `main` and `listen_user`, then `start_message`
unfoldable pub turn_listener :
    Option Bytes → Listener → Listening → Caller → Run (Listener × Caller)
turn_listener line p l_open q = ok (record p { linked = true; phase = l_receive }, q)
turn_listener line p l_receive q = elim (mq_receive p p.queue) [
  | none ↦ ok (p, q)
  | some (m, p') ↦ ok (take_start m.reqtype m p', q)
]
turn_listener line p (l_answer m) q =
    if mq_open p.peer q
    then ok (record p { phase = l_accept m }, q)
    else ok (record p { phase = l_receive }, q)
turn_listener line p (l_accept m) q = copied user_size p.user >>= λ u.
    elim (mq_send p q (record { reqtype = accepted; user = u; line = m.line })) [
      | none ↦ ok (p, q)
      | some (p', q') ↦ ok (record p' { phase = l_talk }, q')
    ]
turn_listener line p l_talk q = say line p p.unsent q

abbrev pub take_answer : ReqType → Caller → Caller
take_answer accepted p = record p { phase = c_talk }
take_answer _ p = exit_err p

-- `main` and `invoke_peer`, then `start_message`
unfoldable pub turn_caller : Option Bytes → Caller → Invoking → Listener → Run (Caller × Listener)
turn_caller line p c_open q =
    let p' : Caller = record p { linked = true; phase = c_invoke } in
    if strcmp_eq p.user p.peer then ok (exit_err p', q) else ok (p', q)
turn_caller line p c_invoke q =
    if mq_open p.peer q then ok (record p { phase = c_ask }, q) else ok (exit_err p, q)
turn_caller line p c_ask q = copied user_size p.user >>= λ u.
    elim (mq_send p q (record { reqtype = start; user = u; line = p.memory.line })) [
      | none ↦ ok (p, q)
      | some (p', q') ↦ ok (record p' { phase = c_wait }, q')
    ]
turn_caller line p c_wait q = elim (mq_receive p p.queue) [
  | none ↦ ok (p, q)
  | some (m, p') ↦ ok (take_answer m.reqtype p', q)
]
turn_caller line p c_talk q = say line p p.unsent q

pub record System : Type 0 where
  pub caller : Caller
  pub listener : Listener

-- A turn of the thread of `main`, with the next line of its stdin if there is one, or of the thread of
-- `receive_msg_entry`
pub data Turn : Type 0 where
  caller_main listener_main : Option Bytes → Turn
  caller_shows listener_shows : Turn

abbrev pub caller_next : Caller → Invoking → Caller
caller_next p c_talk = show_next p
caller_next p _ = p

abbrev pub listener_next : Listener → Listening → Listener
listener_next p l_talk = show_next p
listener_next p _ = p

-- A process that has ended takes no turn, nor does a thread that is not there yet.
unfoldable pub turn : Turn → System → Run System
turn (caller_main line) s =
    if s.caller.running
    then (turn_caller line s.caller s.caller.phase s.listener >>= λ (p, q).
        ok (record { caller = p; listener = q }))
    else ok s
turn (listener_main line) s =
    if s.listener.running
    then (turn_listener line s.listener s.listener.phase s.caller >>= λ (p, q).
        ok (record { caller = q; listener = p }))
    else ok s
turn caller_shows s =
    if s.caller.running
    then ok (record s { caller = caller_next s.caller s.caller.phase })
    else ok s
turn listener_shows s =
    if s.listener.running
    then ok (record s { listener = listener_next s.listener s.listener.phase })
    else ok s

unfoldable pub run : List Turn → System → Run System
run [] s = ok s
run (t ∷ turns) s = turn t s >>= λ s'. run turns s'

abbrev process : {P : Type 0} → Bytes → Bytes → P → Msg → Process P
process user peer phase memory = record {
  user = user;
  peer = peer;
  phase = phase;
  running = true;
  linked = false;
  queue = [];
  memory = memory;
  unsent = none;
  sent = [];
  received = [];
  typed = [];
  shown = [];
}

-- Both behind their options, by the user who calls and the user who listens.
abbrev pub begun : Bytes → Bytes → Msg → System
begun a b memory = record {
  caller = process a b c_open memory;
  listener = process b [] l_open memory;
}
