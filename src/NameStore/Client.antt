-- ===== src/NameStore/Client.antt =====
-- The client of src/imp/59-04-client.c, and a whole conversation of it with the server.
use Prim.Native.String.{String}
use tlpiexer.Prelude.{
  ℕ, Bool, true, Option, none, some, List, [], ◌∷◌, ◌*◌, ◌==◌, leb, not, if◌then◌else◌, get_elem?,
  Run, ok, fault, ◌>>=◌,
}
use tlpiexer.CText.{Bytes, strncpy, strcmp_eq}
use tlpiexer.DList.{Ptr}
use tlpiexer.NameStore.{ItemNv, ll_name_len, ll_value_len, ll_usrname_len}
use tlpiexer.NameStore.Server.{
  MsgReq, MsgRes, Server, request, serve, req_add, req_get, req_set, req_del, res_ok,
}

abbrev pub add_word : Bytes
add_word = 97 ∷ 100 ∷ 100 ∷ []

abbrev pub del_word : Bytes
del_word = 100 ∷ 101 ∷ 108 ∷ []

abbrev pub get_word : Bytes
get_word = 103 ∷ 101 ∷ 116 ∷ []

abbrev pub set_word : Bytes
set_word = 115 ∷ 101 ∷ 116 ∷ []

-- The number of the command, if the word is one and `argc` is what it needs.
unfoldable pub command : Bytes → ℕ → Option ℕ
command word argc =
    if strcmp_eq word add_word
    then if argc == 4 then some req_add else none
    else if strcmp_eq word del_word
    then if argc == 3 then some req_del else none
    else if strcmp_eq word get_word
    then if argc == 3 then some req_get else none
    else if strcmp_eq word set_word
    then if argc == 4 then some req_set else none
    else none

-- `argv[3]`, if `argc` is 4, or the bytes that were in the array.
abbrev pub value_of : List Bytes → Bytes → Bytes
value_of (value ∷ []) old = strncpy ll_value_len value
value_of args old = old

abbrev pub argc_of : List Bytes → ℕ
argc_of [] = 3
argc_of (a ∷ []) = 4
argc_of (a ∷ b ∷ rest) = 5

-- The request, from the owner's name and the arguments behind the program's name; `none` stands for
-- `_exit_usage`. `old` is what the memory of the request held. More than four arguments are all one.
unfoldable pub prepare : Bytes → List Bytes → Bytes → Option MsgReq
prepare own [] old = none
prepare own (word ∷ []) old = none
prepare own (word ∷ name ∷ args) old = elim (command word (argc_of args)) [
  | none ↦ none
  | some cmd ↦ some (record {
    cmd = cmd;
    item = record {
      name = strncpy ll_name_len name;
      value = value_of args old;
      own = strncpy ll_usrname_len own;
    };
  })
]

abbrev pub lerr_str : List String
lerr_str =
    "Success" ∷ "Permision denied" ∷ "Item is early exist" ∷ "Item doesn't exist"
    ∷ "Internal server error" ∷ "Unknow command" ∷ []

-- The bytes of the array, six pointers of eight: `sizeof(lerr_str)`.
abbrev pub lerr_str_size : ℕ
lerr_str_size = 6 * 8

-- NULL is `none`.
unfoldable pub lstr_err : ℕ → Run (Option String)
lstr_err lerrno =
    if leb lerr_str_size lerrno
    then ok none
    else elim (get_elem? lerr_str lerrno) [ none ↦ fault | some text ↦ ok (some text) ]

-- How `main` ends: by the usage, by `exit_err`, or with a message and, behind it, an item.
pub data Outcome : Type 0 where
  usage : Outcome
  failed : Outcome
  printed : Option String → Option ItemNv → Outcome

unfoldable pub display : MsgReq → MsgRes → Run Outcome
display req res = lstr_err res.result >>= λ text. ok (
    printed text
      (if res.result == res_ok then if req.cmd == req_get then some res.item else none else none))

-- `main`, from what it reads: the owner's name, if `getpwuid` finds one, whether `isock_connect` and
-- `write` succeed, and the response, if `read` gets it whole.
unfoldable pub client : Option Bytes → List Bytes → Bytes → Bool → Option MsgRes → Run Outcome
client own [] old connected answer = ok usage
client own (word ∷ []) old connected answer = ok usage
client none (word ∷ name ∷ args) old connected answer = ok failed
client (some own) (word ∷ name ∷ args) old connected answer =
    elim (prepare own (word ∷ name ∷ args) old) [
      | none ↦ ok usage
      | some req ↦
          if not connected
          then ok failed
          else elim answer [ none ↦ ok failed | some res ↦ display req res ]
    ]

-- A client and the server: the server behind it, and what the client shows.
unfoldable pub talk : ℕ → Server → Bytes → List Bytes → Bytes → Ptr → Run (Server × Outcome)
talk fuel v own args old fresh = elim (prepare own args old) [
  | none ↦ ok (v, usage)
  | some req ↦
      (serve fuel v (request req fresh true) >>= λ (w, out).
      (client (some own) args old true out >>= λ shown. ok (w, shown)))
]
