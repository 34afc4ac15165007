-- ===== src/NameStore/Talk/Tests.antt =====
-- Conversations of the client of src/imp/59-04-client.c with a server whose list is empty.
use tlpiexer.Prelude.{◌≡◌, refl, true, none, some, [], ◌∷◌, Returns, arith, ok, fault}
use Prim.Native.String.{String}
use tlpiexer.CText.{Bytes, c_str, strcmp_eq}
use tlpiexer.NameStore.Spec.{lookup}
use tlpiexer.DList.{null}
use tlpiexer.NameStore.{ItemNv, ll_name_len, ll_value_len, ll_usrname_len}
use tlpiexer.NameStore.Holds.{Holds}
use tlpiexer.NameStore.Server.{MsgReq, Server, req_add}
use tlpiexer.NameStore.Round.{round, crashes}
use tlpiexer.NameStore.Client.{
  add_word, get_word, prepare, command, lstr_err, client, talk, printed, usage,
}
use tlpiexer.NameStore.Talk.{sent, talk-add-get}
use tlpiexer.NameStore.Shown.{Message, talk-shows}

abbrev ann : Bytes
ann = 97 ∷ []

abbrev bob : Bytes
bob = 98 ∷ []

abbrev apple : Bytes
apple = 120 ∷ []

abbrev red : Bytes
red = 114 ∷ []

abbrev empty : Server
empty = record {
  list = record { heap = λ p. none; first = null; size = 0; lerrno = 0 };
  res = record { result = 0; item = record { name = []; value = []; own = [] } };
}

empty-Holds : Holds empty.list []
empty-Holds = record { cells = []; chain = tt; start = refl; same = refl }

talk-add-get_example :
    Returns
      (λ (w, shown).
        (shown ≡ printed (some "Success") none)
        × ((w' : Server) × (it : ItemNv) × (talk 2 w bob (get_word ∷ apple ∷ []) [] 0
              ≡ ok (w', printed (some "Success") (some it)))
            × (c_str ll_name_len it.name ≡ apple)
            × (c_str ll_value_len it.value ≡ red)
            × (c_str ll_usrname_len it.own ≡ ann)))
      (talk 2 empty ann (add_word ∷ apple ∷ red ∷ []) [] 5)
unfolding lookup
talk-add-get_example =
    talk-add-get 2 empty ann bob apple red [] [] 5 0 [] empty-Holds (omega arith) (λ e. omega arith)
      refl refl ((omega arith, tt), omega arith) ((omega arith, tt), omega arith)
      ((omega arith, tt), omega arith)

abbrev add_apple : MsgReq
add_apple = record { cmd = req_add; item = sent apple red ann }

talk-shows_example :
    Returns
      (λ (w, shown).
        Holds w.list (round add_apple []).items
        × ((text : String) × Message (round add_apple []).result text
            × (shown ≡ printed (some text) none)))
      (talk 1 empty ann (add_word ∷ apple ∷ red ∷ []) [] 5)
unfolding prepare command strcmp_eq crashes
talk-shows_example =
    talk-shows 1 empty ann [] (add_word ∷ apple ∷ red ∷ []) add_apple 5 [] empty-Holds (omega arith)
      (λ e. omega arith) refl refl refl

-- `add` needs a value.
no_value : client (some ann) (add_word ∷ apple ∷ []) [] true none ≡ ok usage
unfolding client prepare command strcmp_eq
no_value = refl

-- A number behind the messages that is below the array's size in bytes: a read outside of it.
no_message : lstr_err 6 ≡ fault
unfolding lstr_err
no_message = refl
