-- ===== src/NameStore/Tests.antt =====
-- Runs of the list of src/lib/59-04-llist.c and of the server of src/imp/59-04-server.c.
use tlpiexer.Prelude.{
  ◌≡◌, refl, true, none, some, List, [], ◌∷◌, arith, Returns, if◌then◌else◌, ◌==◌,
}
use tlpiexer.CText.{Bytes}
use tlpiexer.DList.{null, node}
use tlpiexer.NameStore.{
  ItemNv, Store, Ret, fn_ok, fn_er, same_name, same_own, ll_init, ll_add, ll_get, ll_set, ll_del,
  ll_free,
}
use tlpiexer.NameStore.Spec.{add, update, delete, lookup, overruns, terminated}
use tlpiexer.NameStore.Holds.{Holds}
use tlpiexer.NameStore.Refine.{Answers, ll_add-refines}
use tlpiexer.NameStore.Update.{ll_set-refines}
use tlpiexer.NameStore.Remove.{ll_del-refines}
use tlpiexer.NameStore.Server.{
  MsgReq, MsgRes, Server, Conn, request, refused, serve, req_set, req_add, req_get,
}
use tlpiexer.NameStore.Round.{round, crashes}
use tlpiexer.NameStore.Session.{serve-round, serve-keeps}
use tlpiexer.NameStore.Reached.{Reach, Reach-Sound, Sound, start, next}

abbrev ann : Bytes
ann = 97 ∷ []

abbrev bob : Bytes
bob = 98 ∷ []

abbrev apple : ItemNv
apple = record { name = 120 ∷ []; value = 49 ∷ []; own = ann }

abbrev pear : ItemNv
pear = record { name = 121 ∷ []; value = 50 ∷ []; own = bob }

-- The store with `apple` alone, at address 10
abbrev one : Store
one = record {
  heap = λ p. if p == 10 then some (node apple null null) else none;
  first = 10;
  size = 0;
  lerrno = 0;
}

one-Holds : Holds one (apple ∷ [])
one-Holds = record {
  cells = (10, apple) ∷ [];
  chain = ((λ e. omega arith), refl, refl, tt);
  start = refl;
  same = refl;
}

abbrev endless : ItemNv
endless = record apple {
  value =
      1 ∷ 1 ∷ 1 ∷ 1 ∷ 1 ∷ 1 ∷ 1 ∷ 1 ∷ 1 ∷ 1 ∷ 1 ∷ 1 ∷ 1 ∷ 1 ∷ 1 ∷ 1 ∷ 1 ∷ 1 ∷ 1 ∷ 1 ∷ 1 ∷ 1 ∷ 1 ∷ 1
      ∷ 1 ∷ 1 ∷ 1 ∷ 1 ∷ 1 ∷ 1 ∷ 1 ∷ 1 ∷ [];
}

ll_add-refines_example : Returns (Answers (add pear 0 (apple ∷ []))) (ll_add 2 11 one pear)
ll_add-refines_example =
    ll_add-refines 2 11 one pear (apple ∷ []) one-Holds (omega arith) (λ e. omega arith) refl

ll_set-refines_example : Returns (Answers (update apple 0 (apple ∷ []))) (ll_set 2 one apple)
unfolding overruns lookup terminated same_name same_own tlpiexer.CText.same_str tlpiexer.CText.c_str
ll_set-refines_example = ll_set-refines 2 one apple (apple ∷ []) one-Holds (omega arith) refl

ll_del-refines_example : Returns (Answers (delete apple 0 (apple ∷ []))) (ll_del 2 one apple)
ll_del-refines_example = ll_del-refines 2 one apple (apple ∷ []) one-Holds (omega arith)

abbrev server : Server
server = record { list = one; res = record { result = 0; item = pear } }

abbrev add_pear : MsgReq
add_pear = record { cmd = req_add; item = pear }

abbrev set_endless : MsgReq
set_endless = record { cmd = req_set; item = endless }

serve-round_example :
    Returns
      (λ (w, out).
        Holds w.list (round add_pear (apple ∷ [])).items
        × (w.res.result ≡ (round add_pear (apple ∷ [])).result)
        × ((x : ItemNv) → (round add_pear (apple ∷ [])).answer ≡ some x → w.res.item ≡ x)
        × (out ≡ (if true then some w.res else none)))
      (serve 2 server (request add_pear 11 true))
unfolding crashes
serve-round_example =
    serve-round 2 server add_pear 11 (apple ∷ []) one-Holds (omega arith) (λ e. omega arith) refl
      true refl

-- A set of `apple` in the name of another owner.
abbrev set_other : MsgReq
set_other = record { cmd = req_set; item = record apple { own = bob } }

serve-keeps_example :
    (ys : List ItemNv) × Holds (record one { lerrno = 1 }) ys × (lookup apple.name ys ≡ some apple)
unfolding lookup same_name same_own tlpiexer.CText.same_str serve tlpiexer.NameStore.Server.dispatch
    tlpiexer.NameStore.Server.respond ll_set tlpiexer.NameStore.set_value tlpiexer.DList.find
    tlpiexer.DList.load
serve-keeps_example =
    serve-keeps 2 server set_other 11 true (apple ∷ []) apple.name apple
      {w = record { list = record one { lerrno = 1 }; res = record { result = 1; item = pear } }}
      {out = some (record { result = 1; item = pear })} one-Holds (omega arith) (λ e. omega arith)
      refl refl refl refl

abbrev get_apple : MsgReq
get_apple = record { cmd = req_get; item = apple }

abbrev empty : Server
empty = record {
  list = record { heap = λ p. none; first = null; size = 0; lerrno = 0 };
  res = record { result = 0; item = pear };
}

-- The server after one round, a get that finds nothing.
abbrev told : Server
told = record {
  list = record (empty.list) { lerrno = 3 };
  res = record { result = 3; item = record pear { name = apple.name } };
}

told-Reach : Reach 2 1 told
unfolding ll_init serve tlpiexer.NameStore.Server.dispatch tlpiexer.NameStore.Server.respond ll_get
    tlpiexer.DList.find
told-Reach =
    next {out = some told.res} (request get_apple 11 true) (start empty refl)
      ((λ e. omega arith), refl) refl

Reach-Sound_example : Sound 1 told
Reach-Sound_example = Reach-Sound 2 told-Reach (omega arith)
