-- ===== src/NameStore/Session.antt =====
-- The rounds of the server of src/imp/59-04-server.c, over the list on the heap.
use tlpiexer.Prelude.{
  ℕ, ◌<◌, ◌≡◌, refl, Bool, true, false, Option, none, some, List, ok, fault, ◌==◌, if◌then◌else◌,
  arith, length, Returns, Bool-cases, inl, inr, ◌≢◌, Run, Option-cases, ◌>>=◌,
}
use tlpiexer.CText.{Bytes}
use tlpiexer.DList.{Ptr, null}
use tlpiexer.NameStore.{ItemNv, Store, Ret, same_own}
use tlpiexer.NameStore.Spec.{Reply, lookup, add, get, get-none, get-some, update, delete}
use tlpiexer.NameStore.Holds.{Holds, Holds-errno}
use tlpiexer.NameStore.Refine.{Answers, ll_add-refines, ll_get-refines}
use tlpiexer.NameStore.Update.{ll_set-refines, ll_set-overruns}
use tlpiexer.NameStore.Remove.{ll_del-refines}
use tlpiexer.NameStore.Server.{
  MsgReq, MsgRes, Server, request, dispatch, respond, serve, req_add, req_get, req_set, req_del,
  res_unkow,
}
use tlpiexer.NameStore.Round.{Round, of_reply, round, crashes, round-keeps}

-- A server whose list and `lerrno` are those of a round's end.
pub record Ends (r : Round) (v : Server) : Type 0 where
  pub errno : v.list.lerrno ≡ r.result
  pub holds : Holds v.list r.items
  pub answer : (x : ItemNv) → r.answer ≡ some x → v.res.item ≡ x

module _ (v : Server) (r : Reply) where
  -- The commands that leave the response's item alone.
  after :
      (m : Run (Ret × Store))
      → Returns (Answers r) m
      → Returns (Ends (of_reply r)) (m >>= λ (_, s'). ok (record v { list = s' }))
  after (ok a) h = record { errno = h.errno; holds = h.holds; answer = λ x e. cc }
  after fault h = absurd h
  after Run.out_of_fuel h = absurd h

module _ (fuel : ℕ) (v : Server) (req : MsgReq) (fresh : Ptr) (xs : List ItemNv)
    (h : Holds v.list xs) (enough : length xs < fuel) (usable : fresh ≢ null)
    (unused : v.list.heap fresh ≡ none) where
  abbrev cleared : Store
  cleared = record (v.list) { lerrno = 0 }

  cleared-Holds : Holds cleared xs
  cleared-Holds = Holds-errno v.list xs 0 h

  abbrev asked : ItemNv
  asked = record (v.res.item) { name = req.item.name }

  got :
      Ends
        (record { result = (get req.item 0 xs).2; answer = lookup req.item.name xs; items = xs })
        (record {
          list = record cleared { lerrno = (get asked 0 xs).2 };
          res = record (v.res) { item = (get asked 0 xs).1 };
        })
  got = elim (Option-cases (lookup req.item.name xs)) [
    | inl gone ↦ record {
      errno = rw (get-none asked 0 xs gone, get-none req.item 0 xs gone);
      holds = Holds-errno v.list xs _ h;
      answer = λ x e. cc (gone, e);
    }
    | inr (y, there) ↦ record {
      errno = rw (get-some asked 0 xs y there, get-some req.item 0 xs y there);
      holds = Holds-errno v.list xs _ h;
      answer = λ x e. rw (get-some asked 0 xs y there) (cc (there, e));
    }
  ]

  dispatch-Ends : crashes req xs ≡ false → Returns (Ends (round req xs)) (dispatch fuel v req fresh)
  unfolding dispatch round crashes
  dispatch-Ends safe = elim (Bool-cases (req.cmd == req_add)) [
    | inl c ↦ rw c (
        after v (add req.item 0 xs) _
          (ll_add-refines fuel fresh cleared req.item xs cleared-Holds enough usable unused))
    | inr c ↦ elim (Bool-cases (req.cmd == req_get)) [
      | inl c' ↦ rw (c, c', ll_get-refines fuel cleared asked xs cleared-Holds enough) got
      | inr c' ↦ elim (Bool-cases (req.cmd == req_set)) [
        | inl c'' ↦
            rw (c, c', c'')
              (after v (update req.item 0 xs) _
                (ll_set-refines fuel cleared req.item xs cleared-Holds enough (ground arith)))
        | inr c'' ↦ elim (Bool-cases (req.cmd == req_del)) [
          | inl c''' ↦
              rw (c, c', c'', c''')
                (after v (delete req.item 0 xs) _
                  (ll_del-refines fuel cleared req.item xs cleared-Holds enough))
          | inr c''' ↦
              rw (c, c', c'', c''')
                record {
                  errno = refl;
                  holds = Holds-errno v.list xs res_unkow h;
                  answer = λ x e. cc;
                }
        ]
      ]
    ]
  ]

  -- Where the nodes are a list of items shorter than the fuel, `malloc` gives an unused address,
  -- and the request is no set that copies a value with no end, the round returns: the nodes
  -- behind it are the list of `round`, the response has its result and, for a get that finds one,
  -- the item, and it goes out if the write succeeds.
  pub serve-round :
      (sent : Bool)
      → crashes req xs ≡ false
      → Returns
          (λ (w, out).
            Holds w.list (round req xs).items
            × (w.res.result ≡ (round req xs).result)
            × ((x : ItemNv) → (round req xs).answer ≡ some x → w.res.item ≡ x)
            × (out ≡ (if sent then some w.res else none)))
          (serve fuel v (request req fresh sent))
  unfolding serve respond
  serve-round sent safe = go (dispatch fuel v req fresh) (dispatch-Ends safe)
    where
      go :
          (m : Run Server)
          → Returns (Ends (round req xs)) m
          → Returns
              (λ (w, out).
                Holds w.list (round req xs).items
                × (w.res.result ≡ (round req xs).result)
                × ((x : ItemNv) → (round req xs).answer ≡ some x → w.res.item ≡ x)
                × (out ≡ (if sent then some w.res else none)))
              (m >>= λ v'. let w = respond v' in ok (w, if sent then some w.res else none))
      go (ok w) e = (e.holds, ground (arith, e.errno), e.answer, refl)
      go fault e = absurd e
      go Run.out_of_fuel e = absurd e

  -- Where the nodes are a list of items shorter than the fuel and `malloc` gives an unused
  -- address, a set by the owner of a value that fills its array ends the server in undefined
  -- behaviour.
  pub serve-crashes :
      (sent : Bool) → crashes req xs ≡ true → serve fuel v (request req fresh sent) ≡ fault
  unfolding serve dispatch crashes
  serve-crashes sent long = elim (Bool-cases (req.cmd == req_set)) [
    | inl c ↦
        ground (arith, ll_set-overruns fuel cleared req.item xs cleared-Holds enough (ground arith))
    | inr c ↦ ground arith
  ]

-- Where a round returns, its state is that of the list of items.
pub serve-Holds :
    (fuel : ℕ) (v : Server) (req : MsgReq) (fresh : Ptr) (sent : Bool) (xs : List ItemNv)
    {w : Server} {out : Option MsgRes}
    → Holds v.list xs
    → length xs < fuel
    → fresh ≢ null
    → v.list.heap fresh ≡ none
    → serve fuel v (request req fresh sent) ≡ ok (w, out)
    → Holds w.list (round req xs).items
serve-Holds fuel v req fresh sent xs {w} {out} h enough usable unused e =
    elim (Bool-cases (crashes req xs)) [
      | inl long ↦ cc (serve-crashes fuel v req fresh xs h enough usable unused sent long, e)
      | inr safe ↦ (rw e at (serve-round fuel v req fresh xs h enough usable unused sent safe)).0
    ]

-- From nodes that are a list of items shorter than the fuel, and with an unused address from
-- `malloc`, a round that returns leaves a list in which the first item under a name is as it was,
-- unless the request names the owner of that item as its own.
pub serve-keeps :
    (fuel : ℕ) (v : Server) (req : MsgReq) (fresh : Ptr) (sent : Bool) (xs : List ItemNv)
    (k : Bytes) (x : ItemNv) {w : Server} {out : Option MsgRes}
    → Holds v.list xs
    → length xs < fuel
    → fresh ≢ null
    → v.list.heap fresh ≡ none
    → lookup k xs ≡ some x
    → same_own req.item.own x ≡ false
    → serve fuel v (request req fresh sent) ≡ ok (w, out)
    → (ys : List ItemNv) × Holds w.list ys × (lookup k ys ≡ some x)
serve-keeps fuel v req fresh sent xs k x h enough usable unused there other e = (
  (round req xs).items,
  serve-Holds fuel v req fresh sent xs h enough usable unused e,
  round-keeps req xs k x there other,
)
