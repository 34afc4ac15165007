-- ===== src/NameStore/Shown.antt =====
-- What the client of src/imp/59-04-client.c shows of the round of the server of src/imp/59-04-server.c.
use Prim.Native.String.{String}
use tlpiexer.Prelude.{
  ℕ, ◌<◌, ◌≡◌, ◌≢◌, refl, ap, ◌∙◌, true, false, none, some, List, [], ◌∷◌, ◌==◌, arith, length, ok,
  Returns, Returns-bind, if◌then◌else◌, Bool-cases, inl, inr, Option-cases,
}
use tlpiexer.CText.{Bytes}
use tlpiexer.DList.{Ptr, null}
use tlpiexer.NameStore.{ItemNv, same_own, el_perm, el_exist, el_noext}
use tlpiexer.NameStore.Spec.{
  lookup, get-some, get-none, add-none, add-some, add, get, update, delete, update-none, update-own,
  update-perm, delete-none, delete-own, delete-perm,
}
use tlpiexer.NameStore.Holds.{Holds}
use tlpiexer.NameStore.Server.{
  MsgReq, MsgRes, Server, request, serve, req_add, req_get, req_set, req_del, res_ok, res_unkow,
}
use tlpiexer.NameStore.Round.{round, crashes}
use tlpiexer.NameStore.Session.{serve-round}
use tlpiexer.NameStore.Client.{prepare, lstr_err, display, client, talk, printed, Outcome}

-- The message of each result.
pub data Message : ℕ → String → Type 0 where
  success : Message res_ok "Success"
  no_permission : Message el_perm "Permision denied"
  there_already : Message el_exist "Item is early exist"
  not_there : Message el_noext "Item doesn't exist"
  unknown_command : Message res_unkow "Unknow command"

-- What a client shows of a request to a list of items: the message of its result, and behind it the item
-- that a get found.
abbrev pub Shows : MsgReq → List ItemNv → Outcome → Type 0
Shows req xs shown =
    (text : String) × Message (round req xs).result text
    × (shown ≡ printed (some text) (if req.cmd == req_get then lookup req.item.name xs else none))

-- The message of a result is the one that the client looks up.
abbrev Known : ℕ → Type 0
Known n = (text : String) × Message n text × (lstr_err n ≡ ok (some text))

module _ (it : ItemNv) (xs : List ItemNv) where
  add-Known : Known (add it 0 xs).errno
  unfolding lstr_err
  add-Known = elim (Option-cases (lookup it.name xs)) [
    | inl gone ↦ rw (add-none it 0 xs gone) ("Success", success, refl)
    | inr (y, got) ↦ rw (add-some it 0 xs y got) ("Item is early exist", there_already, refl)
  ]

  get-Known : Known (get it 0 xs).2
  unfolding lstr_err
  get-Known = elim (Option-cases (lookup it.name xs)) [
    | inl gone ↦ rw (get-none it 0 xs gone) ("Item doesn't exist", not_there, refl)
    | inr (y, got) ↦ rw (get-some it 0 xs y got) ("Success", success, refl)
  ]

  update-Known : Known (update it 0 xs).errno
  unfolding lstr_err
  update-Known = elim (Option-cases (lookup it.name xs)) [
    | inl gone ↦ rw (update-none it 0 xs gone) ("Item doesn't exist", not_there, refl)
    | inr (y, got) ↦ elim (Bool-cases (same_own it.own y)) [
      | inl own ↦ rw (update-own it 0 xs y got own) ("Success", success, refl)
      | inr no_own ↦ rw (update-perm it 0 xs y got no_own) ("Permision denied", no_permission, refl)
    ]
  ]

  delete-Known : Known (delete it 0 xs).errno
  unfolding lstr_err
  delete-Known = elim (Option-cases (lookup it.name xs)) [
    | inl gone ↦ rw (delete-none it 0 xs gone) ("Item doesn't exist", not_there, refl)
    | inr (y, got) ↦ elim (Bool-cases (same_own it.own y)) [
      | inl own ↦ rw (delete-own it 0 xs y got own) ("Success", success, refl)
      | inr no_own ↦ rw (delete-perm it 0 xs y got no_own) ("Permision denied", no_permission, refl)
    ]
  ]

round-Known : (req : MsgReq) (xs : List ItemNv) → Known (round req xs).result
unfolding round lstr_err
round-Known req xs = elim (Bool-cases (req.cmd == req_add)) [
  | inl h ↦ rw h (add-Known req.item xs)
  | inr h ↦ elim (Bool-cases (req.cmd == req_get)) [
    | inl h' ↦ rw (h, h') (get-Known req.item xs)
    | inr h' ↦ elim (Bool-cases (req.cmd == req_set)) [
      | inl h'' ↦ rw (h, h', h'') (update-Known req.item xs)
      | inr h'' ↦ elim (Bool-cases (req.cmd == req_del)) [
        | inl h''' ↦ rw (h, h', h'', h''') (delete-Known req.item xs)
        | inr h''' ↦ rw (h, h', h'', h''') ("Unknow command", unknown_command, refl)
      ]
    ]
  ]
]

-- The round of a get.
round-get :
    (req : MsgReq) (xs : List ItemNv)
    → (req.cmd == req_get) ≡ true
    → round req xs
      ≡ record { result = (get req.item 0 xs).2; answer = lookup req.item.name xs; items = xs }
unfolding round
round-get req xs h = let e : (req.cmd == req_add) ≡ false = ground arith in rw (e, h)

-- The item behind the message.
shown_item :
    (req : MsgReq) (xs : List ItemNv) (res : MsgRes)
    → res.result ≡ (round req xs).result
    → ((x : ItemNv) → (round req xs).answer ≡ some x → res.item ≡ x)
    → (if res.result == res_ok then if req.cmd == req_get then some res.item else none else none)
      ≡ (if req.cmd == req_get then lookup req.item.name xs else none)
shown_item req xs res result item = elim (Bool-cases (req.cmd == req_get)) [
  | inr other ↦ rw other (ground arith)
  | inl asks ↦
      let r = round-get req xs asks in
      elim (Option-cases (lookup req.item.name xs)) [
        | inl gone ↦ rw (asks, gone, result, r, get-none req.item 0 xs gone)
        | inr (y, got) ↦
            rw (asks, got, result, r, get-some req.item 0 xs y got)
              (ap some (item y (ap (λ o. o.answer) r ∙ got)))
      ]
]

display-Shows :
    (req : MsgReq) (xs : List ItemNv) (res : MsgRes)
    → res.result ≡ (round req xs).result
    → ((x : ItemNv) → (round req xs).answer ≡ some x → res.item ≡ x)
    → Returns (Shows req xs) (display req res)
unfolding display
display-Shows req xs res result item =
    let (text, message, found) = round-Known req xs in
    let e : lstr_err res.result ≡ ok (some text) = ap lstr_err result ∙ found in
    rw e (text, message, ap (printed (some text)) (shown_item req xs res result item))

talk-long :
    (fuel : ℕ) (v : Server) (own old word name : Bytes) (args : List Bytes) (req : MsgReq)
    (fresh : Ptr) (xs : List ItemNv)
    → Holds v.list xs
    → length xs < fuel
    → fresh ≢ null
    → v.list.heap fresh ≡ none
    → prepare own (word ∷ name ∷ args) old ≡ some req
    → crashes req xs ≡ false
    → Returns
        (λ (w, shown). Holds w.list (round req xs).items × Shows req xs shown)
        (talk fuel v own (word ∷ name ∷ args) old fresh)
unfolding talk client
talk-long fuel v own old word name args req fresh xs h enough usable unused sends safe =
    rw (talk, sends)
      (Returns-bind _ _ (serve fuel v (request req fresh true)) _
        (serve-round fuel v req fresh xs h enough usable unused true safe)
        (λ (w, out) (holds, result, item, answer).
          rw (client, sends, answer)
            (Returns-bind _ _ (display req w.res) _ (display-Shows req xs w.res result item)
              (λ shown s. (holds, s)))))

-- Where a client sends a request that is no set of a value with no end, to a server whose nodes are a list
-- shorter than the fuel, with an unused address from `malloc`, the nodes are the list behind the request, and
-- the client shows the message of the request's result on that list, "Success" or one of the errors, and behind
-- it, for a get, the item if there is one of the name.
pub talk-shows :
    (fuel : ℕ) (v : Server) (own old : Bytes) (args : List Bytes) (req : MsgReq) (fresh : Ptr)
    (xs : List ItemNv)
    → Holds v.list xs
    → length xs < fuel
    → fresh ≢ null
    → v.list.heap fresh ≡ none
    → prepare own args old ≡ some req
    → crashes req xs ≡ false
    → Returns
        (λ (w, shown).
          Holds w.list (round req xs).items
          × ((text : String) × Message (round req xs).result text
              × (shown
                  ≡ printed
                      (some text)
                      (if req.cmd == req_get then lookup req.item.name xs else none))))
        (talk fuel v own args old fresh)
unfolding prepare
talk-shows fuel v own old [] req fresh xs h enough usable unused sends safe = cc
talk-shows fuel v own old (word ∷ []) req fresh xs h enough usable unused sends safe = cc
talk-shows fuel v own old (word ∷ name ∷ args) req fresh xs h enough usable unused sends safe =
    talk-long fuel v own old word name args req fresh xs h enough usable unused sends safe
