-- ===== src/NameStore/Talk.antt =====
-- Conversations of the client of src/imp/59-04-client.c with the server of src/imp/59-04-server.c.
mod Tests
use Prim.Native.String.{String}
use tlpiexer.Prelude.{
  ℕ, zero, suc, ◌+◌, ◌<◌, ◌≡◌, ◌≢◌, refl, true, false, Option, none, some, List, [], ◌∷◌, ◌++◌,
  ◌==◌, arith, length, Run, ok, Returns, Returns-bind, Returns-map, subst, ap, ◌∙◌, ◌>>=◌, take,
  take-all, if◌then◌else◌,
}
use tlpiexer.CText.{Bytes, NoNul, c_str, same_str, same_str_iff, strncpy, strcmp_eq}
use tlpiexer.DList.{Ptr, null}
use tlpiexer.NameStore.{ItemNv, ll_name_len, ll_value_len, ll_usrname_len, same_name}
use tlpiexer.NameStore.Spec.{lookup, get-some, add-none, add, get, update, delete}
use tlpiexer.NameStore.Holds.{Holds, Holds-errno}
use tlpiexer.NameStore.Refine.{ll_get-refines}
use tlpiexer.NameStore.Server.{
  MsgReq, MsgRes, Server, request, serve, dispatch, respond, req_add, req_get, res_ok,
}
use tlpiexer.NameStore.Round.{round, crashes}
use tlpiexer.NameStore.Session.{serve-round}
use tlpiexer.NameStore.Client.{
  add_word, get_word, command, prepare, lstr_err, display, client, talk, printed, Outcome,
}

-- The string in an array that a shorter string was copied to.
c_str-strncpy : (n : ℕ) (s : Bytes) → NoNul s → length s < n → c_str n (strncpy n s) ≡ s
unfolding c_str strncpy
c_str-strncpy zero s clean h = absurd (omega arith)
c_str-strncpy (suc n) [] clean h = refl
c_str-strncpy (suc n) (c ∷ s) (nc, clean) h =
    let e : (c == 0) ≡ false = ground arith in
    rw (e, c_str, e, c_str-strncpy n s clean (omega arith))

-- The item that a client sends.
abbrev pub sent : Bytes → Bytes → Bytes → ItemNv
sent name value own = record {
  name = strncpy ll_name_len name;
  value = strncpy ll_value_len value;
  own = strncpy ll_usrname_len own;
}

-- A `get` that finds an item.
serve-get :
    (fuel : ℕ) (v : Server) (it x : ItemNv) (fresh : Ptr) (xs : List ItemNv)
    → Holds v.list xs
    → length xs < fuel
    → lookup it.name xs ≡ some x
    → (w : Server) × (serve fuel v (request (record { cmd = req_get; item = it }) fresh true)
        ≡ ok (w, some (record { result = 0; item = x })))
unfolding serve dispatch respond
serve-get fuel v it x fresh xs h enough got =
    let asked : ItemNv = record (v.res.item) { name = it.name } in
    let cleared = record (v.list) { lerrno = 0 } in
    (
      record { list = record (v.list) { lerrno = 0 }; res = record { result = 0; item = x } },
      rw (
        ll_get-refines fuel cleared asked xs (Holds-errno v.list xs 0 h) enough,
        get-some asked 0 xs x got,
      ),
    )

-- A `get` that finds an item: what the client shows.
talk-get :
    (fuel : ℕ) (v : Server) (own name old : Bytes) (x : ItemNv) (fresh : Ptr) (xs : List ItemNv)
    → Holds v.list xs
    → length xs < fuel
    → lookup (strncpy ll_name_len name) xs ≡ some x
    → (w : Server) × (talk fuel v own (get_word ∷ name ∷ []) old fresh
        ≡ ok (w, printed (some "Success") (some x)))
unfolding talk client prepare command strcmp_eq display lstr_err
talk-get fuel v own name old x fresh xs h enough got =
    let it : ItemNv = record {
      name = strncpy ll_name_len name;
      value = old;
      own = strncpy ll_usrname_len own;
    } in
    let (w, e) = serve-get fuel v it x fresh xs h enough got in (w, rw e)

add-crashes : (req : MsgReq) (xs : List ItemNv) → req.cmd ≡ req_add → crashes req xs ≡ false
unfolding crashes
add-crashes req xs e = rw e

-- An `add` of a new name.
talk-add :
    (fuel : ℕ) (v : Server) (own name value old : Bytes) (fresh : Ptr) (xs : List ItemNv)
    → Holds v.list xs
    → length xs < fuel
    → fresh ≢ null
    → v.list.heap fresh ≡ none
    → lookup (strncpy ll_name_len name) xs ≡ none
    → Returns
        (λ (w, shown).
          Holds w.list (sent name value own ∷ xs) × (shown ≡ printed (some "Success") none))
        (talk fuel v own (add_word ∷ name ∷ value ∷ []) old fresh)
unfolding talk client prepare command strcmp_eq display lstr_err round
talk-add fuel v own name value old fresh xs h enough usable unused free =
    let it = sent name value own in
    let req : MsgReq = record { cmd = req_add; item = it } in
    let added = add-none it 0 xs free in
    Returns-bind _ _ (serve fuel v (request req fresh true)) _
      (serve-round fuel v req fresh xs h enough usable unused true (add-crashes req xs refl))
      (λ (w, out) (holds, result, _, answer).
        let ok' : w.res.result ≡ 0 = result ∙ ap (λ r. r.errno) added in
        rw (answer, ok') (subst (λ r. Holds w.list r.items) added holds, refl))

-- What one client adds, any client gets: on nodes that are a list without the name, shorter than the
-- fuel by one, with an unused address from `malloc`, `add` shows "Success", and a `get` of the name behind
-- it, by whatever owner, shows "Success" and an item whose arrays hold the strings that were added, if
-- they are shorter than their arrays.
pub talk-add-get :
    (fuel : ℕ) (v : Server) (own other name value old old' : Bytes) (fresh fresh' : Ptr)
    (xs : List ItemNv)
    → Holds v.list xs
    → length xs + 1 < fuel
    → fresh ≢ null
    → v.list.heap fresh ≡ none
    → lookup (strncpy ll_name_len name) xs ≡ none
    → (NoNul name × (length name < ll_name_len))
    → (NoNul value × (length value < ll_value_len))
    → (NoNul own × (length own < ll_usrname_len))
    → Returns
        (λ (w, shown).
          (shown ≡ printed (some "Success") none)
          × ((w' : Server) × (it : ItemNv) × (talk fuel w other (get_word ∷ name ∷ []) old' fresh'
                ≡ ok (w', printed (some "Success") (some it)))
              × (c_str ll_name_len it.name ≡ name)
              × (c_str ll_value_len it.value ≡ value)
              × (c_str ll_usrname_len it.own ≡ own)))
        (talk fuel v own (add_word ∷ name ∷ value ∷ []) old fresh)
unfolding lookup same_name
talk-add-get fuel v own other name value old old' fresh fresh' xs h enough usable unused free n x
      o =
    let it = sent name value own in
    let key = strncpy ll_name_len name in
    let hit : same_name key it ≡ true = (same_str_iff ll_name_len key key).1 refl in
    Returns-map _ _ (talk fuel v own (add_word ∷ name ∷ value ∷ []) old fresh)
      (λ (w, shown) (holds, ok').
        let (w', e) =
          talk-get fuel w other name old' it fresh' (it ∷ xs) holds (omega arith) (rw hit) in
        (
          ok',
          (
            w',
            it,
            e,
            c_str-strncpy ll_name_len name n.0 n.1,
            c_str-strncpy ll_value_len value x.0 x.1,
            c_str-strncpy ll_usrname_len own o.0 o.1,
          ),
        ))
      (talk-add fuel v own name value old fresh xs h (omega arith) usable unused free)
