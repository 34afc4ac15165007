-- ===== src/NameStore/Server.antt =====
-- The server of src/imp/59-04-server.c, with the messages of include/tlpiexer/59-04.h: one round of
-- its loop, and the states that rounds lead to.
use tlpiexer.Prelude.{ℕ, Bool, Option, none, some, ok, ◌==◌, if◌then◌else◌, ◌>>=◌, Run}
use tlpiexer.DList.{Ptr}
use tlpiexer.NameStore.{ItemNv, Store, ll_add, ll_get, ll_set, ll_del}

abbrev pub req_add : ℕ
req_add = 1

abbrev pub req_get : ℕ
req_get = 2

abbrev pub req_set : ℕ
req_set = 3

abbrev pub req_del : ℕ
req_del = 4

abbrev pub res_ok : ℕ
res_ok = 0

abbrev pub res_unkow : ℕ
res_unkow = 5

-- `struct msg_req` and `struct msg_res`
pub record MsgReq : Type 0 where
  pub cmd : ℕ
  pub item : ItemNv

pub record MsgRes : Type 0 where
  pub result : ℕ
  pub item : ItemNv

-- The locals of `main` that live across its rounds: the list, and the response that is sent last.
pub record Server : Type 0 where
  pub list : Store
  pub res : MsgRes

-- What one round meets: `accept` fails, the request comes short, or a request is read; then
-- `fresh` is what `malloc` would return, and `sent` whether all of the response is written.
pub data Conn : Type 0 where
  refused : Conn
  short : Conn
  request : (req : MsgReq) (fresh : Ptr) (sent : Bool) → Conn

-- The choice of the command, with `lerrno` set to 0 before it.
unfoldable pub dispatch : ℕ → Server → MsgReq → Ptr → Run Server
dispatch fuel v req fresh =
    let s = record (v.list) { lerrno = 0 } in
    if req.cmd == req_add
    then (ll_add fuel fresh s req.item >>= λ (_, s'). ok (record v { list = s' }))
    else if req.cmd == req_get
    then (ll_get fuel s (record (v.res.item) { name = req.item.name }) >>= λ (_, it, s').
        ok (record { list = s'; res = record (v.res) { item = it } }))
    else if req.cmd == req_set
    then (ll_set fuel s req.item >>= λ (_, s'). ok (record v { list = s' }))
    else if req.cmd == req_del
    then (ll_del fuel s req.item >>= λ (_, s'). ok (record v { list = s' }))
    else ok (record v { list = record s { lerrno = res_unkow } })

-- `res.result` from `lerrno`
unfoldable pub respond : Server → Server
respond v = record v {
  res = record (v.res) { result = if v.list.lerrno == 0 then res_ok else v.list.lerrno };
}

-- One round of the loop of `main`: the new state, and the response if it reaches the client.
unfoldable pub serve : ℕ → Server → Conn → Run (Server × Option MsgRes)
serve fuel v refused = ok (v, none)
serve fuel v short = ok (v, none)
serve fuel v (request req fresh sent) = dispatch fuel v req fresh >>= λ v'.
    let w = respond v' in ok (w, if sent then some w.res else none)
