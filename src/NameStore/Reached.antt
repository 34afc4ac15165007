-- ===== src/NameStore/Reached.antt =====
-- The states that `main` of src/imp/59-04-server.c reaches.
use tlpiexer.Prelude.{
  ℕ, suc, zero, ◌<◌, ◌≤◌, ◌≡◌, refl, Option, none, List, [], ok, arith, length, ◌≢◌, subst,
}
use tlpiexer.DList.{null}
use tlpiexer.NameStore.{ItemNv, ll_init}
use tlpiexer.NameStore.Holds.{Holds}
use tlpiexer.NameStore.Names.{Distinct}
use tlpiexer.NameStore.Server.{MsgRes, Server, Conn, refused, short, request, serve}
use tlpiexer.NameStore.Round.{round, round-Distinct}
use tlpiexer.NameStore.Session.{serve-Holds}

-- What `malloc` is asked for in a round is there, at an unused address.
abbrev pub HasMemory : Server → Conn → Type 0
HasMemory v (request req fresh sent) = (fresh ≢ null) × (v.list.heap fresh ≡ none)
HasMemory v _ = Unit {0}

-- The states after `n` rounds of `main`, from whatever its locals hold before `ll_init`.
pub data Reach (fuel : ℕ) : ℕ → Server → Type 0 where
  start : {w : Server} (v : Server) → w ≡ record v { list = (ll_init v.list).1 } → Reach fuel zero w
  next :
      {n : ℕ} {v w : Server} {out : Option MsgRes} (c : Conn)
      → Reach fuel n v
      → HasMemory v c
      → serve fuel v c ≡ ok (w, out)
      → Reach fuel (suc n) w

abbrev pub Sound : ℕ → Server → Type 0
Sound n v = (xs : List ItemNv) × Holds v.list xs × Distinct xs × (length xs ≤ n)

serve-Sound :
    (fuel n : ℕ) (v : Server) (c : Conn) {w : Server} {out : Option MsgRes}
    → Sound n v
    → n < fuel
    → HasMemory v c
    → serve fuel v c ≡ ok (w, out)
    → Sound (suc n) w
unfolding serve
serve-Sound fuel n v refused {w} (xs, h, d, small) enough _ e =
    let same : v ≡ w = ground arith in subst (Sound (suc n)) same (xs, h, d, omega arith)
serve-Sound fuel n v short {w} (xs, h, d, small) enough _ e =
    let same : v ≡ w = ground arith in subst (Sound (suc n)) same (xs, h, d, omega arith)
serve-Sound fuel n v (request req fresh sent) (xs, h, d, small) enough (usable, unused) e = (
  (round req xs).items,
  serve-Holds fuel v req fresh sent xs h (omega arith) usable unused e,
  (round-Distinct req xs d).0,
  omega (arith, (round-Distinct req xs d).1),
)

-- In every state after `n` rounds, `n` below the fuel and with unused addresses from `malloc`,
-- the nodes are a list linked both ways, of at most `n` items with distinct names.
pub Reach-Sound : (fuel : ℕ) {n : ℕ} {v : Server} → Reach fuel n v → n < fuel → Sound n v
unfolding ll_init
Reach-Sound fuel (start v e) enough =
    rw e ([], record { cells = []; chain = tt; start = refl; same = refl }, tt, omega arith)
Reach-Sound fuel (next {n} {v} c r m e) enough =
    serve-Sound fuel n v c (Reach-Sound fuel r (omega arith)) (omega arith) m e
