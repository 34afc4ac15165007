-- ===== src/NameStore/Round.antt =====
-- One request to the server of src/imp/59-04-server.c, over a plain list of items.
use tlpiexer.Prelude.{
  ℕ, ◌≤◌, ◌+◌, ◌≡◌, refl, ◌∙◌, Bool, true, false, Option, none, some, List, [], ◌∷◌, ◌==◌,
  if◌then◌else◌, arith, length, Bool-cases, inl, inr, Option-cases,
}
use tlpiexer.CText.{Bytes}
use tlpiexer.NameStore.{ItemNv, same_name, same_own}
use tlpiexer.NameStore.Spec.{
  Reply, lookup, replace, erase, add, get, update, delete, overruns, stored, add-none, add-some,
  update-none, update-own, update-perm, delete-none, delete-own, delete-perm,
}
use tlpiexer.NameStore.Names.{
  SameText, Distinct, Distinct-erase, Distinct-replace, lookup-cong, lookup-text, lookup-erase_ne,
  lookup-replace_ne, same_name-text,
}
use tlpiexer.NameStore.Server.{MsgReq, req_add, req_get, req_set, req_del, res_unkow}

-- The result that the response carries, the item that it carries if one was asked for and found,
-- and the list behind the request.
pub record Round : Type 0 where
  pub result : ℕ
  pub answer : Option ItemNv
  pub items : List ItemNv

abbrev pub of_reply : Reply → Round
of_reply r = record { result = r.errno; answer = none; items = r.items }

unfoldable pub round : MsgReq → List ItemNv → Round
round req xs =
    if req.cmd == req_add
    then of_reply (add req.item 0 xs)
    else if req.cmd == req_get
    then record { result = (get req.item 0 xs).2; answer = lookup req.item.name xs; items = xs }
    else if req.cmd == req_set
    then of_reply (update req.item 0 xs)
    else if req.cmd == req_del
    then of_reply (delete req.item 0 xs)
    else record { result = res_unkow; answer = none; items = xs }

-- A set request that copies a value with no end.
unfoldable pub crashes : MsgReq → List ItemNv → Bool
crashes req xs = if req.cmd == req_set then overruns req.item xs else false

module _ (it : ItemNv) (xs : List ItemNv) (k : Bytes) (x : ItemNv) (there : lookup k xs ≡ some x)
    (other : same_own it.own x ≡ false) where
  -- The item under `k` is not the one that an owner's change was about.
  not_same :
      {y : ItemNv} → lookup it.name xs ≡ some y → same_own it.own y ≡ true → ¬ (SameText k it.name)
  not_same got own e = cc (lookup-cong k it.name xs e, there, got, own, other)

  add-keeps : lookup k (add it 0 xs).items ≡ some x
  unfolding lookup
  add-keeps = elim (Option-cases (lookup it.name xs)) [
    | inl gone ↦ rw (add-none it 0 xs gone) (elim (Bool-cases (same_name k it)) [
      | inl hit ↦ cc (lookup-cong it.name k xs (same_name-text k it hit), there, gone)
      | inr miss ↦ rw miss there
    ])
    | inr (y, got) ↦ rw (add-some it 0 xs y got) there
  ]

  update-keeps : lookup k (update it 0 xs).items ≡ some x
  update-keeps = elim (Option-cases (lookup it.name xs)) [
    | inl gone ↦ rw (update-none it 0 xs gone) there
    | inr (y, got) ↦ elim (Bool-cases (same_own it.own y)) [
      | inl own ↦ rw (update-own it 0 xs y got own) (
          lookup-replace_ne k it.name (stored y it) xs (stored-text y got) (not_same got own)
          ∙ there)
      | inr no_own ↦ rw (update-perm it 0 xs y got no_own) there
    ]
  ]
    where
      stored-text : (y : ItemNv) → lookup it.name xs ≡ some y → SameText (stored y it).name it.name
      stored-text y got = unfold stored in lookup-text it.name xs got

  delete-keeps : lookup k (delete it 0 xs).items ≡ some x
  delete-keeps = elim (Option-cases (lookup it.name xs)) [
    | inl gone ↦ rw (delete-none it 0 xs gone) there
    | inr (y, got) ↦ elim (Bool-cases (same_own it.own y)) [
      | inl own ↦
          rw (delete-own it 0 xs y got own)
            (lookup-erase_ne k it.name xs (not_same got own) ∙ there)
      | inr no_own ↦ rw (delete-perm it 0 xs y got no_own) there
    ]
  ]

-- A request of another owner leaves the item under each name as it was.
pub round-keeps :
    (req : MsgReq) (xs : List ItemNv) (k : Bytes) (x : ItemNv)
    → lookup k xs ≡ some x
    → same_own req.item.own x ≡ false
    → lookup k (round req xs).items ≡ some x
unfolding round
round-keeps req xs k x there other = ground (
  arith,
  add-keeps req.item xs k x there other,
  update-keeps req.item xs k x there other,
  delete-keeps req.item xs k x there other,
)

length-replace : (k : Bytes) (y : ItemNv) (xs : List ItemNv) → length (replace k y xs) ≡ length xs
unfolding replace
length-replace k y [] = refl
length-replace k y (x ∷ xs) = ground (arith, length-replace k y xs)

length-erase : (k : Bytes) (xs : List ItemNv) → length (erase k xs) ≤ length xs
unfolding erase
length-erase k [] = omega arith
length-erase k (x ∷ xs) = ground (arith, length-erase k xs)

module _ (it : ItemNv) (xs : List ItemNv) (d : Distinct xs) where
  add-Distinct : Distinct (add it 0 xs).items × (length (add it 0 xs).items ≤ length xs + 1)
  add-Distinct = elim (Option-cases (lookup it.name xs)) [
    | inl gone ↦ rw (add-none it 0 xs gone) ((gone, d), omega arith)
    | inr (y, got) ↦ rw (add-some it 0 xs y got) (d, omega arith)
  ]

  update-Distinct :
      Distinct (update it 0 xs).items × (length (update it 0 xs).items ≤ length xs + 1)
  unfolding stored
  update-Distinct = elim (Option-cases (lookup it.name xs)) [
    | inl gone ↦ rw (update-none it 0 xs gone) (d, omega arith)
    | inr (y, got) ↦ elim (Bool-cases (same_own it.own y)) [
      | inl own ↦ rw (update-own it 0 xs y got own) (
        Distinct-replace it.name (stored y it) xs (lookup-text it.name xs got) d,
        omega (arith, length-replace it.name (stored y it) xs),
      )
      | inr no_own ↦ rw (update-perm it 0 xs y got no_own) (d, omega arith)
    ]
  ]

  delete-Distinct :
      Distinct (delete it 0 xs).items × (length (delete it 0 xs).items ≤ length xs + 1)
  delete-Distinct = elim (Option-cases (lookup it.name xs)) [
    | inl gone ↦ rw (delete-none it 0 xs gone) (d, omega arith)
    | inr (y, got) ↦ elim (Bool-cases (same_own it.own y)) [
      | inl own ↦
          rw (delete-own it 0 xs y got own)
            (Distinct-erase it.name xs d, omega (arith, length-erase it.name xs))
      | inr no_own ↦ rw (delete-perm it 0 xs y got no_own) (d, omega arith)
    ]
  ]

-- A request keeps the names distinct, and adds one item at most.
pub round-Distinct :
    (req : MsgReq) (xs : List ItemNv)
    → Distinct xs
    → Distinct (round req xs).items × (length (round req xs).items ≤ length xs + 1)
unfolding round
round-Distinct req xs d = elim (Bool-cases (req.cmd == req_add)) [
  | inl h ↦ rw h (add-Distinct req.item xs d)
  | inr h ↦ elim (Bool-cases (req.cmd == req_get)) [
    | inl h' ↦ rw (h, h') (d, omega arith)
    | inr h' ↦ elim (Bool-cases (req.cmd == req_set)) [
      | inl h'' ↦ rw (h, h', h'') (update-Distinct req.item xs d)
      | inr h'' ↦ elim (Bool-cases (req.cmd == req_del)) [
        | inl h''' ↦ rw (h, h', h'', h''') (delete-Distinct req.item xs d)
        | inr h''' ↦ rw (h, h', h'', h''') (d, omega arith)
      ]
    ]
  ]
]
