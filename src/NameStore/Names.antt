-- ===== src/NameStore/Names.antt =====
-- Lookups by name behind each change of the list, over names as C strings.
use tlpiexer.Prelude.{
  ◌≡◌, refl, sym, subst, ◌∙◌, true, none, some, List, [], ◌∷◌, arith, Bool-cases, inl, inr,
}
use tlpiexer.CText.{Bytes, c_str, same_str_iff}
use tlpiexer.NameStore.{ItemNv, same_name, ll_name_len}
use tlpiexer.NameStore.Spec.{lookup, replace, erase}

abbrev pub SameText : Bytes → Bytes → Type 0
SameText a b = c_str ll_name_len a ≡ c_str ll_name_len b

pub same_name-text : (k : Bytes) (x : ItemNv) → same_name k x ≡ true → SameText x.name k
unfolding same_name
same_name-text k x h = (same_str_iff ll_name_len x.name k).0 h

pub text-same_name : (k : Bytes) (x : ItemNv) → SameText x.name k → same_name k x ≡ true
unfolding same_name
text-same_name k x h = (same_str_iff ll_name_len x.name k).1 h

pub same_name-cong :
    (a b : Bytes) (x y : ItemNv)
    → SameText a b
    → SameText x.name y.name
    → same_name a x ≡ same_name b y
same_name-cong a b x y e f = elim (Bool-cases (same_name a x)) [
  | inl h ↦ h ∙ sym (text-same_name b y (sym f ∙ same_name-text a x h ∙ e))
  | inr h ↦ elim (Bool-cases (same_name b y)) [
    | inl h' ↦ cc (text-same_name a x (f ∙ same_name-text b y h' ∙ sym e))
    | inr h' ↦ h ∙ sym h'
  ]
]

pub lookup-cong : (a b : Bytes) (xs : List ItemNv) → SameText a b → lookup a xs ≡ lookup b xs
unfolding lookup
lookup-cong a b [] e = refl
lookup-cong a b (x ∷ xs) e = ground (arith, same_name-cong a b x x e refl, lookup-cong a b xs e)

-- What is found under a name has that name.
pub lookup-text :
    (k : Bytes) (xs : List ItemNv) {x : ItemNv} → lookup k xs ≡ some x → SameText x.name k
unfolding lookup
lookup-text k [] h = cc
lookup-text k (z ∷ xs) {x} h = elim (Bool-cases (same_name k z)) [
  | inl hit ↦
      let e : z ≡ x = ground arith in subst (λ t. SameText t.name k) e (same_name-text k z hit)
  | inr miss ↦ lookup-text k xs {x = x} (ground arith)
]

-- Another name is found as before.
pub lookup-erase_ne :
    (k j : Bytes) (xs : List ItemNv) → ¬ (SameText k j) → lookup k (erase j xs) ≡ lookup k xs
unfolding lookup erase
lookup-erase_ne k j [] ne = refl
lookup-erase_ne k j (x ∷ xs) ne = elim (Bool-cases (same_name j x)) [
  | inl hit ↦ elim (Bool-cases (same_name k x)) [
    | inl hit' ↦ absurd (ne (sym (same_name-text k x hit') ∙ same_name-text j x hit))
    | inr miss ↦ rw (hit, miss)
  ]
  | inr miss ↦ ground (arith, lookup-erase_ne k j xs ne)
]

pub lookup-replace_ne :
    (k j : Bytes) (y : ItemNv) (xs : List ItemNv)
    → SameText y.name j
    → ¬ (SameText k j)
    → lookup k (replace j y xs) ≡ lookup k xs
unfolding lookup replace
lookup-replace_ne k j y [] named ne = refl
lookup-replace_ne k j y (x ∷ xs) named ne = elim (Bool-cases (same_name j x)) [
  | inl hit ↦
      let e = same_name-cong k k x y refl (same_name-text j x hit ∙ sym named) in
      elim (Bool-cases (same_name k x)) [
        | inl hit' ↦ absurd (ne (sym (same_name-text k x hit') ∙ same_name-text j x hit))
        | inr miss ↦ rw (hit, ← e, miss)
      ]
  | inr miss ↦ ground (arith, lookup-replace_ne k j y xs named ne)
]

pub lookup-replace_self :
    (k : Bytes) (y : ItemNv) (xs : List ItemNv) {x : ItemNv}
    → SameText y.name k
    → lookup k xs ≡ some x
    → lookup k (replace k y xs) ≡ some y
unfolding lookup replace
lookup-replace_self k y [] named h = cc
lookup-replace_self k y (z ∷ xs) {x} named h =
    ground (arith, text-same_name k y named, lookup-replace_self k y xs {x = x} named)

-- No two items have one name.
abbrev pub Distinct : List ItemNv → Type 0
Distinct [] = Unit {0}
Distinct (x ∷ xs) = (lookup x.name xs ≡ none) × Distinct xs

lookup-erase-none :
    (k j : Bytes) (xs : List ItemNv) → lookup k xs ≡ none → lookup k (erase j xs) ≡ none
unfolding lookup erase
lookup-erase-none k j [] h = refl
lookup-erase-none k j (x ∷ xs) h = ground (arith, lookup-erase-none k j xs)

pub Distinct-erase : (j : Bytes) (xs : List ItemNv) → Distinct xs → Distinct (erase j xs)
unfolding erase
Distinct-erase j [] d = tt
Distinct-erase j (x ∷ xs) (new, d) = elim (Bool-cases (same_name j x)) [
  | inl hit ↦ rw hit d
  | inr miss ↦ rw miss (lookup-erase-none x.name j xs new, Distinct-erase j xs d)
]

pub lookup-erase_self : (k : Bytes) (xs : List ItemNv) → Distinct xs → lookup k (erase k xs) ≡ none
unfolding lookup erase
lookup-erase_self k [] d = refl
lookup-erase_self k (x ∷ xs) (new, d) = elim (Bool-cases (same_name k x)) [
  | inl hit ↦ rw hit (lookup-cong k x.name xs (sym (same_name-text k x hit)) ∙ new)
  | inr miss ↦ rw (miss, miss) (lookup-erase_self k xs d)
]

lookup-replace-none :
    (k j : Bytes) (y : ItemNv) (xs : List ItemNv)
    → SameText y.name j
    → lookup k xs ≡ none
    → lookup k (replace j y xs) ≡ none
unfolding lookup replace
lookup-replace-none k j y [] named h = refl
lookup-replace-none k j y (x ∷ xs) named h = elim (Bool-cases (same_name j x)) [
  | inl hit ↦ ground (arith, same_name-cong k k x y refl (same_name-text j x hit ∙ sym named))
  | inr miss ↦ ground (arith, lookup-replace-none k j y xs named)
]

pub Distinct-replace :
    (j : Bytes) (y : ItemNv) (xs : List ItemNv)
    → SameText y.name j
    → Distinct xs
    → Distinct (replace j y xs)
unfolding replace
Distinct-replace j y [] named d = tt
Distinct-replace j y (x ∷ xs) named (new, d) = elim (Bool-cases (same_name j x)) [
  | inl hit ↦ rw hit (lookup-cong y.name x.name xs (named ∙ sym (same_name-text j x hit)) ∙ new, d)
  | inr miss ↦
      rw miss (lookup-replace-none x.name j y xs named new, Distinct-replace j y xs named d)
]
