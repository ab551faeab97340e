-- ===== src/Api/Connections/Edges.antt =====
-- The life of a connection: src/penge/api/connections/service.py over store.py.
use penge.Prelude.{
  ℕ, ◌<◌, ◌≡◌, ◌≢◌, ◌∙◌, ◌⊎◌, inl, inr, refl, sym, ap, subst, arith, String, Bool, true, false,
  ◌==◌, ==_iff, Bool-cases, Option-cases, some-injective, All, All-mono, [], ◌∷◌, ◌++◌, none, some,
  if◌then◌else◌,
}
use penge.Prelude.Eq.{nat_eq, string_eq}
use penge.Prelude.Dict.{
  lookup-append, Dict, lookup, insert, lookup-insert_ne, lookup-insert_self, IsDistinct,
  insert-IsDistinct,
}
use penge.Api.Connections.{
  Status, linking, authorized, expired, failed, ConnectionRecord, Table, create_linking, select,
  put,
}

-- The moves of a row's status: a consent is linked or fails, and a linked one expires and comes back.
pub data Edge : Status → Status → Type 0 where
  same_status : (s : Status) → Edge s s
  linked : Edge linking authorized
  link_failed : Edge linking failed
  lapsed : (s : Status) → s ≢ linking → s ≢ failed → Edge s expired
  renewed : (s : Status) → s ≢ linking → s ≢ failed → Edge s authorized

-- A row awaits its consent, has a session, or has failed without one.
pub data IsCoherent (c : ConnectionRecord) : Type 0 where
  awaits :
      (state : String)
      → c.status ≡ linking
      → c.state ≡ some state
      → c.session_id ≡ none
      → IsCoherent c
  linked_row :
      (session_id : String)
      → (c.status ≢ linking)
      → (c.status ≢ failed)
      → c.state ≡ none
      → c.session_id ≡ some session_id
      → IsCoherent c
  gave_up : c.status ≡ failed → c.session_id ≡ none → IsCoherent c

-- Every row is coherent, ids are distinct, and below the next one.
pub record IsTable (t : Table) : Type 0 where
  pub coherent : (k : ℕ) (c : ConnectionRecord) → lookup k t.connections ≡ some c → IsCoherent c
  pub distinct : IsDistinct t.connections
  pub below : (k : ℕ) (c : ConnectionRecord) → lookup k t.connections ≡ some c → k < t.next_id

-- A call has led from a table to another: no row is lost, and each has moved along an edge.
pub record IsMove (t u : Table) : Type 0 where
  pub table : IsTable u
  pub edges :
      (k : ℕ) (c : ConnectionRecord)
      → lookup k t.connections ≡ some c
      → (d : ConnectionRecord) × (lookup k u.connections ≡ some d) × Edge c.status d.status

pub stays : (t : Table) → IsTable t → IsMove t t
stays t h = record { table = h; edges = λ k c found. (c, found, same_status c.status) }

apart : (j k : ℕ) → (j == k) ≡ false → j ≢ k
apart j k h e = cc (sym ((==_iff j k).1 e) ∙ h)

module _ (t : Table) (key : ℕ) (c d : ConnectionRecord) (h : IsTable t)
    (found : lookup key t.connections ≡ some c) where
  -- A row that is there is written.
  pub put-IsMove : IsCoherent d → Edge c.status d.status → IsMove t (put key d t)
  unfolding put
  put-IsMove coherent edge = record {
    table = record {
      coherent = λ k x at_k. elim (Bool-cases (k == key)) [
        | inl here ↦
            subst IsCoherent
              (some-injective _ _ (
                sym (lookup-insert_self key d t.connections)
                ∙ ap (λ j. lookup j (insert key d t.connections)) (sym ((==_iff k key).0 here))
                ∙ at_k))
              coherent
        | inr there ↦
            h.coherent k x (sym (lookup-insert_ne k key d t.connections (apart k key there)) ∙ at_k)
      ];
      distinct = insert-IsDistinct key d t.connections h.distinct;
      below = λ k x at_k. elim (Bool-cases (k == key)) [
        | inl here ↦
            let e : k ≡ key = (==_iff k key).0 here in let old = h.below key c found in omega arith
        | inr there ↦
            h.below k x (sym (lookup-insert_ne k key d t.connections (apart k key there)) ∙ at_k)
      ];
    };
    edges = λ k x at_k. elim (Bool-cases (k == key)) [
      | inl here ↦
          let e : k ≡ key = (==_iff k key).0 here in
          let same : c ≡ x =
            some-injective _ _ (sym found ∙ ap (λ j. lookup j t.connections) (sym e) ∙ at_k) in
          (
            d,
            ap (λ j. lookup j (insert key d t.connections)) e
                ∙ lookup-insert_self key d t.connections,
            subst (λ (y : ConnectionRecord). Edge y.status d.status) same edge,
          )
      | inr there ↦ (
        x,
        lookup-insert_ne k key d t.connections (apart k key there) ∙ at_k,
        same_status x.status,
      )
    ];
  }

-- A new entry does not hide an old one.
later :
    (k : ℕ) (v : ConnectionRecord) (d : Dict ℕ ConnectionRecord)
    → lookup k d ≡ none
    → (j : ℕ) (w : ConnectionRecord) → lookup j d ≡ some w
    → lookup j ((k, v) ∷ d) ≡ some w
later k v d new j w found = elim (Bool-cases (j == k)) [
  | inl here ↦ absurd (cc (sym new ∙ ap (λ i. lookup i d) (sym ((==_iff j k).0 here)) ∙ found))
  | inr there ↦ rw (lookup, there) found
]

pub select-All :
    (p : ConnectionRecord → Bool) (d : Dict ℕ ConnectionRecord)
    → IsDistinct d
    → All (λ (x : ℕ × ConnectionRecord). (lookup x.0 d ≡ some x.1) × (p x.1 ≡ true)) (select p d)
select-All p [] h = tt
select-All p ((k, v) ∷ d) h =
    let rest : All
        (λ (x : ℕ × ConnectionRecord). (lookup x.0 ((k, v) ∷ d) ≡ some x.1) × (p x.1 ≡ true))
        (select p d) =
      All-mono (select p d) (λ x old. (later k v d h.0 x.0 x.1 old.0, old.1))
        (select-All p d h.1) in
    elim (Bool-cases (p v)) [
      | inl yes_p ↦ rw yes_p ((ground arith, yes_p), rest)
      | inr no_p ↦ rw no_p rest
    ]

next_is_new : (t : Table) → IsTable t → lookup t.next_id t.connections ≡ none
next_is_new t h = elim (Option-cases (lookup t.next_id t.connections)) [
  | inl missing ↦ missing
  | inr (c, found) ↦ let less = h.below t.next_id c found in absurd (omega arith)
]

lookup_append :
    (j : ℕ) (d : Dict ℕ ConnectionRecord) (k : ℕ) (v : ConnectionRecord)
    → lookup j (d ++ (k, v) ∷ [])
      ≡ (elim (lookup j d) [ none ↦ (if j == k then some v else none) | some x ↦ some x ])
lookup_append j [] k v = refl
lookup_append j ((i, w) ∷ d) k v = ground (arith, lookup_append j d k v)

lookup_split :
    (k : ℕ) (v : ConnectionRecord) (d : Dict ℕ ConnectionRecord) (j : ℕ) (x : ConnectionRecord)
    → lookup j (d ++ (k, v) ∷ []) ≡ some x
    → (lookup j d ≡ some x) ⊎ ((j ≡ k) × (v ≡ x))
lookup_split k v d j x e = elim (Option-cases (lookup j d)) [
  | inr (y, found) ↦ inl (found ∙ cc (e, rw found at (lookup_append j d k v)))
  | inl missing ↦ elim (Bool-cases (j == k)) [
    | inl here ↦ inr (
      (==_iff j k).0 here,
      some-injective _ _ (sym (rw (missing, here) at (lookup_append j d k v)) ∙ e),
    )
    | inr there ↦ absurd (cc (e, rw (missing, there) at (lookup_append j d k v)))
  ]
]

append-IsDistinct :
    (k : ℕ) (v : ConnectionRecord) (d : Dict ℕ ConnectionRecord)
    → IsDistinct d
    → lookup k d ≡ none
    → IsDistinct (d ++ (k, v) ∷ [])
append-IsDistinct k v [] h new = (refl, tt)
append-IsDistinct k v ((j, w) ∷ d) h new =
    ground (arith, append-IsDistinct k v d h.1, lookup_append j d k v)

-- The new row is the last.
module _ (t : Table) (c : ConnectionRecord) (h : IsTable t) (coherent : IsCoherent c) where
  pub create_linking-IsMove : IsMove t (create_linking c t).1
  unfolding create_linking
  create_linking-IsMove = record {
    table = record {
      coherent = λ k x at_k. elim (lookup_split t.next_id c t.connections k x at_k) [
        | inl old ↦ h.coherent k x old
        | inr e ↦ subst IsCoherent e.1 coherent
      ];
      distinct = append-IsDistinct t.next_id c t.connections h.distinct (next_is_new t h);
      below = λ k x at_k. elim (lookup_split t.next_id c t.connections k x at_k) [
        | inl old ↦ let less = h.below k x old in omega arith
        | inr e ↦ let same = e.0 in omega arith
      ];
    };
    edges = λ k x at_k.
        (x, lookup-append k t.connections ((t.next_id, c) ∷ []) at_k, same_status x.status);
  }
