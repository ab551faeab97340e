-- ===== src/Ops/Promotion/Atomic.antt =====
-- The promotion of the shadow schemas is all or nothing (src/penge/ops/net_worth_refresh.py).
use penge.Prelude.{
  ◌≡◌, ◌∙◌, ap, sym, subst, inl, inr, refl, arith, String, true, none, some, ok, if◌then◌else◌,
  Bool-cases, Option-cases,
}
use penge.Prelude.Eq.{string_eq}
use penge.Ops.Promotion.{
  Database, refresh_staging, refresh_marts, live_staging, live_marts, previous_staging,
  previous_marts, drop_schema, rename_schema, has, drop_previous_schemas, retire, swap, promote,
}

module _ {A : Type 0} where
  -- What `a` holds, under the name `b`.
  abbrev moved : String → String → Database A → Database A
  moved a b db = λ n. if string_eq.beq n b then db a else if string_eq.beq n a then none else db n

  rename-moved :
      (a b : String) (db : Database A) (x : A)
      → db a ≡ some x
      → db b ≡ none
      → rename_schema a b db ≡ ok (moved a b db)
  unfolding rename_schema
  rename-moved a b db x h k =
      rw (rename_schema, h, k)
        (ap
          (λ c. ok (λ n. if string_eq.beq n b then c else if string_eq.beq n a then none else db n))
          (sym h))

  moved-none :
      (a b : String) (db : Database A)
      → db a ≡ none
      → db b ≡ none
      → (n : String) → db n ≡ moved a b db n
  moved-none a b db h k n = elim (Bool-cases (string_eq.beq n b)) [
    | inl e ↦ ap db ((string_eq.beq_iff n b).0 e) ∙ k ∙ sym h ∙ rw e refl
    | inr e ↦ ground (arith, string_eq.beq_iff n a)
  ]

  retire-moved :
      (a b : String) (db : Database A) → db b ≡ none → retire (has db a) a b db ≡ ok (moved a b db)
  unfolding retire
  retire-moved a b db k = elim (Option-cases (db a)) [
    | inl h ↦ rw (has, h) (ap ok (λ i n. moved-none a b db h k n i))
    | inr (x, h) ↦ rw (has, h) (rename-moved a b db x h k)
  ]

  abbrev moved_all : Database A → Database A
  moved_all db = moved refresh_marts live_marts (
      moved refresh_staging live_staging (
        moved live_marts previous_marts
          (moved live_staging previous_staging (drop_previous_schemas db))))

  -- The database after a promotion: the shadows stand under the live names, the shadow and the
  -- previous names are gone, and every other schema is as it was.
  abbrev pub promoted : Database A → Database A
  promoted db name =
      if string_eq.beq name live_staging
      then db refresh_staging
      else if string_eq.beq name live_marts
      then db refresh_marts
      else if string_eq.beq name refresh_staging
      then none
      else if string_eq.beq name refresh_marts
      then none
      else if string_eq.beq name previous_staging
      then none
      else if string_eq.beq name previous_marts
      then none
      else db name

  promote-moved :
      (db : Database A) (x y : A)
      → db refresh_staging ≡ some x
      → db refresh_marts ≡ some y
      → promote db ≡ ok (drop_previous_schemas (moved_all db))
  unfolding promote swap drop_previous_schemas drop_schema
  promote-moved db x y h k =
      let db0 : Database A = drop_previous_schemas db in
      let db1 : Database A = moved live_staging previous_staging db0 in
      let db2 : Database A = moved live_marts previous_marts db1 in
      let db3 : Database A = moved refresh_staging live_staging db2 in
      let hs : has db refresh_staging ≡ true = rw (has, h) refl in
      let hm : has db refresh_marts ≡ true = rw (has, k) refl in
      let r1 : retire (has db live_staging) live_staging previous_staging db0 ≡ ok db1 =
        retire-moved live_staging previous_staging db0 refl in
      let r2 : retire (has db live_marts) live_marts previous_marts db1 ≡ ok db2 =
        retire-moved live_marts previous_marts db1 refl in
      let r3 : rename_schema refresh_staging live_staging db2 ≡ ok db3 =
        rename-moved refresh_staging live_staging db2 x h refl in
      let r4 : rename_schema refresh_marts live_marts db3
          ≡ ok (moved refresh_marts live_marts db3) =
        rename-moved refresh_marts live_marts db3 y k refl in
      rw (promote, hs, hm, swap, r1, r2, r3, r4) refl

  at_name :
      (db : Database A) (literal name : String)
      → name ≡ literal
      → drop_previous_schemas (moved_all db) literal ≡ promoted db literal
      → drop_previous_schemas (moved_all db) name ≡ promoted db name
  at_name db literal name e p =
      subst (λ n. drop_previous_schemas (moved_all db) n ≡ promoted db n) (sym e) p

  moved_all-promoted :
      (db : Database A) (name : String)
      → drop_previous_schemas (moved_all db) name ≡ promoted db name
  unfolding drop_previous_schemas drop_schema
  moved_all-promoted db name = elim (Bool-cases (string_eq.beq name live_staging)) [
    | inl e ↦ at_name db live_staging name ((string_eq.beq_iff name live_staging).0 e) refl
    | inr e0 ↦ elim (Bool-cases (string_eq.beq name live_marts)) [
      | inl e ↦ at_name db live_marts name ((string_eq.beq_iff name live_marts).0 e) refl
      | inr e1 ↦ elim (Bool-cases (string_eq.beq name refresh_staging)) [
        | inl e ↦
            at_name db refresh_staging name ((string_eq.beq_iff name refresh_staging).0 e) refl
        | inr e2 ↦ elim (Bool-cases (string_eq.beq name refresh_marts)) [
          | inl e ↦ at_name db refresh_marts name ((string_eq.beq_iff name refresh_marts).0 e) refl
          | inr e3 ↦ elim (Bool-cases (string_eq.beq name previous_staging)) [
            | inl e ↦
                at_name db previous_staging name ((string_eq.beq_iff name previous_staging).0 e)
                  refl
            | inr e4 ↦ elim (Bool-cases (string_eq.beq name previous_marts)) [
              | inl e ↦
                  at_name db previous_marts name ((string_eq.beq_iff name previous_marts).0 e) refl
              | inr e5 ↦ rw (e0, e1, e2, e3, e4, e5) refl
            ]
          ]
        ]
      ]
    ]
  ]

  -- With both shadow schemas there, and whichever of the live and previous ones are, promotion
  -- succeeds, and each name then stands for what it should.
  pub promote-promoted :
      (db : Database A) (x y : A)
      → db refresh_staging ≡ some x
      → db refresh_marts ≡ some y
      → (after : Database A) × (promote db ≡ ok after)
        × ((name : String) → after name ≡ promoted db name)
  promote-promoted db x y h k =
      (drop_previous_schemas (moved_all db), promote-moved db x y h k, moved_all-promoted db)
