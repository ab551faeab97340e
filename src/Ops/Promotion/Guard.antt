-- ===== src/Ops/Promotion/Guard.antt =====
-- What a dbt refresh does to the live schemas, on every way it can end
-- (src/penge/ops/net_worth_refresh.py).
use penge.Prelude.{
  ◌≡◌, ◌⊎◌, ◌∙◌, ap, inl, inr, refl, arith, String, Bool, true, false, ◌||◌, none, ok, err,
  Bool-cases, Option-cases,
}
use penge.Prelude.Eq.{string_eq}
use penge.Ops.Promotion.{
  Database, DbtError, dbt_refresh_error, refresh_staging, refresh_marts, live_staging, live_marts,
  drop_schema, has, drop_shadow_schemas, promote, Ended, transaction, clean_up, Build, refresh,
}
use penge.Ops.Promotion.Atomic.{promote-promoted, promoted}

abbrev pub is_shadow : String → Bool
is_shadow n = string_eq.beq n refresh_staging || string_eq.beq n refresh_marts

module _ {A : Type 0} where
  drop_shadow-other :
      (db : Database A) (n : String) → is_shadow n ≡ false → drop_shadow_schemas db n ≡ db n
  unfolding drop_shadow_schemas drop_schema
  drop_shadow-other db n h = ground arith

  clean_up-other :
      (works : Bool) (e : Ended A) (n : String)
      → is_shadow n ≡ false
      → (clean_up works e).1 n ≡ e.1 n
  clean_up-other true (r, db) n h = drop_shadow-other db n h
  clean_up-other false (r, db) n h = refl

  drop_shadow-none : (db : Database A) (n : String) → db n ≡ none → drop_shadow_schemas db n ≡ none
  unfolding drop_shadow_schemas drop_schema
  drop_shadow-none db n h = ground arith

  clean_up-none :
      (works : Bool) (e : Ended A) (n : String) → e.1 n ≡ none → (clean_up works e).1 n ≡ none
  clean_up-none true (r, db) n h = drop_shadow-none db n h
  clean_up-none false (r, db) n h = h

  clean_up-ending : (works : Bool) (e : Ended A) → (clean_up works e).0 ≡ e.0
  clean_up-ending works (r, db) = refl

  -- A promotion is refused exactly if a shadow schema is missing.
  transaction-cases :
      (db : Database A)
      → (((transaction db (promote db)).0 ≡ ok tt)
          × ((n : String) → (transaction db (promote db)).1 n ≡ promoted db n))
        ⊎ (((transaction db (promote db)).0 ≡ err dbt_refresh_error)
            × ((transaction db (promote db)).1 ≡ db))
  unfolding promote
  transaction-cases db = elim (Option-cases (db refresh_staging)) [
    | inl h ↦ inr (rw (promote, has, h) refl, rw (promote, has, h) refl)
    | inr (x, h) ↦ elim (Option-cases (db refresh_marts)) [
      | inl k ↦ inr (rw (promote, has, h, k) refl, rw (promote, has, h, k) refl)
      | inr (y, k) ↦
          let (after, run, all) = promote-promoted db x y h k in inl (rw run refl, rw run all)
    ]
  ]

  -- A dbt build that, as the `refresh` target is set up, writes to the shadow schemas alone.
  abbrev pub WritesShadowsOnly : Build A → Type 0
  WritesShadowsOnly build =
      (db : Database A) (n : String) → is_shadow n ≡ false → (build db).1 n ≡ db n

  -- If dbt writes to the shadow schemas alone, a refresh that raises, whether dbt failed, a shadow
  -- schema is missing or the database refused the first drop, leaves every schema but the shadows
  -- as it was, the live ones among them.
  pub refused_refresh-keeps_live :
      (build : Build A) (drop_works cleanup_works : Bool) (db : Database A) {e : DbtError}
      → WritesShadowsOnly build
      → (refresh build drop_works cleanup_works db).0 ≡ err e
      → (n : String) → is_shadow n ≡ false
      → (refresh build drop_works cleanup_works db).1 n ≡ db n
  unfolding refresh
  refused_refresh-keeps_live build false c db w h n s = refl
  refused_refresh-keeps_live build true c db {e} w h n s =
      let built : Database A = (build (drop_shadow_schemas db)).1 in
      let same : built n ≡ db n = w (drop_shadow_schemas db) n s ∙ drop_shadow-other db n s in
      elim (Bool-cases (build (drop_shadow_schemas db)).0) [
        | inr failed ↦ rw failed (clean_up-other c (err dbt_refresh_error, built) n s ∙ same)
        | inl fine ↦ elim (transaction-cases built) [
          | inr (raised, kept) ↦ rw fine (
              clean_up-other c (transaction built (promote built)) n s
              ∙ ap (λ (d : Database A). d n) kept
              ∙ same)
          | inl (returned, now) ↦ absurd (cc (rw (refresh, fine, returned) at h))
        ]
      ]

  -- A refresh that returns has put what dbt built under the live names, whatever stood there.
  pub accepted_refresh-serves_build :
      (build : Build A) (drop_works cleanup_works : Bool) (db : Database A)
      → (refresh build drop_works cleanup_works db).0 ≡ ok tt
      → let built : Database A = (build (drop_shadow_schemas db)).1 in
        let after : Database A = (refresh build drop_works cleanup_works db).1 in
        ((build (drop_shadow_schemas db)).0 ≡ true)
        × (after live_staging ≡ built refresh_staging)
        × (after live_marts ≡ built refresh_marts)
        × (after refresh_staging ≡ none)
        × (after refresh_marts ≡ none)
  unfolding refresh
  accepted_refresh-serves_build build false c db h = absurd (cc h)
  accepted_refresh-serves_build build true c db h =
      let built : Database A = (build (drop_shadow_schemas db)).1 in
      elim (Bool-cases (build (drop_shadow_schemas db)).0) [
        | inr failed ↦ absurd (cc (rw (refresh, failed) at h))
        | inl fine ↦ elim (transaction-cases built) [
          | inr (raised, kept) ↦ absurd (cc (rw (refresh, fine, raised) at h))
          | inl (returned, now) ↦
              let done : Ended A = transaction built (promote built) in
              rw fine (
                refl,
                clean_up-other c done live_staging refl ∙ now live_staging,
                clean_up-other c done live_marts refl ∙ now live_marts,
                clean_up-none c done refresh_staging (now refresh_staging),
                clean_up-none c done refresh_marts (now refresh_marts),
              )
        ]
      ]
