-- ===== src/Postgres/Transaction/Laws.antt =====
-- What a transaction body does whenever it returns no error, as a function on the tables, and what
-- that says of the committed tables.
use meme_launchpad_backend.Common.{
  ◌≡◌, refl, ap, ◌∙◌, [], String, arith, false, Bool-cases, inl, inr,
}
use meme_launchpad_backend.Postgres.Transaction.{
  Error, Result, ok, err, wrapped, Tx, M, pure, within, exec, ◌>>=◌, ◌>>◌, World, next_fault,
  finish, transact,
}

module _ {D : Type 0} where
  -- a transaction and a database in which no statement fails
  abbrev pub at_ease : D → Tx D
  at_ease d = record { tables = d; aborted = false; faults = [] }

  abbrev pub calm : D → World D
  calm d = record { db = d; faults = [] }

-- Every run of `m` that succeeds returns and leaves what `f` computes from the tables, and every run
-- in which no statement fails succeeds.
pub record Does {D A : Type 0} (m : M D A) (f : D → A × D) : Type 0 where
  pub on_ok :
      (tx tx' : Tx D) (a : A)
      → m tx ≡ (ok a, tx')
      → (a ≡ (f tx.tables).0) × (tx'.tables ≡ (f tx.tables).1)
  pub run : (d : D) → m (at_ease d) ≡ (ok (f d).0, at_ease (f d).1)

wrapped-eq-ok :
    {A : Type 0} (text : String) (r : Result A) (a : A) → wrapped text r ≡ ok a → r ≡ ok a
wrapped-eq-ok text (ok b) a h = h
wrapped-eq-ok text (err e) a h = cc

module _ {D A : Type 0} where
  pub Does-pure : (a : A) → Does {D = D} (pure a) (λ d. (a, d))
  Does-pure a = record { on_ok = λ tx tx' b h. ground arith; run = λ d. refl }

  pub Does-exec : (stmt : D → A × D) → Does (exec stmt) stmt
  unfolding exec
  Does-exec stmt = record { on_ok = λ tx tx' b h. ground arith; run = λ d. refl }

  pub Does-within : (text : String) {m : M D A} {f : D → A × D} → Does m f → Does (within text m) f
  Does-within text {m = m} {f = f} h = record {
    on_ok = λ tx tx' a e. h.on_ok tx tx' a (ground (arith, wrapped-eq-ok text (m tx).0 a));
    run = λ d. ap (λ out. (wrapped text out.0, out.1)) (h.run d);
  }

  -- a statement with the text of its error
  pub Does-statement : (text : String) (stmt : D → A × D) → Does (within text (exec stmt)) stmt
  Does-statement text stmt = Does-within text (Does-exec stmt)

module _ {D A B : Type 0} where
  pub bind-eq-ok :
      (m : M D A) (k : A → M D B) (tx tx' : Tx D) (b : B)
      → (m >>= k) tx ≡ (ok b, tx')
      → (a : A) × ((m tx).0 ≡ ok a) × (k a (m tx).1 ≡ (ok b, tx'))
  bind-eq-ok m k tx tx' b h = go (m tx).0 refl h
    where
      go :
          (r : Result A)
          → (m tx).0 ≡ r
          → ◌≡◌ {A = Result B × Tx D}
              (elim r [ ok a ↦ k a (m tx).1 | err e ↦ (err e, (m tx).1) ])
              (ok b, tx')
          → (a : A) × ((m tx).0 ≡ ok a) × (k a (m tx).1 ≡ (ok b, tx'))
      go (ok a) p q = (a, p, q)
      go (err e) p q = cc

  pub Does-bind :
      {m : M D A} {k : A → M D B} {f : D → A × D} {g : A → D → B × D}
      → Does m f
      → ((a : A) → Does (k a) (g a))
      → Does (m >>= k) (λ d. g (f d).0 (f d).1)
  Does-bind {m = m} {k = k} {f = f} {g = g} hm hk = record {
    on_ok = λ tx tx' b h.
        let (a, ra, rk) = bind-eq-ok m k tx tx' b h in
        let (va, da) = hm.on_ok tx (m tx).1 a (λ i. (ra i, (m tx).1)) in
        let (vb, db) = (hk a).on_ok (m tx).1 tx' b rk in
        (vb ∙ (λ i. (g (va i) (da i)).0), db ∙ (λ i. (g (va i) (da i)).1));
    run = λ d.
        ap
          (λ out. elim out.0 as (λ _. Result B × Tx D) [
            | ok a ↦ k a out.1
            | err e ↦ (err e, out.1)
          ])
          (hm.run d)
        ∙ (hk (f d).0).run (f d).1;
  }

  pub Does-then :
      {m : M D A} {n : M D B} {f : D → A × D} {g : D → B × D}
      → Does m f
      → Does n g
      → Does (m >> n) (λ d. g (f d).1)
  Does-then {g = g} hm hn = Does-bind {g = λ _. g} hm (λ _. hn)

module _ {D A : Type 0} where
  -- The tables change only by what the body does, and only if the call returns no error.
  abbrev pub IsAtomic : Result A × World D → World D → (D → A × D) → Type 0
  IsAtomic (ok a, w') w f = (a ≡ (f w.db).0) × (w'.db ≡ (f w.db).1)
  IsAtomic (err e, w') w f = w'.db ≡ w.db

  finish-IsAtomic :
      (w : World D) (f : D → A × D) (out : Result A × Tx D)
      → ((a : A) (tx' : Tx D) → out ≡ (ok a, tx') → (a ≡ (f w.db).0) × (tx'.tables ≡ (f w.db).1))
      → IsAtomic (finish w.db out) w f
  unfolding finish
  finish-IsAtomic w f (ok a, tx) h = ground (arith, h a tx refl)
  finish-IsAtomic w f (err e, tx) h = refl

  pub transact-IsAtomic :
      (begin_error : Error → Error) (body : M D A) (f : D → A × D)
      → Does body f
      → (w : World D) → IsAtomic (transact begin_error body w) w f
  unfolding transact
  transact-IsAtomic begin_error body f h w =
      let start : Tx D = record {
        tables = w.db;
        aborted = false;
        faults = (next_fault w.faults).1;
      } in
      elim (Bool-cases (next_fault w.faults).0) [
        | inl refused ↦ rw refused refl
        | inr begun ↦ rw begun (finish-IsAtomic w f (body start) (λ a tx' e. h.on_ok start tx' a e))
      ]

  pub transact-calm :
      (begin_error : Error → Error) (body : M D A) (f : D → A × D)
      → Does body f
      → (d : D) → transact begin_error body (calm d) ≡ (ok (f d).0, calm (f d).1)
  unfolding transact finish
  transact-calm begin_error body f h d = ap (finish d) (h.run d)
