-- ===== src/Persistence/Transaction/Preserves.antt =====
-- What a transaction's body ensures: a postcondition on the result and the tables for every way in
-- which it returns, with one rule for each construct of the transactions.
use burning_space.Base.{refl, ◌<◌, ℕ, zero, suc, ◌≡◌, Bool, true, false}
use burning_space.Persistence.Schema.{Db}
use burning_space.Persistence.Transaction.{
  Tx, Result, ok, throw, ◌>>=◌, run_transaction, require_positive_integer,
}

abbrev pub Ends : {A : Type 0} → (A → Db → Type 0) → Result (A × Db) → Type 0
Ends Q (ok (a, db)) = Q a db
Ends Q (throw e) = Unit

-- From tables that meet `P` the body returns with a result and tables that meet `Q`, or throws.
abbrev pub Leads : {A : Type 0} → (Db → Type 0) → (A → Db → Type 0) → Tx A → Type 0
Leads P Q m = (db : Db) → P db → Ends Q (m db)

abbrev pub Preserves : {A : Type 0} → (Db → Type 0) → Tx A → Type 0
Preserves P m = Leads P (λ _. P) m

-- One condition for each answer of a test.
abbrev pub OnBool : (Db → Type 0) → (Db → Type 0) → Bool → Db → Type 0
OnBool P Q true = P
OnBool P Q false = Q

Ends-bind :
    {A B : Type 0} (Q : A → Db → Type 0) (R : B → Db → Type 0) (r : Result (A × Db)) (f : A → Tx B)
    → Ends Q r
    → ((a : A) → Leads (Q a) R (f a))
    → Ends R (elim r [ ok (a, db') ↦ f a db' | throw e ↦ throw e ])
Ends-bind Q R (ok (a, db)) f h k = k a db h
Ends-bind Q R (throw e) f h k = tt

pub Leads-bind :
    {A B : Type 0} (P : Db → Type 0) (Q : A → Db → Type 0) (R : B → Db → Type 0) (m : Tx A)
    (f : A → Tx B)
    → Leads P Q m
    → ((a : A) → Leads (Q a) R (f a))
    → Leads P R (m >>= f)
Leads-bind P Q R m f h k db p = Ends-bind Q R (m db) f (h db p) k

pub Leads-require_positive_integer :
    {A : Type 0} (P : Db → Type 0) (Q : A → Db → Type 0) (n : ℕ) (m : Tx A)
    → Leads P Q m
    → Leads P Q (require_positive_integer n m)
Leads-require_positive_integer P Q zero m h db p = tt
Leads-require_positive_integer P Q (suc n) m h db p = h db p

Ends-mono :
    {A : Type 0} (Q R : A → Db → Type 0) (r : Result (A × Db))
    → ((a : A) (db : Db) → Q a db → R a db)
    → Ends Q r
    → Ends R r
Ends-mono Q R (ok (a, db)) f h = f a db h
Ends-mono Q R (throw e) f h = tt

pub Leads-weaken :
    {A : Type 0} (P : Db → Type 0) (Q R : A → Db → Type 0) (m : Tx A)
    → Leads P Q m
    → ((a : A) (db : Db) → Q a db → R a db)
    → Leads P R m
Leads-weaken P Q R m h f db p = Ends-mono Q R (m db) f (h db p)

module _ (P : Db → Type 0) where
  pub Preserves-bind :
      {A B : Type 0} (m : Tx A) (f : A → Tx B)
      → Preserves P m
      → ((a : A) → Preserves P (f a))
      → Preserves P (m >>= f)
  Preserves-bind m f h k = Leads-bind P (λ _. P) (λ _. P) m f h k

  pub Preserves-require_positive_integer :
      {A : Type 0} (n : ℕ) (m : Tx A) → Preserves P m → Preserves P (require_positive_integer n m)
  Preserves-require_positive_integer n m h = Leads-require_positive_integer P (λ _. P) n m h

  after_of_Ends :
      {A : Type 0} (r : Result (A × Db)) (db : Db)
      → P db
      → Ends (λ _. P) r
      → P (
          let out : Result A × Db = elim r [
            | ok (a, db') ↦ (ok a, db')
            | throw e ↦ (throw e, db)
          ] in
          out.1)
  after_of_Ends (ok (a, db')) db p h = h
  after_of_Ends (throw e) db p h = p

  -- With ROLLBACK on a throw, the transaction as a whole keeps `P`.
  pub run_transaction-Preserves :
      {A : Type 0} (m : Tx A) (db : Db) → Preserves P m → P db → P (run_transaction m db).1
  unfolding run_transaction
  run_transaction-Preserves m db h p = after_of_Ends (m db) db p (h db p)

pub require_positive_integer_lem :
    {A : Type 0} (n : ℕ) (m : Tx A) → 0 < n → require_positive_integer n m ≡ m
require_positive_integer_lem zero m h = elim h [ ]
require_positive_integer_lem (suc n) m h = refl
