-- ===== src/Books/Logic.antt =====
-- Rules by which a request keeps what it found true of the database: of a step that computes or
-- queries, of a call of the provider, of a transaction, and of steps one after the other.
use o_artiste.Prelude.{◌≡◌, refl, Bool, true, false, Bool-cases, inl, inr}
use o_artiste.Errors.{Result, ok, err}
use o_artiste.Store.{Db, Tx}
use o_artiste.Request.{
  World, Env, Action, Instruction, Effect, ◌>>=◌, check, query, done, instruct, instruct_if, emit,
  settle, transact, after,
}

-- From a database with the one property, a request ends in one with the other, whether it returns
-- or throws.
unfoldable pub Leads : {T : Type 0} → (Db → Type 0) → Action T → (Db → Type 0) → Type 0
Leads P act Q = (w : World) → P w.db → Q (act w).1.db

-- A request that leaves the database as it is.
abbrev pub IsQuiet : {T : Type 0} → Action T → Type 0
IsQuiet act = (w : World) → (act w).1.db ≡ w.db

module _ {S : Type 0} {T : Type 0} (P : Db → Type 0) (Q : Db → Type 0) where
  after-Leads :
      (r : Result S × World) (next : S → Action T)
      → ((db : Db) → P db → Q db)
      → P r.1.db
      → ((s : S) → Leads P (next s) Q)
      → Q (after r next).1.db
  unfolding Leads
  after-Leads (err e, v) next weaken p rest = weaken v.db p
  after-Leads (ok s, v) next weaken p rest = rest s v p

  pub quiet-Leads :
      (act : Action S) (next : S → Action T)
      → ((db : Db) → P db → Q db)
      → IsQuiet act
      → ((s : S) → Leads P (next s) Q)
      → Leads P (act >>= next) Q
  unfolding Leads ◌>>=◌
  quiet-Leads act next weaken quiet rest w p =
      let p' : P (act w).1.db = rw (quiet w) p in after-Leads (act w) next weaken p' rest

  pub check-Leads :
      (r : Result S) (next : S → Action T)
      → ((db : Db) → P db → Q db)
      → ((s : S) → r ≡ ok s → Leads P (next s) Q)
      → Leads P (check r >>= next) Q
  unfolding Leads ◌>>=◌ check
  check-Leads (err e) next weaken rest w p = weaken w.db p
  check-Leads (ok s) next weaken rest w p = rest s refl w p

  read-Leads :
      (r : Result S) (read : Db → Result S) (next : S → Action T) (w : World)
      → read w.db ≡ r
      → ((db : Db) → P db → Q db)
      → ((s : S) → Leads (λ db. P db × (read db ≡ ok s)) (next s) Q)
      → P w.db
      → Q (after (r, w) next).1.db
  unfolding Leads
  read-Leads (err e) read next w h weaken rest p = weaken w.db p
  read-Leads (ok s) read next w h weaken rest p = rest s w (p, h)

  pub query-Leads :
      (read : Db → Result S) (next : S → Action T)
      → ((db : Db) → P db → Q db)
      → ((s : S) → Leads (λ db. P db × (read db ≡ ok s)) (next s) Q)
      → Leads P (query read >>= next) Q
  unfolding Leads ◌>>=◌ query
  query-Leads read next weaken rest w p = read-Leads (read w.db) read next w refl weaken rest p

  pub bind-Leads :
      (act : Action S) (next : S → Action T)
      → Leads P act Q
      → ((s : S) → Leads Q (next s) Q)
      → Leads P (act >>= next) Q
  unfolding Leads ◌>>=◌
  bind-Leads act next first rest w p = go (act w) (first w p)
    where
      go : (r : Result S × World) → Q r.1.db → Q (after r next).1.db
      go (err e, v) q = q
      go (ok s, v) q = rest s v q

-- A step that keeps what is known, whether it returns or throws.
pub chain-Leads :
    {S : Type 0} {T : Type 0} (P Q : Db → Type 0) (act : Action S) (next : S → Action T)
    → ((db : Db) → P db → Q db)
    → Leads P act P
    → ((s : S) → Leads P (next s) Q)
    → Leads P (act >>= next) Q
unfolding Leads ◌>>=◌
chain-Leads P Q act next weaken first rest w p =
    after-Leads P Q (act w) next weaken (first w p) rest

module _ {S : Type 0} (P : Db → Type 0) (Q : Db → Type 0) where
  settle-Leads :
      (env : Env) (w : World) (r : Result (S × Db))
      → ((db : Db) → P db → Q db)
      → P w.db
      → ((v : S × Db) → r ≡ ok v → Q v.1)
      → Q (settle env w r).1.db
  settle-Leads env w (err e) weaken p keeps = weaken w.db p
  settle-Leads env w (ok v) weaken p keeps = elim (Bool-cases (env.commits v.1)) [
    | inl c ↦ rw c (keeps v refl)
    | inr c ↦ rw c (weaken w.db p)
  ]

  pub transact-Leads :
      (env : Env) (tx : Tx S)
      → ((db : Db) → P db → Q db)
      → ((db : Db) (v : S × Db) → P db → tx db ≡ ok v → Q v.1)
      → Leads P (transact env tx) Q
  unfolding transact Leads
  transact-Leads env tx weaken keeps w p =
      settle-Leads env w (tx w.db) weaken p (λ v h. keeps w.db v p h)

pub instruct-IsQuiet : (env : Env) (i : Instruction) → IsQuiet (instruct env i)
unfolding instruct
instruct-IsQuiet env i w = elim (Bool-cases (env.accepts i)) [
  | inl e ↦ rw e refl
  | inr e ↦ rw e refl
]

pub instruct_if-IsQuiet : (b : Bool) (env : Env) (i : Instruction) → IsQuiet (instruct_if b env i)
unfolding instruct_if
instruct_if-IsQuiet true env i w = instruct-IsQuiet env i w
instruct_if-IsQuiet false env i w = refl

pub query-IsQuiet : {S : Type 0} (read : Db → Result S) → IsQuiet (query read)
unfolding query
query-IsQuiet read w = refl

pub emit-IsQuiet : (e : Effect) → IsQuiet (emit e)
unfolding emit
emit-IsQuiet e w = refl

-- A request that leaves the database as it is, as one that leads on.
pub still-Leads : {S : Type 0} (P : Db → Type 0) (act : Action S) → IsQuiet act → Leads P act P
unfolding Leads
still-Leads P act quiet w p = rw (quiet w) p

pub done-Leads :
    {S : Type 0} (P Q : Db → Type 0) (s : S) → ((db : Db) → P db → Q db) → Leads P (done s) Q
unfolding Leads done
done-Leads P Q s weaken w p = weaken w.db p

-- With more known of the database than is needed.
pub from-Leads :
    {S : Type 0} (P P' Q : Db → Type 0) (act : Action S)
    → ((db : Db) → P' db → P db)
    → Leads P act Q
    → Leads P' act Q
unfolding Leads
from-Leads P P' Q act stronger leads w p = leads w (stronger w.db p)
