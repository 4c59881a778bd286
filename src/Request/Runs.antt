-- ===== src/Request/Runs.antt =====
-- A request that returned has run each of its steps, and a request whose steps all go through runs.
use o_artiste.Prelude.{◌≡◌, refl, true, Bool-cases, inl, inr, List, ◌++◌, ◌∷◌, []}
use o_artiste.Errors.{Result, ok, err}
use o_artiste.Store.{Db, Tx}
use o_artiste.Request.{
  World, Env, Action, Instruction, Effect, ◌>>=◌, check, query, done, instruct, emit, settle,
  transact, after,
}

module _ {S : Type 0} {T : Type 0} where
  after-eq-ok :
      (r : Result S × World) (next : S → Action T) {t : T} {v : World}
      → after r next ≡ (ok t, v)
      → (s : S) × (u : World) × (r ≡ (ok s, u)) × (next s u ≡ (ok t, v))
  after-eq-ok (err e, u) next h = absurd cc
  after-eq-ok (ok s, u) next h = (s, u, refl, h)

  -- Steps one after the other.
  pub bind-eq-ok :
      (act : Action S) (next : S → Action T) (w : World) {t : T} {v : World}
      → (act >>= next) w ≡ (ok t, v)
      → (s : S) × (u : World) × (act w ≡ (ok s, u)) × (next s u ≡ (ok t, v))
  unfolding ◌>>=◌
  bind-eq-ok act next w h = after-eq-ok (act w) next h

  pub bind-run :
      (act : Action S) (next : S → Action T) {w : World} {s : S} {u : World}
      → act w ≡ (ok s, u)
      → (act >>= next) w ≡ next s u
  unfolding ◌>>=◌
  bind-run act next h = rw h refl

module _ {S : Type 0} {T : Type 0} (r : Result S) (next : S → Action T) (w : World) {v : World}
    {t : T} where
  pub check-eq-ok : (check r >>= next) w ≡ (ok t, v) → (s : S) × (r ≡ ok s) × (next s w ≡ (ok t, v))
  unfolding ◌>>=◌ check
  check-eq-ok h =
      elim r as (λ x. r ≡ x → (s : S) × (r ≡ ok s) × (next s w ≡ (ok t, v))) [
        | err e ↦ λ f. absurd (let impossible = rw f at h in cc)
        | ok s ↦ λ f. let rest = rw f at h in (s, f, rest)
      ]
        refl

module _ {S : Type 0} {T : Type 0} (read : Db → Result S) (next : S → Action T) (w : World)
    {v : World} {t : T} where
  pub query-eq-ok :
      (query read >>= next) w ≡ (ok t, v) → (s : S) × (read w.db ≡ ok s) × (next s w ≡ (ok t, v))
  unfolding query check ◌>>=◌
  query-eq-ok h = check-eq-ok (read w.db) next w h

pub instruct-eq-ok :
    (env : Env) (i : Instruction) (w : World) {u : World} {x : Unit}
    → instruct env i w ≡ (ok x, u)
    → u ≡ record w { instructed = w.instructed ++ i ∷ [] }
unfolding instruct
instruct-eq-ok env i w h = elim (Bool-cases (env.accepts i)) [
  | inl e ↦ let run = rw (instruct, e) at h in cc
  | inr e ↦ let run = rw (instruct, e) at h in absurd cc
]

settle-eq-ok :
    {T : Type 0} (env : Env) (w : World) (r : Result (T × Db)) {t : T} {u : World}
    → settle env w r ≡ (ok t, u)
    → (db : Db) × (r ≡ ok (t, db)) × (u ≡ record w { db = db })
settle-eq-ok env w (err e) h = absurd cc
settle-eq-ok env w (ok r) h = elim (Bool-cases (env.commits r.1)) [
  | inl c ↦ let run = rw c at h in (r.1, cc, cc)
  | inr c ↦ let run = rw c at h in absurd cc
]

pub transact-eq-ok :
    {T : Type 0} (env : Env) (tx : Tx T) (w : World) {t : T} {u : World}
    → transact env tx w ≡ (ok t, u)
    → (db : Db) × (tx w.db ≡ ok (t, db)) × (u ≡ record w { db = db })
unfolding transact
transact-eq-ok env tx w h = settle-eq-ok env w (tx w.db) h

pub emit-eq-ok :
    {T : Type 0} (e : Effect) (next : Unit {0} → Action T) (w : World) {t : T} {v : World}
    → (emit e >>= next) w ≡ (ok t, v)
    → next tt (record w { effects = w.effects ++ e ∷ [] }) ≡ (ok t, v)
unfolding ◌>>=◌ emit
emit-eq-ok e next w h = h

pub done-eq-ok :
    {T : Type 0} (s : T) (w : World) {t : T} {v : World} → done s w ≡ (ok t, v) → (t ≡ s) × (v ≡ w)
unfolding done
done-eq-ok s w h = (cc, cc)

-- One call of the provider, one transaction, and notices after it.
pub called_and_wrote :
    (w u x : World) {v : World} {calls : List Instruction} {db : Db} {notices : List Effect}
    → u ≡ record w { instructed = calls }
    → x ≡ record u { db = db }
    → v ≡ record x { effects = notices }
    → (v.db ≡ db) × (v.instructed ≡ calls)
called_and_wrote w u x h k l = rw (l, k, h) (refl, refl)

pub query-run :
    {S : Type 0} (read : Db → Result S) (w : World) {s : S}
    → read w.db ≡ ok s
    → query read w ≡ (ok s, w)
unfolding query
query-run read w h = rw h refl

-- The steps that go through, each before what follows it.
module _ {S : Type 0} {T : Type 0} where
  pub check-then :
      (r : Result S) (next : S → Action T) (w : World) {s : S}
      → r ≡ ok s
      → (check r >>= next) w ≡ next s w
  unfolding ◌>>=◌ check
  check-then r next w h = rw h refl

  pub query-then :
      (read : Db → Result S) (next : S → Action T) (w : World) {s : S}
      → read w.db ≡ ok s
      → (query read >>= next) w ≡ next s w
  unfolding ◌>>=◌ query
  query-then read next w h = rw h refl

  pub transact-then :
      (env : Env) (tx : Tx S) (next : S → Action T) (w : World) {r : S × Db}
      → tx w.db ≡ ok r
      → env.commits r.1 ≡ true
      → (transact env tx >>= next) w ≡ next r.0 (record w { db = r.1 })
  unfolding ◌>>=◌ transact
  transact-then env tx next w h commits = rw (h, commits) refl

pub instruct-then :
    {T : Type 0} (env : Env) (i : Instruction) (next : Unit {0} → Action T) (w : World)
    → env.accepts i ≡ true
    → (instruct env i >>= next) w ≡ next tt (record w { instructed = w.instructed ++ i ∷ [] })
unfolding ◌>>=◌ instruct
instruct-then env i next w h = rw h refl
