-- ===== src/Request/Atomic.antt =====
-- A request that throws has written nothing: rules by which a request is known to be so. What it has
-- asked of the provider before it threw stays done.
use o_artiste.Prelude.{◌≡◌, refl, sym, ◌∙◌, Bool, true, false, Bool-cases, ◌⊎◌, inl, inr}
use o_artiste.Errors.{Result, ok, err, AppError}
use o_artiste.Store.{Db, Tx}
use o_artiste.Request.{
  World, Env, Action, Effect, ◌>>=◌, check, done, emit, settle, transact, after, caught, rescue,
  query,
}

-- When it throws, the database is as it was.
unfoldable pub IsAtomic : {T : Type 0} → Action T → Type 0
IsAtomic act = (w : World) (e : AppError) (v : World) → act w ≡ (err e, v) → v.db ≡ w.db

-- It never throws.
unfoldable pub IsSure : {T : Type 0} → Action T → Type 0
IsSure {T} act = (w : World) → (t : T) × (v : World) × (act w ≡ (ok t, v))

module _ {S : Type 0} {T : Type 0} where
  after-IsAtomic :
      (r : Result S × World) (next : S → Action T) (db : Db)
      → r.1.db ≡ db
      → ((s : S) → IsAtomic (next s))
      → (e : AppError) (v : World) → after r next ≡ (err e, v)
      → v.db ≡ db
  unfolding IsAtomic
  after-IsAtomic (err f, u) next db same rest e v h = let there : u ≡ v = cc in rw (← there) same
  after-IsAtomic (ok s, u) next db same rest e v h = rest s u e v h ∙ same

  -- A step that leaves the database as it is, and then one that may write.
  pub quiet-IsAtomic :
      (act : Action S) (next : S → Action T)
      → ((w : World) → (act w).1.db ≡ w.db)
      → ((s : S) → IsAtomic (next s))
      → IsAtomic (act >>= next)
  unfolding IsAtomic ◌>>=◌
  quiet-IsAtomic act next quiet rest w e v h = after-IsAtomic (act w) next w.db (quiet w) rest e v h

  sure_after :
      (r : Result S × World) (next : S → Action T) (db : Db)
      → ((e : AppError) (v : World) → r ≡ (err e, v) → v.db ≡ db)
      → ((s : S) → IsSure (next s))
      → (e : AppError) (v : World) → after r next ≡ (err e, v)
      → v.db ≡ db
  unfolding IsSure
  sure_after (err f, u) next db first rest e v h =
      let there : u ≡ v = cc in rw (← there) (first f u refl)
  sure_after (ok s, u) next db first rest e v h =
      let (t, x, ran) = rest s u in absurd (let impossible = sym ran ∙ h in cc)

  -- What may write, and then only steps that never throw.
  pub then_sure-IsAtomic :
      (act : Action S) (next : S → Action T)
      → IsAtomic act
      → ((s : S) → IsSure (next s))
      → IsAtomic (act >>= next)
  unfolding IsAtomic ◌>>=◌
  then_sure-IsAtomic act next first rest w e v h = sure_after (act w) next w.db (first w) rest e v h

  after-IsSure :
      (r : Result S × World) (next : S → Action T)
      → (s : S) × (u : World) × (r ≡ (ok s, u))
      → ((s : S) → IsSure (next s))
      → (t : T) × (v : World) × (after r next ≡ (ok t, v))
  unfolding IsSure
  after-IsSure (err f, u) next (s, x, h) rest = absurd cc
  after-IsSure (ok s, u) next ran rest = rest s u

  pub bind-IsSure :
      (act : Action S) (next : S → Action T)
      → IsSure act
      → ((s : S) → IsSure (next s))
      → IsSure (act >>= next)
  unfolding IsSure ◌>>=◌
  bind-IsSure act next first rest w = after-IsSure (act w) next (first w) rest

  pub check-IsAtomic :
      (r : Result S) (next : S → Action T)
      → ((s : S) → r ≡ ok s → IsAtomic (next s))
      → IsAtomic (check r >>= next)
  unfolding IsAtomic ◌>>=◌ check
  check-IsAtomic (err f) next rest w e v h = let there : w ≡ v = cc in rw there refl
  check-IsAtomic (ok s) next rest w e v h = rest s refl w e v h

pub done-IsSure : {T : Type 0} (t : T) → IsSure (done t)
unfolding IsSure done
done-IsSure t w = (t, w, refl)

pub emit-IsSure : (e : Effect) → IsSure (emit e)
unfolding IsSure emit
emit-IsSure e w = (tt, (emit e w).1, refl)

pub sure-IsAtomic : {T : Type 0} (act : Action T) → IsSure act → IsAtomic act
unfolding IsAtomic IsSure
sure-IsAtomic act sure w e v h =
    let (t, x, ran) = sure w in absurd (let impossible = sym ran ∙ h in cc)

settle-IsAtomic :
    {T : Type 0} (env : Env) (w : World) (r : Result (T × Db)) (e : AppError) (v : World)
    → settle env w r ≡ (err e, v)
    → v.db ≡ w.db
settle-IsAtomic env w (err f) e v h = let there : w ≡ v = cc in rw there refl
settle-IsAtomic env w (ok r) e v h = elim (Bool-cases (env.commits r.1)) [
  | inl c ↦ absurd (let impossible = rw c at h in cc)
  | inr c ↦ let run = rw c at h in let there : w ≡ v = cc in rw there refl
]

-- `prisma.$transaction` writes all or nothing.
pub transact-IsAtomic : {T : Type 0} (env : Env) (tx : Tx T) → IsAtomic (transact env tx)
unfolding IsAtomic transact
transact-IsAtomic env tx w e v h = settle-IsAtomic env w (tx w.db) e v h

-- Steps under a test.
pub either-IsAtomic :
    {T : Type 0} (test : Bool) (a c : Action T)
    → IsAtomic a
    → IsAtomic c
    → IsAtomic (elim test [ true ↦ a | false ↦ c ])
either-IsAtomic true a c h k = h
either-IsAtomic false a c h k = k

-- `try` and `catch` around requests of which each is so.
rescued :
    {T : Type 0} (r : Result T × World) (handler : AppError → Action T) (db : Db)
    → ((e : AppError) (v : World) → r ≡ (err e, v) → v.db ≡ db)
    → ((e : AppError) → IsAtomic (handler e))
    → (e : AppError) (v : World) → caught r handler ≡ (err e, v)
    → v.db ≡ db
unfolding IsAtomic
rescued (err f, u) handler db first second e v h = second f u e v h ∙ first f u refl
rescued (ok t, u) handler db first second e v h = absurd cc

pub rescue-IsAtomic :
    {T : Type 0} (act : Action T) (handler : AppError → Action T)
    → IsAtomic act
    → ((e : AppError) → IsAtomic (handler e))
    → IsAtomic (rescue act handler)
unfolding IsAtomic rescue
rescue-IsAtomic act handler first second w e v h =
    rescued (act w) handler w.db (first w) second e v h

-- When it throws, the database is as it was, or as the relation to it says.
unfoldable pub Throws : {T : Type 0} → (Db → Db → Type 0) → Action T → Type 0
Throws Wrote act =
    (w : World) (e : AppError) (v : World) → act w ≡ (err e, v) → (v.db ≡ w.db) ⊎ Wrote w.db v.db

pub atomic-Throws :
    {T : Type 0} (Wrote : Db → Db → Type 0) (act : Action T) → IsAtomic act → Throws Wrote act
unfolding IsAtomic Throws
atomic-Throws Wrote act atomic w e v h = inl (atomic w e v h)

pub map-Throws :
    {T : Type 0} (Wrote Wrote' : Db → Db → Type 0) (act : Action T)
    → ((d d' : Db) → Wrote d d' → Wrote' d d')
    → Throws Wrote act
    → Throws Wrote' act
unfolding Throws
map-Throws Wrote Wrote' act weaken throws w e v h = elim (throws w e v h) [
  | inl same ↦ inl same
  | inr wrote ↦ inr (weaken w.db v.db wrote)
]

pub either-Throws :
    {T : Type 0} (Wrote : Db → Db → Type 0) (test : Bool) (a c : Action T)
    → Throws Wrote a
    → Throws Wrote c
    → Throws Wrote (elim test [ true ↦ a | false ↦ c ])
either-Throws Wrote true a c h k = h
either-Throws Wrote false a c h k = k

module _ {S : Type 0} {T : Type 0} (Wrote : Db → Db → Type 0) where
  after-Throws :
      (r : Result S × World) (next : S → Action T) (db : Db)
      → r.1.db ≡ db
      → ((s : S) → Throws Wrote (next s))
      → (e : AppError) (v : World) → after r next ≡ (err e, v)
      → (v.db ≡ db) ⊎ Wrote db v.db
  unfolding Throws
  after-Throws (err f, u) next db same rest e v h =
      let there : u ≡ v = cc in inl (rw (← there) same)
  after-Throws (ok s, u) next db same rest e v h = rw (← same) (rest s u e v h)

  pub quiet-Throws :
      (act : Action S) (next : S → Action T)
      → ((w : World) → (act w).1.db ≡ w.db)
      → ((s : S) → Throws Wrote (next s))
      → Throws Wrote (act >>= next)
  unfolding Throws ◌>>=◌
  quiet-Throws act next quiet rest w e v h = after-Throws (act w) next w.db (quiet w) rest e v h

  pub check-Throws :
      (r : Result S) (next : S → Action T)
      → ((s : S) → r ≡ ok s → Throws Wrote (next s))
      → Throws Wrote (check r >>= next)
  unfolding Throws ◌>>=◌ check
  check-Throws (err f) next rest w e v h = let there : w ≡ v = cc in inl (rw there refl)
  check-Throws (ok s) next rest w e v h = rest s refl w e v h

  read_after :
      (r : Result S) (read : Db → Result S) (next : S → Action T) (w : World)
      → read w.db ≡ r
      → ((s : S) → Throws (λ d d'. read d ≡ ok s → Wrote d d') (next s))
      → (e : AppError) (v : World) → after (r, w) next ≡ (err e, v)
      → (v.db ≡ w.db) ⊎ Wrote w.db v.db
  unfolding Throws
  read_after (err f) read next w seen rest e v h = let there : w ≡ v = cc in inl (rw there refl)
  read_after (ok s) read next w seen rest e v h = elim (rest s w e v h) [
    | inl same ↦ inl same
    | inr wrote ↦ inr (wrote seen)
  ]

  -- What a query has read is known of the database before.
  pub query-Throws :
      (read : Db → Result S) (next : S → Action T)
      → ((s : S) → Throws (λ d d'. read d ≡ ok s → Wrote d d') (next s))
      → Throws Wrote (query read >>= next)
  unfolding Throws ◌>>=◌ query
  query-Throws read next rest w e v h = read_after (read w.db) read next w refl rest e v h

-- A transaction, and then what may throw and has then written nothing more.
settled-Throws :
    {S T : Type 0} (env : Env) (w : World) (r : Result (S × Db)) (next : S → Action T)
    → ((s : S) → IsAtomic (next s))
    → (e : AppError) (v : World) → after (settle env w r) next ≡ (err e, v)
    → (v.db ≡ w.db) ⊎ ((s : S) × (r ≡ ok (s, v.db)))
unfolding IsAtomic
settled-Throws env w (err f) next rest e v h = let there : w ≡ v = cc in inl (rw there refl)
settled-Throws env w (ok r) next rest e v h = elim (Bool-cases (env.commits r.1)) [
  | inl c ↦
      let run = rw c at h in
      let same = rest r.0 (record w { db = r.1 }) e v run in inr (r.0, rw same refl)
  | inr c ↦ let run = rw c at h in let there : w ≡ v = cc in inl (rw there refl)
]

pub transact-Throws :
    {S T : Type 0} (env : Env) (tx : Tx S) (next : S → Action T)
    → ((s : S) → IsAtomic (next s))
    → Throws (λ d d'. (s : S) × (tx d ≡ ok (s, d'))) (transact env tx >>= next)
unfolding Throws ◌>>=◌ transact
transact-Throws env tx next rest w e v h = settled-Throws env w (tx w.db) next rest e v h
