-- ===== src/Strikes/Rules.antt =====
-- The rules of strikeService.ts: a published set prices every trigger once.
use o_artiste.Prelude.{
  ℕ, ◌≤◌, ◌≡◌, refl, true, false, List, [], ◌∷◌, keep, All, arith, some, length, ◌+◌, Bool-cases,
  inl, inr, ap, ◌∙◌, sym, if◌then◌else◌, find, not, Bool, ◌==◌,
}
use o_artiste.Schema.{StrikeTrigger, trigger_eq}
use o_artiste.Errors.{Result, ok, ◌>>=◌, throw_if, >>=-eq-ok, no_rules, triggers_missing}
use o_artiste.Store.{StrikeRule}
use o_artiste.Strikes.{
  names, validate_rule, validate_from, validate_rules, trigger_for_dispute, dispute_trigger,
  all_triggers,
}

-- How many rules price a trigger.
abbrev pub prices : StrikeTrigger → List StrikeRule → ℕ
prices t rs = length (keep (λ r. trigger_eq r.trigger t) rs)

-- 1 if a trigger is named.
abbrev named : List StrikeTrigger → StrikeTrigger → ℕ
named ts t = if names ts t then 1 else 0

trigger_eq-eq : (t u : StrikeTrigger) → trigger_eq t u ≡ true → t ≡ u
trigger_eq-eq t u h = ground arith

validate_rule_passes :
    (seen : List StrikeTrigger) (r : StrikeRule)
    → validate_rule seen r ≡ ok tt
    → (names seen r.trigger ≡ false) × (1 ≤ r.weight)
unfolding validate_rule
validate_rule_passes seen r h = ground arith

validate_from_lem :
    (t : StrikeTrigger) (seen : List StrikeTrigger) (rs : List StrikeRule)
    {out : List StrikeTrigger}
    → validate_from seen rs ≡ ok out
    → (named out t ≡ prices t rs + named seen t) × All (λ r. 1 ≤ r.weight) rs
unfolding validate_from
validate_from_lem t seen [] {out} h = let same : seen ≡ out = cc in (rw same (omega arith), tt)
validate_from_lem t seen (r ∷ rs) {out} h =
    let (u, checked, later) =
      >>=-eq-ok (validate_rule seen r) (λ _. validate_from (r.trigger ∷ seen) rs) h in
    let (fresh, heavy) = validate_rule_passes seen r checked in
    let (count, weights) = validate_from_lem t (r.trigger ∷ seen) rs later in
    elim (Bool-cases (trigger_eq r.trigger t)) [
      | inl e ↦
          let unseen : names seen t ≡ false =
            ap (names seen) (sym (trigger_eq-eq r.trigger t e)) ∙ fresh in
          let c : named out t ≡ prices t rs + 1 = rw e at count in
          (rw (e, unseen) (omega (arith, c)), (heavy, weights))
      | inr e ↦
          let c : named out t ≡ prices t rs + named seen t = rw e at count in
          (rw e (omega (arith, c)), (heavy, weights))
    ]

all_named : (t : StrikeTrigger) → names all_triggers t ≡ true
all_named t = ground arith

-- Nothing is missing from a list, so each of its members is named.
none_missing :
    (seen ts : List StrikeTrigger) (t : StrikeTrigger)
    → length (keep (λ u. not (names seen u)) ts) ≡ 0
    → names ts t ≡ true
    → names seen t ≡ true
none_missing seen [] t h m = cc
none_missing seen (u ∷ us) t h m = elim (Bool-cases (names seen u)) [
  | inr e ↦ (let more = rw e at h in ground arith)
  | inl e ↦ elim (Bool-cases (trigger_eq u t)) [
    | inl same ↦ ap (names seen) (sym (trigger_eq-eq u t same)) ∙ e
    | inr other ↦ none_missing seen us t (rw e at h) (rw other at m)
  ]
]

-- A rule of the list that a test holds for, where the test holds for one.
found :
    (t : StrikeTrigger) (rs : List StrikeRule)
    → All (λ r. 1 ≤ r.weight) rs
    → 1 ≤ prices t rs
    → (r : StrikeRule) × (find (λ r. trigger_eq r.trigger t) rs ≡ some r)
      × (trigger_eq r.trigger t ≡ true)
      × (1 ≤ r.weight)
found t [] heavy h = ground arith
found t (r ∷ rs) heavy h = elim (Bool-cases (trigger_eq r.trigger t)) [
  | inl e ↦ (r, rw e refl, e, heavy.0)
  | inr e ↦
      let (s, at, named_by, weight) = found t rs heavy.1 (rw e at h) in
      (s, rw e at, named_by, weight)
]

abbrev priced_by : List StrikeTrigger → Result (Unit {0})
priced_by seen =
    throw_if (not (length (keep (λ t. not (names seen t)) all_triggers) == 0)) triggers_missing

priced_by_lem :
    (seen : List StrikeTrigger)
    → priced_by seen ≡ ok tt
    → length (keep (λ t. not (names seen t)) all_triggers) ≡ 0
priced_by_lem seen h = go (length (keep (λ t. not (names seen t)) all_triggers)) h
  where
    go : (n : ℕ) → throw_if (not (n == 0)) triggers_missing ≡ ok tt → n ≡ 0
    go n e = ground arith

-- A set of rules that is accepted prices each of the triggers exactly once, and a dispute that is
-- ruled against a user always finds the rule of its trigger, of a weight of at least 1.
pub validate_rules-prices :
    (rules : List StrikeRule)
    → validate_rules rules ≡ ok tt
    → ((t : StrikeTrigger) → prices t rules ≡ 1)
      × ((false_claim : Bool)
          → (r : StrikeRule) × (trigger_for_dispute rules false_claim ≡ some r)
            × (r.trigger ≡ dispute_trigger false_claim)
            × (1 ≤ r.weight))
unfolding validate_rules
validate_rules-prices rules h =
    let (some_given, given, passed) =
      >>=-eq-ok (throw_if (length rules == 0) no_rules)
        (λ _. validate_from [] rules >>= λ seen. priced_by seen) h in
    let (seen, checked, complete) = >>=-eq-ok (validate_from [] rules) priced_by passed in
    let once : (t : StrikeTrigger) → prices t rules ≡ 1 = λ t.
      let all = none_missing seen all_triggers t (priced_by_lem seen complete) (all_named t) in
      let count : named seen t ≡ prices t rules + 0 = (validate_from_lem t [] rules checked).0 in
      let one : 1 ≡ prices t rules + 0 = rw all at count in omega (arith, one) in
    (
      once,
      λ false_claim.
          let t = dispute_trigger false_claim in
          let heavy = (validate_from_lem t [] rules checked).1 in
          let (r, at, named_by, weight) = found t rules heavy (omega (arith, once t)) in
          (r, unfold trigger_for_dispute in at, trigger_eq-eq r.trigger t named_by, weight),
    )
