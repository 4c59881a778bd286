-- ===== src/Ledger/Reversal.antt =====
-- `reverseEntries` of ledgerService.ts as a whole: what it leaves of the position, and a second one.
use o_artiste.Prelude.{
  ℕ, neg, ◌+ℤ◌, ◌≡◌, refl, ap, ◌∙◌, ◌==◌, true, false, none, List, [], ◌++◌, keep, find, length,
  All, All-keep, arith,
}
use mathlib.Core.List.{append-nil}
use o_artiste.Schema.{EntryType, correction, Party}
use o_artiste.Errors.{ok}
use o_artiste.Ledger.{
  Ledger, transaction, is_offset_of, reverse_entries, is_original, includes_type, reconcile,
  of_booking,
}
use o_artiste.Ledger.Append.{total, total-append, reconcile_sum, reconcile_party, of, of_party}
use o_artiste.Ledger.Corrections.{Numbered, corrections, reverse_from_lem}
use o_artiste.Ledger.Originals.{
  Numbered-StandsFrom, keep-Rising, pending, unseen, corrections-total, corrections_are_not,
  keep-append, nothing_left, AllSeen-corrections, AllSeen-behind,
}

of_the_booking :
    (booking_id : ℕ) (types : List EntryType) (l : Ledger)
    → All (λ e. (e.booking_id == booking_id) ≡ true) (keep (is_original booking_id types) l)
of_the_booking booking_id types l =
    All-keep (λ e. (e.booking_id == booking_id) ≡ true) (is_original booking_id types) l
      (λ e h. ground arith)

-- In a table numbered by place with no row of nothing, where no row of the named types of a booking
-- is offset yet and a correction is not among the types: `reverseEntries` writes, behind what is
-- there, the exact negation of each such row and nothing else; what `reconcile` reports of the
-- booking, and of each party of it, moves by minus the sum of those rows; and a second reversal
-- writes nothing.
pub reverse_entries_reverses :
    (booking_id : ℕ) (types : List EntryType) (l : Ledger) (p : Party)
    → Numbered 0 l
    → includes_type types correction ≡ false
    → All (λ e. find (is_offset_of e.id) l ≡ none) (keep (is_original booking_id types) l)
    → let es = keep (is_original booking_id types) l in
      let written = corrections (length l) es in
      (reverse_entries transaction booking_id types true l ≡ ok (written, l ++ written))
      × ((reconcile booking_id (l ++ written)).sum_kobo
          ≡ (reconcile booking_id l).sum_kobo +ℤ neg (total (of_booking booking_id) es))
      × (of p (reconcile booking_id (l ++ written)).by_party
          ≡ of p (reconcile booking_id l).by_party +ℤ neg (total (of_party booking_id p) es))
      × (reverse_entries transaction booking_id types true (l ++ written) ≡ ok ([], l ++ written))
unfolding reverse_entries
reverse_entries_reverses booking_id types l p numbered plain free =
    let es = keep (is_original booking_id types) l in
    let written = corrections (length l) es in
    let stands = Numbered-StandsFrom 0 l numbered in
    let ready = pending booking_id types plain l l stands free in
    let again : keep (is_original booking_id types) (l ++ written) ≡ es =
      keep-append booking_id types l written
      ∙ (ap (λ xs. es ++ xs) (corrections_are_not booking_id types (length l) es)
          ∙ append-nil es) in
    let seen =
      AllSeen-behind booking_id l written es
        (AllSeen-corrections booking_id (length l) es (of_the_booking booking_id types l)) in
    (
      reverse_from_lem booking_id l l 0 es (unseen booking_id l es free)
          (keep-Rising (is_original booking_id types) 0 l numbered) ready,
      rw
          (
            reconcile_sum,
            total-append (of_booking booking_id) l written,
            reconcile_sum,
            corrections-total (of_booking booking_id) (length l) es (λ m e. refl),
          )
          refl,
      rw
          (
            reconcile_party p booking_id (l ++ written),
            total-append (of_party booking_id p) l written,
            reconcile_party p booking_id l,
            corrections-total (of_party booking_id p) (length l) es (λ m e. refl),
          )
          refl,
      rw again (nothing_left booking_id (l ++ written) (l ++ written) es seen),
    )
