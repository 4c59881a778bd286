-- ===== src/CheckIn/Codes.antt =====
-- The forms of a check-in code of checkInService.ts.
use o_artiste.Prelude.{ℕ, ◌≡◌, refl, ap, true, List, [], ◌∷◌, All, arith, ==_refl}
use o_artiste.CheckIn.{upper, is_code_char, normalise_code, format_code, codes_match, same_codes}

abbrev pub AreCodeChars : List ℕ → Type 0
AreCodeChars = All (λ c. is_code_char c ≡ true)

upper_code_char : (c : ℕ) → is_code_char c ≡ true → upper c ≡ c
upper_code_char c h = ground arith

normalise_code-keep :
    (c : ℕ) (cs : List ℕ) → is_code_char c ≡ true → normalise_code (c ∷ cs) ≡ c ∷ normalise_code cs
unfolding normalise_code
normalise_code-keep c cs h = rw (upper_code_char c h, h) refl

normalise_code-dash : (cs : List ℕ) → normalise_code (45 ∷ cs) ≡ normalise_code cs
unfolding normalise_code
normalise_code-dash cs = refl

normalise_code-code : (cs : List ℕ) → AreCodeChars cs → normalise_code cs ≡ cs
unfolding normalise_code
normalise_code-code [] h = refl
normalise_code-code (c ∷ cs) h =
    rw (upper_code_char c h.0, h.0) (ap (λ ds. c ∷ ds) (normalise_code-code cs h.1))

same_codes_refl : (cs : List ℕ) → same_codes cs cs ≡ true
same_codes_refl [] = refl
same_codes_refl (c ∷ cs) = rw (==_refl c) (same_codes_refl cs)

normalise_code-format_code : (cs : List ℕ) → AreCodeChars cs → normalise_code (format_code cs) ≡ cs
unfolding format_code
normalise_code-format_code (a ∷ b ∷ c ∷ d ∷ e ∷ f ∷ g ∷ h ∷ []) p' =
    let pa = p'.0 in
    let pb = p'.1.0 in
    let pc = p'.1.1.0 in
    let pd = p'.1.1.1.0 in
    let p = p'.1.1.1.1 in
    rw
      (
        normalise_code-keep a (b ∷ c ∷ d ∷ 45 ∷ e ∷ f ∷ g ∷ h ∷ []) pa,
        normalise_code-keep b (c ∷ d ∷ 45 ∷ e ∷ f ∷ g ∷ h ∷ []) pb,
        normalise_code-keep c (d ∷ 45 ∷ e ∷ f ∷ g ∷ h ∷ []) pc,
        normalise_code-keep d (45 ∷ e ∷ f ∷ g ∷ h ∷ []) pd,
        normalise_code-dash (e ∷ f ∷ g ∷ h ∷ []),
        normalise_code-code (e ∷ f ∷ g ∷ h ∷ []) p,
      )
      refl
normalise_code-format_code cs p = normalise_code-code cs p

-- A code of digits and capitals is matched by the form in which it is shown, and reading the shown
-- form gives the code back.
pub codes_match-format_code :
    (code : List ℕ)
    → AreCodeChars code
    → (codes_match code (format_code code) ≡ true) × (normalise_code (format_code code) ≡ code)
unfolding codes_match
codes_match-format_code code h =
    let shown = normalise_code-format_code code h in
    (rw (shown, normalise_code-code code h) (same_codes_refl code), shown)
