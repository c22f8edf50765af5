-- ===== src/Rate/Tally.antt =====
-- The times at which one key was allowed, against the window of its counter.
use nexus_ai_gateway.Common.{
  ℕ, ◌+◌, ◌<◌, ◌≤◌, ◌≡◌, Bool, true, ◌&&◌, List, [], ◌∷◌, ◌++◌, arith, leb, ltb, count_if,
  count_if-append, count_if_mono, Bool-cases, inl, inr,
}

abbrev pub in_window : ℕ → ℕ → ℕ → Bool
in_window window s t = leb s t && ltb t (s + window)

abbrev between : ℕ → ℕ → ℕ → Bool
between s start t = leb s t && ltb t start

-- The key was allowed at `past`; its window began at `start` and has counted `count`; `most` is the
-- number that a window allows, and no later call comes before `last`.
pub record Tally (most window last start count : ℕ) (past : List ℕ) : Type 0 where
  pub capped : count ≤ most
  pub started : start ≤ last
  pub since_start : count_if (leb start) past ≤ count
  pub since_then : count_if (ltb start) past + 1 ≤ count
  pub ended : count_if (ltb (start + window)) past ≡ 0
  -- The allowances before the start, in an interval that reaches over it, are of one window.
  pub before : (s : ℕ) → start < s + window → count_if (between s start) past + 1 ≤ most
  pub total : (s : ℕ) → count_if (in_window window s) past + 1 ≤ most + most

pub Tally-first : (most window now : ℕ) → 0 < most → Tally most window now now 1 (now ∷ [])
Tally-first most window now h = record {
  capped = omega arith;
  started = omega arith;
  since_start = ground arith;
  since_then = ground arith;
  ended = ground arith;
  before = λ s l. ground arith;
  total = λ s. ground arith;
}

module _ (most window last start count now : ℕ) (past : List ℕ) where
  pub Tally-later :
      last ≤ now → Tally most window last start count past → Tally most window now start count past
  Tally-later l t = record {
    capped = t.capped;
    started = omega arith;
    since_start = t.since_start;
    since_then = t.since_then;
    ended = t.ended;
    before = t.before;
    total = t.total;
  }

  window-le-parts :
      (s : ℕ) (ts : List ℕ)
      → count_if (in_window window s) ts ≤ count_if (between s start) ts + count_if (leb start) ts
  window-le-parts s [] = omega arith
  window-le-parts s (t ∷ ts) = ground (arith, window-le-parts s ts)

  -- Counted on in the window.
  pub Tally-counted :
      last ≤ now
      → now ≤ start + window
      → count < most
      → Tally most window last start count past
      → Tally most window now start (count + 1) (past ++ now ∷ [])
  Tally-counted l e c t = record {
    capped = omega arith;
    started = omega arith;
    since_start = ground (arith, count_if-append (leb start) past (now ∷ []));
    since_then = ground (arith, count_if-append (ltb start) past (now ∷ []));
    ended = ground (arith, count_if-append (ltb (start + window)) past (now ∷ []));
    before = λ s h. ground (arith, t.before s, count_if-append (between s start) past (now ∷ []));
    total = λ s. ground (
      arith,
      t.before s,
      t.total s,
      window-le-parts s past,
      count_if-append (in_window window s) past (now ∷ []),
    );
  }

  past-lt-now :
      start + window < now → Tally most window last start count past → count_if (leb now) past ≡ 0
  past-lt-now e t =
      let none_later : count_if (leb now) past ≤ count_if (ltb (start + window)) past =
        count_if_mono (leb now) (ltb (start + window)) past (λ x h. ground arith) in
      omega (arith, t.ended)

  since-le :
      (p : ℕ → Bool)
      → ((x : ℕ) → p x ≡ true → ltb start x ≡ true)
      → Tally most window last start count past
      → count_if p past + 1 ≤ most
  since-le p h t = omega (arith, count_if_mono p (ltb start) past h, t.since_then, t.capped)

  -- A new window.
  pub Tally-restarted :
      0 < most
      → start + window < now
      → Tally most window last start count past
      → Tally most window now now 1 (past ++ now ∷ [])
  Tally-restarted m e t =
      let z = past-lt-now e t in
      let later : count_if (ltb now) past ≤ count_if (leb now) past =
        count_if_mono (ltb now) (leb now) past (λ x h. ground arith) in
      let latest : count_if (ltb (now + window)) past ≤ count_if (leb now) past =
        count_if_mono (ltb (now + window)) (leb now) past (λ x h. ground arith) in
      record {
        capped = omega arith;
        started = omega arith;
        since_start = ground (arith, z, count_if-append (leb now) past (now ∷ []));
        since_then = ground (arith, z, later, count_if-append (ltb now) past (now ∷ []));
        ended = ground (arith, z, latest, count_if-append (ltb (now + window)) past (now ∷ []));
        before = λ s h. ground (
          arith,
          since-le (between s now) (λ x q. ground arith) t,
          count_if-append (between s now) past (now ∷ []),
        );
        total = λ s. elim (Bool-cases (in_window window s now)) [
          | inl inside ↦ ground (
            arith,
            since-le (in_window window s) (λ x q. ground arith) t,
            count_if-append (in_window window s) past (now ∷ []),
          )
          | inr outside ↦
              ground (arith, t.total s, count_if-append (in_window window s) past (now ∷ []))
        ];
      }
