-- ===== src/Integration/Retry.antt =====
-- What `retry` of tests/journal.rs returns.
use libsystemd_rs.Base.{
  ℕ, zero, suc, ◌+◌, ◌≤◌, ◌<◌, ◌==◌, ltb, ◌∙◌, some, Result, ok, err, ◌≡◌, refl, ap, arith, ◌⊎◌,
  inl, inr, Bool-cases, Result-cases, ==_iff,
}
use libsystemd_rs.Integration.Journal.{Retried, once_more, retry_from, retry}

module _ {E T : Type 0} (f : ℕ → Result E T) where
  abbrev pub IsErr : Result E T → Type 0
  IsErr r = (e : E) × (r ≡ err e)

  -- The calls from `i` on fail, up to one that succeeds.
  pub record Succeeds (i n : ℕ) (r : Retried E T) : Type 0 where
    pub last : ℕ
    pub result : T
    pub in_time : last < i + n
    pub before : (j : ℕ) → i ≤ j → j < last → IsErr (f j)
    pub succeeded : f last ≡ ok result
    pub returned_is : r.returned ≡ some (ok result)
    pub slept_is : r.slept + i ≡ last

  -- The calls from `i` on fail, all `suc n` of them.
  pub record GivesUp (i n : ℕ) (r : Retried E T) : Type 0 where
    pub error : E
    pub all_failed : (j : ℕ) → i ≤ j → j < i + suc n → IsErr (f j)
    pub last_error : f (i + n) ≡ err error
    pub returned_is : r.returned ≡ some (err error)
    pub slept_is : r.slept ≡ n

  -- One call that failed, before others.
  earlier :
      (i k : ℕ)
      → IsErr (f i)
      → ((j : ℕ) → suc i ≤ j → j < k → IsErr (f j))
      → (j : ℕ) → i ≤ j
      → j < k
      → IsErr (f j)
  earlier i k bad later j from below = elim (Bool-cases (j == i)) [
    | inl same ↦ let is_i : j ≡ i = (==_iff j i).0 same in rw is_i bad
    | inr other ↦ later j (ground arith) below
  ]

  retry-ok :
      (n i : ℕ) (t : T)
      → f i ≡ ok t
      → retry_from (suc n) f i ≡ record { returned = some (ok t); slept = 0 }
  unfolding retry_from
  retry-ok n i t good = ground arith

  retry_last :
      (i : ℕ) (e : E)
      → f i ≡ err e
      → retry_from 1 f i ≡ record { returned = some (err e); slept = 0 }
  unfolding retry_from
  retry_last i e bad = ground arith

  retry_more :
      (n i : ℕ) (e : E)
      → f i ≡ err e
      → retry_from (suc (suc n)) f i ≡ once_more (retry_from (suc n) f (suc i))
  unfolding retry_from
  retry_more n i e bad = ground arith

  once_more-Succeeds :
      (i n : ℕ) (r : Retried E T)
      → IsErr (f i)
      → Succeeds (suc i) (suc n) r
      → Succeeds i (suc (suc n)) (once_more r)
  once_more-Succeeds i n r bad s = record {
    last = s.last;
    result = s.result;
    in_time = omega (arith, s.in_time);
    before = earlier i s.last bad s.before;
    succeeded = s.succeeded;
    returned_is = s.returned_is;
    slept_is = omega (arith, s.slept_is);
  }

  once_more-GivesUp :
      (i n : ℕ) (r : Retried E T)
      → IsErr (f i)
      → GivesUp (suc i) n r
      → GivesUp i (suc n) (once_more r)
  once_more-GivesUp i n r bad g =
      let shifted : suc i + n ≡ i + suc n = omega arith in
      record {
        error = g.error;
        all_failed =
            earlier i (i + suc (suc n)) bad (λ j from below. g.all_failed j from (omega arith));
        last_error = rw shifted at (g.last_error);
        returned_is = g.returned_is;
        slept_is = ap suc g.slept_is;
      }

  first-GivesUp : (i : ℕ) (e : E) → f i ≡ err e → GivesUp i 0 (retry_from 1 f i)
  first-GivesUp i e bad =
      let here : i + 0 ≡ i = omega arith in
      rw (retry_last i e bad) (record {
        error = e;
        all_failed = earlier i (i + 1) (e, bad) (λ j from below. absurd (omega arith));
        last_error = rw here bad;
        returned_is = refl;
        slept_is = refl;
      })

  first-Succeeds : (n i : ℕ) (t : T) → f i ≡ ok t → Succeeds i (suc n) (retry_from (suc n) f i)
  first-Succeeds n i t good = rw (retry-ok n i t good) (record {
    last = i;
    result = t;
    in_time = omega arith;
    before = λ j from below. absurd (omega arith);
    succeeded = good;
    returned_is = refl;
    slept_is = omega arith;
  })

  retry_from_cases :
      (n i : ℕ) → Succeeds i (suc n) (retry_from (suc n) f i) ⊎ GivesUp i n (retry_from (suc n) f i)
  retry_from_cases zero i = elim (Result-cases (f i)) [
    | inr (t, good) ↦ inl (first-Succeeds 0 i t good)
    | inl (e, bad) ↦ inr (first-GivesUp i e bad)
  ]
  retry_from_cases (suc n) i = elim (Result-cases (f i)) [
    | inr (t, good) ↦ inl (first-Succeeds (suc n) i t good)
    | inl (e, bad) ↦ rw (retry_more n i e bad) (elim (retry_from_cases n (suc i)) [
      | inl s ↦ inl (once_more-Succeeds i n _ (e, bad) s)
      | inr g ↦ inr (once_more-GivesUp i n _ (e, bad) g)
    ])
  ]

  -- `retry` never comes to `unreachable!()`. It returns what the first of ten calls that succeeds
  -- gives, after one sleep for each call before, or else the error of the tenth after nine sleeps.
  pub retry_cases : Succeeds 0 10 (retry f) ⊎ GivesUp 0 9 (retry f)
  unfolding retry
  retry_cases = retry_from_cases 9 0

  -- So the first success that comes in time is what is returned.
  pub retry_succeeds :
      (k : ℕ) (t : T)
      → k < 10
      → ((j : ℕ) → j < k → IsErr (f j))
      → f k ≡ ok t
      → (retry f).returned ≡ some (ok t)
  retry_succeeds k t in_time before succeeded = elim retry_cases [
    | inl s ↦ elim (Bool-cases (ltb s.last k)) [
      | inl sooner ↦ let (e, bad) = before s.last (ground arith) in absurd (cc (bad, s.succeeded))
      | inr other ↦ elim (Bool-cases (ltb k s.last)) [
        | inl later ↦
            let (e, bad) = s.before k (omega arith) (ground arith) in absurd (cc (bad, succeeded))
        | inr not_later ↦
            let same : s.last ≡ k = ground arith in
            let result : ok s.result ≡ ok t = cc (ap f same, s.succeeded, succeeded) in
            s.returned_is ∙ ap some result
      ]
    ]
    | inr g ↦
        let (e, bad) = g.all_failed k (omega arith) (omega arith) in absurd (cc (bad, succeeded))
  ]
