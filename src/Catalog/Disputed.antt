-- ===== src/Catalog/Disputed.antt =====
-- What a put that the database reports as failed leaves in the tables (catalog.go).
use gocachez.Prelude.{
  ℕ, zero, suc, ◌+◌, ◌≤◌, ◌≡◌, ◌∙◌, ap, ◌⊎◌, ◌||◌, not, refl, true, false, none, some, inl, inr,
  Bool-cases, Option-cases, arith, ◌==◌,
}
use gocachez.Catalog.{Catalog, Entry}
use gocachez.Catalog.Put.{
  DbError, Attempt, record_put, upsert_entry_once, is_sqlite_busy, catalog_put_attempts, retry_from,
  retry_sqlite_busy, upsert_entry,
}
use gocachez.Catalog.Retry.{record_put_idem}

-- The attempt began and both statements went through; the commit reported a failure, and took
-- effect all the same.
pub record Landed (a : Attempt) : Type 0 where
  pub begun : a.begin_error ≡ none
  pub output_put : a.output_error ≡ none
  pub entry_put : a.entry_error ≡ none
  pub commit_error : DbError
  pub reported : a.commit_error ≡ some commit_error
  pub took_effect : a.disputed ≡ true

-- Nothing of the put is in the tables, or all of it is, by the commit of one of the attempts.
abbrev pub Unanswered : (ℕ → Attempt) → Entry → Catalog → Catalog → Type 0
Unanswered attempts e c c' =
    (c' ≡ c)
    ⊎ ((n : ℕ) × (1 ≤ n) × (n ≤ catalog_put_attempts) × Landed (attempts n) × (c' ≡ record_put e c))

once-Landed :
    (a : Attempt) (e : Entry) (s : Catalog)
    → ((upsert_entry_once a e s).0 ≡ none)
      ⊎ (((upsert_entry_once a e s).1 ≡ s)
          ⊎ (Landed a × ((upsert_entry_once a e s).1 ≡ record_put e s)))
unfolding upsert_entry_once
once-Landed a e s = elim (Option-cases a.begin_error) [
  | inr (x, b) ↦ inr (inl (ground (arith, b)))
  | inl b ↦ elim (Option-cases a.output_error) [
    | inr (x, o) ↦ inr (inl (ground (arith, b, o)))
    | inl o ↦ elim (Option-cases a.entry_error) [
      | inr (x, n) ↦ inr (inl (ground (arith, b, o, n)))
      | inl n ↦ elim (Option-cases a.commit_error) [
        | inl k ↦ inl (ground (arith, b, o, n, k))
        | inr (x, k) ↦ elim (Bool-cases a.disputed) [
          | inr f ↦ inr (inl (ground (arith, b, o, n, k, f)))
          | inl t ↦ inr (
              inr (
                record {
                  begun = b;
                  output_put = o;
                  entry_put = n;
                  commit_error = x;
                  reported = k;
                  took_effect = t;
                },
                ground (arith, b, o, n, k, t),
              ))
        ]
      ]
    ]
  ]
]

module _ (attempts : ℕ → Attempt) (e : Entry) (c : Catalog) where
  land :
      (n : ℕ) (s s' : Catalog)
      → 1 ≤ n
      → n ≤ catalog_put_attempts
      → Unanswered attempts e c s
      → (s' ≡ s) ⊎ (Landed (attempts n) × (s' ≡ record_put e s))
      → Unanswered attempts e c s'
  land n s s' low high (inl same_tables) (inl kept) = inl (kept ∙ same_tables)
  land n s s' low high (inr (m, l, h, landed, all)) (inl kept) = inr (m, l, h, landed, kept ∙ all)
  land n s s' low high (inl same_tables) (inr (landed, put_tables)) =
      inr (n, low, high, landed, put_tables ∙ ap (record_put e) same_tables)
  land n s s' low high (inr (m, l, h, before, all)) (inr (landed, put_tables)) =
      inr (n, low, high, landed, put_tables ∙ ap (record_put e) all ∙ record_put_idem e c)

  retry-Unanswered :
      (left attempt : ℕ) (s c' : Catalog) (err : DbError)
      → left + attempt ≡ catalog_put_attempts + 1
      → 1 ≤ attempt
      → Unanswered attempts e c s
      → retry_from (λ _. false) (λ n. upsert_entry_once (attempts n) e) left attempt s
        ≡ (some err, c')
      → Unanswered attempts e c c'
  unfolding retry_from
  retry-Unanswered zero attempt s c' err n low u h = absurd (ground arith)
  retry-Unanswered (suc left) attempt s c' err n low u h =
      let one = upsert_entry_once (attempts attempt) e s in
      elim (Bool-cases (not (is_sqlite_busy one.0) || attempt == catalog_put_attempts)) [
        | inl last ↦ elim (once-Landed (attempts attempt) e s) [
          | inl fine ↦ absurd (ground (arith, last, fine))
          | inr cases ↦
              let end : one.1 ≡ c' = ground (arith, last) in
              rw end at (land attempt s one.1 low (omega (arith, n)) u cases)
        ]
        | inr again ↦ elim (once-Landed (attempts attempt) e s) [
          | inl fine ↦ absurd (unfold is_sqlite_busy in ground (arith, again, fine))
          | inr cases ↦
              retry-Unanswered left (attempt + 1) one.1 c' err (omega (arith, n)) (omega arith)
                (land attempt s one.1 low (omega (arith, n)) u cases) (rw (again, retry_from) at h)
        ]
      ]

-- If `upsertEntry` returns an error, the tables are as they were, unless the commit of one of its
-- attempts, whose statements had all gone through, took effect although it reported a failure:
-- then the whole put is recorded once.
pub upsert_entry-Unanswered :
    (attempts : ℕ → Attempt) (e : Entry) (c c' : Catalog) (err : DbError)
    → upsert_entry attempts e c ≡ (some err, c')
    → Unanswered attempts e c c'
unfolding upsert_entry retry_sqlite_busy
upsert_entry-Unanswered attempts e c c' err h =
    retry-Unanswered attempts e c 3 1 c c' err refl (omega arith) (inl refl) h
