-- ===== src/Query/Reports/Execution/Streams.antt =====
-- The two exports of a report agree.
use net_graphy.Prelude.{
  String, ◌<>◌, ◌≡◌, ◌⊎◌, inl, inr, refl, sym, ◌∙◌, ap, true, false, some, List, [], ◌∷◌, map, ok,
  ◌>>=◌, Result-cases, contains, ◌==◌, ==_refl, eq_iff, Bool-cases,
}
use net_graphy.Prelude.Dict.{Dict, lookup, insert, lookup-insert}
use net_graphy.Query.EdgeIndex.{QueryValidator}
use net_graphy.Query.Reports.{ReportDefinition}
use net_graphy.Query.Reports.Execution.{
  Outside, Row, execute, cell, export_report, safe_row, write_dict, export_rows, export_csv,
  stream_csv, or_empty_text,
}

module _ (o : Outside) (row : Row) where
  -- A header that is written once keeps its cell, whatever is written after.
  lookup-safe_row :
      (h : String) (headers : List String) (safe : Dict String)
      → (contains h headers ≡ true) ⊎ (lookup h safe ≡ some (cell o row h))
      → lookup h (safe_row o row headers safe) ≡ some (cell o row h)
  unfolding safe_row contains
  lookup-safe_row h [] safe (inl e) = cc
  lookup-safe_row h [] safe (inr e) = e
  lookup-safe_row h (header ∷ headers) safe w = elim (Bool-cases (header == h)) [
    | inl e ↦ lookup-safe_row h headers (insert header (cell o row header) safe) (
        inr (
          lookup-insert header h (cell o row header) safe
          ∙ rw e (ap (λ x. some (cell o row x)) ((eq_iff header h).0 e))))
    | inr e ↦ lookup-safe_row h headers (insert header (cell o row header) safe) (still e w)
  ]
    where
      still :
          (header == h) ≡ false
          → (contains h (header ∷ headers) ≡ true) ⊎ (lookup h safe ≡ some (cell o row h))
          → (contains h headers ≡ true)
            ⊎ (lookup h (insert header (cell o row header) safe) ≡ some (cell o row h))
      still e (inl c) = elim (Bool-cases (h == header)) [
        | inl back ↦ cc ((eq_iff header h).1 (sym ((eq_iff h header).0 back)))
        | inr there ↦ inl (rw (contains, there) at c)
      ]
      still e (inr k) = inr (lookup-insert header h (cell o row header) safe ∙ rw e k)

  -- Every header of a part of the headers has the same text in the row built as a dictionary.
  cells :
      (headers part : List String)
      → ((h : String) → contains h part ≡ true → contains h headers ≡ true)
      → map (λ h. or_empty_text (lookup h (safe_row o row headers []))) part ≡ map (cell o row) part
  unfolding contains
  cells headers [] within = refl
  cells headers (h ∷ part) within =
      rw
        (
          lookup-safe_row h headers [] (inl (within h (rw (==_refl h) refl))),
          cells headers part (λ k c. within k (later k c)),
        )
        refl
    where
      later : (k : String) → contains k part ≡ true → contains k (h ∷ part) ≡ true
      later k c = elim (Bool-cases (k == h)) [ inl e ↦ rw e refl | inr e ↦ rw (e, c) refl ]

  write_dict-safe_row :
      (headers : List String)
      → write_dict o headers (safe_row o row headers []) ≡ o.write_row (map (cell o row) headers)
  unfolding write_dict
  write_dict-safe_row headers = ap (λ vs. o.write_row vs) (cells headers headers (λ h c. c))

-- What a reader of the stream has in the end.
unfoldable pub received : List String → String
received [] = ""
received (text ∷ texts) = text <> received texts

module _ (o : Outside) where
  export_rows-received :
      (headers : List String) (rows : List Row)
      → export_rows o headers rows
        ≡ received (map (λ row. o.write_row (map (cell o row) headers)) rows)
  unfolding export_rows received
  export_rows-received headers [] = refl
  export_rows-received headers (row ∷ rows) =
      rw (write_dict-safe_row o row headers, export_rows-received headers rows) refl

  -- What `stream_csv` yields, put together, is the text that `export_csv` returns, for every database
  -- and every report; and the one raises an error exactly where the other raises the same one.
  pub export_csv-stream_csv :
      (v : QueryValidator) (report : ReportDefinition)
      → export_csv o v report ≡ (stream_csv o v report >>= λ texts. ok (received texts))
  unfolding export_csv stream_csv received
  export_csv-stream_csv v report = elim (Result-cases (execute o v (export_report report))) [
    | inl (r, p) ↦ rw (p, export_rows-received r.csv_headers r.rows) refl
    | inr (e, p) ↦ rw p refl
  ]
